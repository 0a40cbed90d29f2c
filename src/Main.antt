-- ===== src/Main.antt =====
-- main.cpp: the configuration, the start, and the handlers that the threads then run.
pub mod Config
pub mod Loop
pub mod Start
mod Tests
