-- ===== src/Lib.antt =====
-- WasmHot: a game server whose logic runs as WebAssembly modules that can be replaced at run time.
--
-- The parts and how they interact. The gateway accepts connections and cuts their bytes into
-- messages, which registered handlers get. Handlers and the main loop reach actors through the actor
-- runtime: each actor has a mailbox and runs its tasks one at a time on its own strand. A room actor
-- calls its own clone of a module; the call reads and writes components of its object through host
-- functions, and its output is a delta that is applied to the same object. The component storage
-- owns all component bytes, the object registry the headers. The module manager loads, reloads and
-- rolls back modules, and the migration engine brings objects to another schema version. The main
-- program reads the configuration, starts the gateway, and has its threads run the ticks of the actors
-- and the reloads and heap dumps that signals ask for. Each manager is the one instance of its class.
--
-- Files, and the code that each is about:
--   Base, Dict, Bytes, Bits   tests on numbers and texts, std::unordered_map, integers in memory
--   Schema, Schema/           src/core/schema_manager.h, src/core/schema_manager.cpp
--   Storage, Storage/         src/core/component_storage.h, src/core/component_storage.cpp
--   Object, Object/           src/core/object.h, src/core/object.cpp
--   Migration, Migration/     src/core/migration_engine.h, src/core/migration_engine.cpp
--   Registry, Registry/       src/core/object_registry.h, src/core/object_registry.cpp
--   PluginInterface           src/core/plugin_interface.h
--   Modules, Modules/         src/core/module_manager.h, src/core/module_manager.cpp
--   Plugin, Plugin/           src/plugin/wasmedge_plugin.h, src/plugin/wasmedge_plugin.cpp
--   Actor, Actor/             the class Actor of src/actor/actor.h, src/actor/actor.cpp
--   ActorRuntime, ActorRuntime/   src/actor/actor_runtime.h, src/actor/actor_runtime.cpp
--   RoomActor, RoomActor/     ActorWithObject of src/actor/actor.cpp, and src/actor/room_actor.cpp
--   Session, Session/         Gateway::Session of src/core/gateway.cpp
--   Gateway, Gateway/         src/core/gateway.h and the rest of src/core/gateway.cpp
--   Logging, Logging/         src/core/logging.h, src/core/logging.cpp
--   Main, Main/               src/main.cpp
--   Singleton, Singleton/     src/common/singleton.h
--
-- A method is the function of the same name in snake_case, from the state of its class to its result
-- and the new state; a part of a method that has a name of its own is next to it. A class is a record
-- with a field for each member that holds state. A map is an association list with the keys in the
-- order of their first insertion; the theorems speak of what `find` answers, so that the order of an
-- unordered_map does not matter to them; Storage.Unordered has the storage as a quotient without it. A
-- pointer to the one storage is a Boolean, whether it is null; a shared_ptr is a number that a table
-- gives a meaning. A method that holds its lock from beginning to end is one step;
-- ComponentStorage::Write, which does not, is there a second time, lock by lock and beside the other
-- methods, in Storage.Threads, and so are ObjectRegistry::Get and Destroy in Registry.Threads. The
-- strand of an actor and the other threads interleave in steps of Actor. The arguments of async_write
-- are evaluated from left to right, as the compiler that CMakeLists.txt asks for does. The completions
-- of a session come one at a time in Session; Session.Race has the lambda of Send on several threads.
-- Singleton and Logging.Throttle interleave their callers by atomic operations.
--
-- Numbers are natural numbers. Where the code computes on 32 or 64 bits and can leave the range, the
-- wrap-around is written out: the next version of a migration, the keys of the migration table, the
-- length in a frame, the session ids, the arguments of wasm code. The overflow of an addition with a
-- sign, in the number of a heap dump, is a fault. Theorems that need a value to be in range say so.
--
-- Fuel: the loop of a migration has more rounds than there are versions between the two, and needs one
-- for each of these and one for the last test. The reads of a session have as many rounds as they are
-- given, and need two for each message and two for the end.
--
-- Not in the sources, and so parameters: WasmEdge (memories with their laws, the run of wasm code, the
-- answers at the start of each plugin), CityHash64, whether an unordered_map rehashes, the file helper
-- of spdlog with its laws, asio (completions and the answers of the acceptor), the local time, the
-- answers of yaml-cpp, of CLI11 and of the system while the server starts, registered handlers and
-- migration functions, and what a plugin does behind its interface. Contexts are numbers that WasmEdge
-- hands out, so that deleting one twice is an error of the model.
--
-- Not modelled: the names of the logging macros for each level, which are instances of the macros
-- modelled, and NonCopyable, which only deletes copies.
pub mod Base
pub mod Dict
pub mod Bytes
pub mod Schema
pub mod Storage
pub mod Object
pub mod Bits
pub mod Migration
pub mod Registry
pub mod PluginInterface
pub mod Modules
pub mod Plugin
pub mod Actor
pub mod ActorRuntime
pub mod RoomActor
pub mod Session
pub mod Gateway
pub mod Logging
pub mod Main
pub mod Singleton
