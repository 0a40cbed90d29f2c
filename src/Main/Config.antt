-- ===== src/Main/Config.antt =====
-- ServerConfig and LoadServerConfig of main.cpp. yaml-cpp is a parameter: what each call of it
-- answers or throws.
pub mod Loading
use wasm_hot.Base.{ℕ, ◌*◌, Option, none, some, Bool, true, false, String}

pub record ServerConfig : Type 0 where
  pub server_name : String
  pub listen_ip : String
  pub listen_port : ℕ
  pub thread_num : ℕ
  pub log_level : String
  pub flush_log_level : String
  pub max_file_size : ℕ
  pub max_rotate_file_num : ℕ

unfoldable pub default_config : ServerConfig
default_config = record {
  server_name = "";
  listen_ip = "127.0.0.1";
  listen_port = 8080;
  thread_num = 1;
  log_level = "info";
  flush_log_level = "warn";
  max_file_size = 100 * 1024 * 1024;
  max_rotate_file_num = 10;
}

-- What can be thrown, by the clause that catches it.
pub data Exception : Type 0 where
  bad_file parser_exception yaml_exception std_exception other_exception : Exception

pub data Read (A : Type 0) : Type 0 where
  value : A → Read A
  throws : Exception → Read A

-- YAML::LoadFile, and config[key].as<T>() for the three types.
pub record Yaml (Node : Type 0) : Type 0 where
  pub load_file : String → Read Node
  pub as_string : Node → String → Read String
  pub as_uint16 : Node → String → Read ℕ
  pub as_size : Node → String → Read ℕ

-- The configuration inside the try block, and what has been thrown.
pub record Attempt : Type 0 where
  pub config : ServerConfig
  pub thrown : Option Exception

-- The assignment of a value that has been read.
stored : {A : Type 0} → Read A → (A → ServerConfig → ServerConfig) → ServerConfig → Attempt
stored (value a) set config = record { config = set a config; thrown = none }
stored (throws e) set config = record { config = config; thrown = some e }

-- The next assignment of the try block, which is not reached after a throw.
unfoldable pub store : {A : Type 0} → Attempt → Read A → (A → ServerConfig → ServerConfig) → Attempt
unfolding stored
store attempt r set = elim attempt.thrown [ some e ↦ attempt | none ↦ stored r set attempt.config ]

-- The eight assignments, with what their right-hand sides answer.
unfoldable pub assign_fields :
    Read String
    → Read String
    → Read ℕ
    → Read ℕ
    → Read String
    → Read String
    → Read ℕ
    → Read ℕ
    → ServerConfig
    → Attempt
unfolding store
assign_fields name ip port threads level flush_level size files config =
    let start : Attempt = record { config = config; thrown = none } in
    let named = store start name (λ a c. record c { server_name = a }) in
    let at_ip = store named ip (λ a c. record c { listen_ip = a }) in
    let at_port = store at_ip port (λ a c. record c { listen_port = a }) in
    let threaded = store at_port threads (λ a c. record c { thread_num = a }) in
    let levelled = store threaded level (λ a c. record c { log_level = a }) in
    let flushed = store levelled flush_level (λ a c. record c { flush_log_level = a }) in
    let sized = store flushed size (λ a c. record c { max_file_size = a }) in
    store sized files (λ a c. record c { max_rotate_file_num = a })

-- The line on stderr of the clause that catches.
unfoldable pub catch_message : Exception → String
catch_message bad_file = "Error: failed to open config file"
catch_message parser_exception = "Error: invalid YAML format"
catch_message yaml_exception = "Error: failed to read config field"
catch_message std_exception = "Error: unexpected exception while reading config"
catch_message other_exception = "Error: unknown exception while reading config"

-- The result, 0 or -1, as `ok`; the out parameter; and the line on stderr without its details.
pub record Loaded : Type 0 where
  pub ok : Bool
  pub config : ServerConfig
  pub message : Option String

unfoldable pub caught : Attempt → Loaded
unfolding catch_message
caught attempt = elim attempt.thrown [
  | none ↦ record { ok = true; config = attempt.config; message = none }
  | some e ↦ record { ok = false; config = attempt.config; message = some (catch_message e) }
]

module _ {Node : Type 0} (yaml : Yaml Node) where
  -- The try block.
  unfoldable pub read_config : Read Node → ServerConfig → Attempt
  unfolding assign_fields
  read_config (throws e) config = record { config = config; thrown = some e }
  read_config (value node) config =
      assign_fields (yaml.as_string node "server_name") (yaml.as_string node "listen_ip")
        (yaml.as_uint16 node "listen_port") (yaml.as_size node "thread_num")
        (yaml.as_string node "log_level") (yaml.as_string node "flush_log_level")
        (yaml.as_size node "max_file_size") (yaml.as_size node "max_rotate_file_num") config

  unfoldable pub load_server_config : String → ServerConfig → Loaded
  unfolding read_config caught
  load_server_config config_path config = caught (read_config (yaml.load_file config_path) config)
