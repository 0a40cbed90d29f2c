-- ===== src/Main/Config/Loading.antt =====
-- What LoadServerConfig of main.cpp leaves, from what the reads of the file answer.
use wasm_hot.Base.{
  ℕ, ◌≡◌, refl, ap, ◌∙◌, [], ◌∷◌, List, Option, none, some, not, String, is_some, take,
}
use wasm_hot.Main.Config.{
  ServerConfig, Exception, Read, value, throws, Yaml, store, assign_fields, catch_message, caught,
  read_config, load_server_config,
}

abbrev pub thrown_by : {A : Type 0} → Read A → Option Exception
thrown_by (value a) = none
thrown_by (throws e) = some e

-- The exception that is reached first.
abbrev pub first : List (Option Exception) → Option Exception
first [] = none
first (none ∷ rest) = first rest
first (some e ∷ rest) = some e

-- A field after a read that is reached unless something is thrown before it.
abbrev pub taken : {A : Type 0} → Option Exception → Read A → A → A
taken none (value a) old = a
taken none (throws e) old = old
taken (some e) r old = old

abbrev pub message_of : Option Exception → Option String
message_of none = none
message_of (some e) = some (catch_message e)

-- The eight reads, in the order of the code.
abbrev pub fields_after :
    Read String
    → Read String
    → Read ℕ
    → Read ℕ
    → Read String
    → Read String
    → Read ℕ
    → Read ℕ
    → List (Option Exception) × (ServerConfig → ServerConfig)
fields_after name ip port threads level flush_level size files =
    let faults : List (Option Exception) =
      thrown_by name
      ∷ thrown_by ip
      ∷ thrown_by port
      ∷ thrown_by threads
      ∷ thrown_by level
      ∷ thrown_by flush_level
      ∷ thrown_by size
      ∷ thrown_by files
      ∷ [] in
    let before : ℕ → Option Exception = λ n. first (take n faults) in
    (
      faults,
      λ c. record {
        server_name = taken (before 0) name c.server_name;
        listen_ip = taken (before 1) ip c.listen_ip;
        listen_port = taken (before 2) port c.listen_port;
        thread_num = taken (before 3) threads c.thread_num;
        log_level = taken (before 4) level c.log_level;
        flush_log_level = taken (before 5) flush_level c.flush_log_level;
        max_file_size = taken (before 6) size c.max_file_size;
        max_rotate_file_num = taken (before 7) files c.max_rotate_file_num;
      },
    )

assign_fields_lem :
    (name ip : Read String) (port threads : Read ℕ) (level flush_level : Read String)
    (size files : Read ℕ) (c : ServerConfig)
    → let (faults, after) = fields_after name ip port threads level flush_level size files in
      assign_fields name ip port threads level flush_level size files c
      ≡ record { config = after c; thrown = first faults }
unfolding assign_fields store
assign_fields_lem (throws e) ip port threads level flush_level size files c = refl
assign_fields_lem (value a) (throws e) port threads level flush_level size files c = refl
assign_fields_lem (value a) (value b) (throws e) threads level flush_level size files c = refl
assign_fields_lem (value a) (value b) (value d) (throws e) level flush_level size files c = refl
assign_fields_lem (value a) (value b) (value d) (value f) (throws e) flush_level size files c = refl
assign_fields_lem (value a) (value b) (value d) (value f) (value g) (throws e) size files c = refl
assign_fields_lem (value a) (value b) (value d) (value f) (value g) (value h) (throws e) files c =
    refl
assign_fields_lem (value a) (value b) (value d) (value f) (value g) (value h) (value i) (throws e)
      c =
    refl
assign_fields_lem (value a) (value b) (value d) (value f) (value g) (value h) (value i) (value j)
      c =
    refl

module _ {Node : Type 0} (yaml : Yaml Node) where
  -- What is thrown in the try block, in order, and what the fields become.
  abbrev pub outcomes : Read Node → List (Option Exception) × (ServerConfig → ServerConfig)
  outcomes (throws e) = (some e ∷ [], λ c. c)
  outcomes (value node) =
      fields_after (yaml.as_string node "server_name") (yaml.as_string node "listen_ip")
        (yaml.as_uint16 node "listen_port") (yaml.as_size node "thread_num")
        (yaml.as_string node "log_level") (yaml.as_string node "flush_log_level")
        (yaml.as_size node "max_file_size") (yaml.as_size node "max_rotate_file_num")

  read_config_lem :
      (file : Read Node) (c : ServerConfig)
      → let (faults, after) = outcomes file in
        read_config yaml file c ≡ record { config = after c; thrown = first faults }
  unfolding read_config
  read_config_lem (throws e) c = refl
  read_config_lem (value node) c =
      assign_fields_lem (yaml.as_string node "server_name") (yaml.as_string node "listen_ip")
        (yaml.as_uint16 node "listen_port") (yaml.as_size node "thread_num")
        (yaml.as_string node "log_level") (yaml.as_string node "flush_log_level")
        (yaml.as_size node "max_file_size") (yaml.as_size node "max_rotate_file_num") c

  caught_lem :
      (c : ServerConfig) (fault : Option Exception)
      → caught (record { config = c; thrown = fault })
        ≡ record { ok = not (is_some fault); config = c; message = message_of fault }
  unfolding caught
  caught_lem c none = refl
  caught_lem c (some e) = refl

  -- The file is loaded with success exactly if it opens and all eight fields can be read. The first
  -- exception gives the message, and the fields before it are the new ones then, and the others
  -- those from before.
  pub load_server_config_lem :
      (config_path : String) (c : ServerConfig)
      → let (faults, after) = outcomes (yaml.load_file config_path) in
        load_server_config yaml config_path c ≡ record {
          ok = not (is_some (first faults));
          config = after c;
          message = message_of (first faults);
        }
  unfolding load_server_config
  load_server_config_lem config_path c =
      let file = yaml.load_file config_path in
      let (faults, after) = outcomes file in
      ap caught (read_config_lem file c) ∙ caught_lem (after c) (first faults)
