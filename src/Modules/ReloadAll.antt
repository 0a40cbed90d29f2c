-- ===== src/Modules/ReloadAll.antt =====
-- ModuleManager::HotReloadAll, which SIGHUP triggers.
use wasm_hot.Base.{
  ◌⊎◌, inl, inr, ℕ, ◌≤◌, ◌≡◌, refl, inl, inr, [], ◌∷◌, List, map, some, Bool, true, false, ◌&&◌,
  ◌||◌, ◌==◌, String, if◌then◌else◌, arith, Option-cases, Bool-cases, nat_key, string_key,
}
use wasm_hot.PluginInterface.{IPlugin}
use wasm_hot.Modules.{
  ModuleConfig, ModuleManager, Prepared, no_factory, refused, ready, get, install, save_previous,
  prepare, hot_reload, reload_each, hot_reload_all,
}
use wasm_hot.Modules.Reload.{hot_reload_lem, refused_changes_nothing}

abbrev is_ready : {Plugin : Type 0} → Prepared Plugin → Bool
is_ready no_factory = false
is_ready refused = false
is_ready (ready p) = true

module _ {World Plugin : Type 0} (api : IPlugin World Plugin) (world : String → World) where
  -- The configuration's plugin can be created and initialised.
  abbrev pub can_start : ModuleManager Plugin → ModuleConfig → Bool
  can_start m c = is_ready (prepare api world m c)

  abbrev pub all_start : ModuleManager Plugin → List ModuleConfig → Bool
  all_start m [] = true
  all_start m (c ∷ cs) = can_start m c && all_start m cs

  -- Some configuration of this name can start.
  abbrev pub some_start : ModuleManager Plugin → String → List ModuleConfig → Bool
  some_start m q [] = false
  some_start m q (c ∷ cs) = (c.name == q && can_start m c) || some_start m q cs

  -- One reload: the answer, the factory, and the next pointer.
  hot_reload-answer :
      (m m' : ModuleManager Plugin) (c : ModuleConfig) (ok : Bool)
      → hot_reload api world m c ≡ some (ok, m')
      → (ok ≡ can_start m c) × (m'.factory ≡ m.factory) × (m.next_ref ≤ m'.next_ref)
  unfolding hot_reload install save_previous
  hot_reload-answer m m' c ok h = ground arith

  hot_reload-get :
      (m m' : ModuleManager Plugin) (c : ModuleConfig) (ok : Bool) (q : String)
      → hot_reload api world m c ≡ some (ok, m')
      → get m' q ≡ (if c.name == q && can_start m c then some m.next_ref else get m q)
  hot_reload-get m m' c true q h =
      let answer = (hot_reload-answer m m' c true h).0 in
      let now = ((hot_reload_lem api world m m' c h).4 q).0 in ground arith
  hot_reload-get m m' c false q h =
      let answer = (hot_reload-answer m m' c false h).0 in
      let same = refused_changes_nothing api world m m' c (inr h) in ground arith

  prepare_congr :
      (m m' : ModuleManager Plugin) (c : ModuleConfig)
      → m'.factory ≡ m.factory
      → prepare api world m' c ≡ prepare api world m c
  unfolding prepare
  prepare_congr m m' c h = rw h

  all_start_congr :
      (m m' : ModuleManager Plugin) (cs : List ModuleConfig)
      → m'.factory ≡ m.factory
      → all_start m' cs ≡ all_start m cs
  all_start_congr m m' [] h = refl
  all_start_congr m m' (c ∷ cs) h = rw (prepare_congr m m' c h, all_start_congr m m' cs h)

  some_start_congr :
      (m m' : ModuleManager Plugin) (q : String) (cs : List ModuleConfig)
      → m'.factory ≡ m.factory
      → some_start m' q cs ≡ some_start m q cs
  some_start_congr m m' q [] h = refl
  some_start_congr m m' q (c ∷ cs) h = rw (prepare_congr m m' c h, some_start_congr m m' q cs h)

  reload_each-answer :
      (cs : List ModuleConfig) (m m' : ModuleManager Plugin) (all_ok ok : Bool)
      → reload_each api world all_ok m cs ≡ some (ok, m')
      → ok ≡ (all_ok && all_start m cs)
  unfolding reload_each
  reload_each-answer [] m m' all_ok ok h = ground arith
  reload_each-answer (c ∷ cs) m m' all_ok ok h = elim (Option-cases (hot_reload api world m c)) [
    | inl e ↦ absurd (ground arith)
    | inr ((ok₁, m₁), e) ↦
        let (answer, factory, _) = hot_reload-answer m m₁ c ok₁ e in
        let rest = reload_each-answer cs m₁ m' (all_ok && ok₁) ok (ground arith) in
        ground (arith, all_start_congr m m₁ cs factory)
  ]

  -- Where a name stands after the loop.
  abbrev pub Outcome :
      ModuleManager Plugin → ModuleManager Plugin → String → List ModuleConfig → Type 0
  Outcome m m' q cs =
      ((some_start m q cs ≡ false) × (get m' q ≡ get m q))
      ⊎ ((some_start m q cs ≡ true) × (ref : ℕ) × (get m' q ≡ some ref) × (m.next_ref ≤ ref))

  reload_each-Outcome :
      (cs : List ModuleConfig) (m m' : ModuleManager Plugin) (all_ok ok : Bool) (q : String)
      → reload_each api world all_ok m cs ≡ some (ok, m')
      → Outcome m m' q cs
  unfolding reload_each
  reload_each-Outcome [] m m' all_ok ok q h = inl (refl, ground arith)
  reload_each-Outcome (c ∷ cs) m m' all_ok ok q h = elim (Option-cases (hot_reload api world m c)) [
    | inl e ↦ absurd (ground arith)
    | inr ((ok₁, m₁), e) ↦
        let (answer, factory, grows) = hot_reload-answer m m₁ c ok₁ e in
        let same = some_start_congr m m₁ q cs factory in
        let one = hot_reload-get m m₁ c ok₁ q e in
        elim (reload_each-Outcome cs m₁ m' (all_ok && ok₁) ok q (ground arith)) [
          | inr (later, ref, now, fresh) ↦ inr (ground arith, ref, now, omega arith)
          | inl (no_more, last) ↦ elim (Bool-cases (c.name == q && can_start m c)) [
            | inl this ↦ inr (ground arith, m.next_ref, ground arith, omega arith)
            | inr other ↦ inl (ground arith, ground arith)
          ]
        ]
  ]

  -- A reload of all modules that returns answers true exactly when every configured plugin can be
  -- created and initialised. A name with a configuration that can start gets a new plugin; any
  -- other keeps its own.
  pub hot_reload_all_lem :
      (m m' : ModuleManager Plugin) (ok : Bool) (q : String)
      → hot_reload_all api world m ≡ some (ok, m')
      → let configs = map (λ entry. entry.1) m.configs in
        (ok ≡ all_start m configs) × Outcome m m' q configs
  unfolding hot_reload_all
  hot_reload_all_lem m m' ok q h =
      let configs = map (λ entry. entry.1) m.configs in
      (reload_each-answer configs m m' true ok h, reload_each-Outcome configs m m' true ok q h)
