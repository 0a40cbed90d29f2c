-- ===== src/Modules/Pointers.antt =====
-- The pointers to plugins of the loaded and saved modules of core/module_manager.cpp: no two agree.
use text.Mathlib.TextEquality.{eq_iff}
use wasm_hot.Base.{
  ℕ, ◌<◌, ◌≡◌, refl, sym, subst, inl, inr, Option, none, some, Bool, true, false, ◌&&◌, ◌==◌,
  String, arith, if◌then◌else◌, Option-cases, nat_key, string_key,
}
use wasm_hot.Dict.{find, find-assign, find-erase}
use wasm_hot.PluginInterface.{IPlugin}
use wasm_hot.Modules.{
  ModuleConfig, ModuleManager, install, save_previous, rollback, unload, unload_module,
}

module _ {Plugin : Type 0} where
  -- The pointer to the loaded module of a name, or to the saved one.
  abbrev pub slot : ModuleManager Plugin → Bool → String → Option ℕ
  slot m loaded q = if loaded then find q m.modules else find q m.previous_modules

  module _ (m : ModuleManager Plugin) (loaded : Bool) (q : String) where
    pub slot-install :
        (c : ModuleConfig) (p : Plugin)
        → slot (install m c p) loaded q
          ≡ (if loaded && (c.name == q) then some m.next_ref else slot m loaded q)
    unfolding install
    slot-install c p = ground (arith, find-assign c.name q m.next_ref m.modules)

    pub slot-reload :
        (c : ModuleConfig) (p : Plugin)
        → slot (install (save_previous m c.name) c p) loaded q ≡ (
            if c.name == q
            then (if loaded
                then some m.next_ref
                else elim (slot m true q) [ none ↦ slot m false q | some r ↦ some r ])
            else slot m loaded q)
    unfolding install save_previous
    slot-reload c p = elim (Option-cases (find c.name m.modules)) [
      | inl e ↦ ground (arith, find-assign c.name q m.next_ref m.modules, eq_iff c.name q)
      | inr (r, e) ↦ ground (
        arith,
        find-assign c.name q m.next_ref m.modules,
        find-assign c.name q r m.previous_modules,
        eq_iff c.name q,
      )
    ]

    pub slot-rollback :
        (name : String) (r : ℕ)
        → find name m.previous_modules ≡ some r
        → slot (rollback m name) loaded q
          ≡ (if name == q then (if loaded then some r else none) else slot m loaded q)
    unfolding rollback
    slot-rollback name r e =
        ground (arith, find-assign name q r m.modules, find-erase name q m.previous_modules)

  -- Every pointer is older than the next one, and two of them differ.
  pub record IsApart (m : ModuleManager Plugin) : Type 0 where
    pub older : (b : Bool) (q : String) (r : ℕ) → slot m b q ≡ some r → r < m.next_ref
    pub apart :
        (b c : Bool) (q t : String) (r : ℕ)
        → slot m b q ≡ some r
        → slot m c t ≡ some r
        → (b ≡ c) × (q ≡ t)

  pub install-IsApart :
      (m : ModuleManager Plugin) (c : ModuleConfig) (p : Plugin)
      → IsApart m
      → IsApart (install m c p)
  unfolding install
  install-IsApart m c p v = record {
    older = λ b q r h. let old = v.older b q r in ground (arith, slot-install m b q c p);
    apart = λ b d q t r h k.
        let old = v.apart b d q t r in
        let before = v.older b q r in
        let before' = v.older d t r in
        ground
          (arith, slot-install m b q c p, slot-install m d t c p, eq_iff c.name q, eq_iff c.name t);
  }

  pub reload-IsApart :
      (m : ModuleManager Plugin) (c : ModuleConfig) (p : Plugin)
      → IsApart m
      → IsApart (install (save_previous m c.name) c p)
  unfolding install save_previous
  reload-IsApart m c p v = record {
    older = λ b q r h.
        let old = v.older b q r in
        let moved = v.older true q r in ground (arith, slot-reload m b q c p);
    apart = λ b d q t r h k.
        let old = v.apart b d q t r in
        let moved = v.apart true d q t r in
        let moved_too = v.apart b true q t r in
        let both = v.apart true true q t r in
        let first = v.older b q r in
        let second = v.older d t r in
        let third = v.older true q r in
        let fourth = v.older true t r in
        ground
          (arith, slot-reload m b q c p, slot-reload m d t c p, eq_iff c.name q, eq_iff c.name t);
  }

  pub rollback-IsApart :
      (m : ModuleManager Plugin) (name : String) → IsApart m → IsApart (rollback m name)
  unfolding rollback
  rollback-IsApart m name v = elim (Option-cases (find name m.previous_modules)) [
    | inl e ↦ let same : rollback m name ≡ m = rw (e, rollback) refl in subst IsApart (sym same) v
    | inr (r₀, e) ↦ record {
      older = λ b q r h.
          let old = v.older b q r in
          let saved = v.older false name r in ground (arith, slot-rollback m b q name r₀ e);
      apart = λ b d q t r h k.
          let old = v.apart b d q t r in
          let saved = v.apart false d name t r in
          let saved_too = v.apart b false q name r in
          ground (
            arith,
            slot-rollback m b q name r₀ e,
            slot-rollback m d t name r₀ e,
            eq_iff name q,
            eq_iff name t,
          );
    }
  ]

  module _ {World : Type 0} (api : IPlugin World Plugin) (world : String → World) where
    pub slot-unload :
        (m : ModuleManager Plugin) (b : Bool) (q name : String)
        → slot (unload api world m name) b q ≡ (if name == q then none else slot m b q)
    unfolding unload unload_module
    slot-unload m b q name = elim (Option-cases (find name m.modules)) [
      | inl e ↦ ground (arith, find-erase name q m.previous_modules, eq_iff name q)
      | inr (r, e) ↦
          ground (
            arith,
            find-erase name q m.modules,
            find-erase name q m.previous_modules,
            eq_iff name q,
          )
    ]

    pub next_ref-unload :
        (m : ModuleManager Plugin) (name : String) → (unload api world m name).next_ref ≡ m.next_ref
    unfolding unload unload_module
    next_ref-unload m name = ground arith

    pub unload-IsApart :
        (m : ModuleManager Plugin) (name : String) → IsApart m → IsApart (unload api world m name)
    unload-IsApart m name v = record {
      older = λ b q r h.
          let old = v.older b q r in ground (arith, slot-unload m b q name, next_ref-unload m name);
      apart = λ b d q t r h k.
          let old = v.apart b d q t r in
          ground (arith, slot-unload m b q name, slot-unload m d t name);
    }
