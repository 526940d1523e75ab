-- ===== src/Registry/Lookup.antt =====
-- `Resolve` and `Has` after `Register`.
use mathlib.Core.Option.{some-injective}
use raider_worker.Event.Errors.{err, ok, unknown_event_type}
use raider_worker.Base.{
  Map, Text, bool_eq, contains, false, if◌then◌else◌, int_eq, list_eq, nat_eq, none, some, true,
  unit_eq, ℤ, ◌&&◌, ◌==◌, ◌↔◌, ◌≡◌, Bool, Bool-cases, Option, ap, if_false, if_true, inl, inr,
  insert, is_some, lookup, lookup-insert, refl, sym, ◌∙◌,
}
use raider_worker.Registry.{
  VersionKey, version_key_eq, register, resolve, has, or_unknown, ok, err, version_key,
}

module _ {ℓ} {P : Type ℓ} where
  -- A registration that does not panic takes a free key: there `Resolve` finds the processor from
  -- then on, and at every other type and version it answers as before.
  pub resolve-register :
      (t u : Text) (v w : ℤ) (p : P) (m : Map VersionKey P) {m' : Map VersionKey P}
      → register t v p m ≡ some m'
      → (has t v m ≡ false)
        × (resolve u w m' ≡ (if (t == u) && (v == w) then ok p else resolve u w m))
  unfolding register resolve has
  resolve-register t u v w p m {m'} h = elim (Bool-cases (contains (version_key t v) m)) [
    | inl taken ↦ absurd (
        cc (
          if_true {b = contains (version_key t v) m} none (some (insert (version_key t v) p m))
            taken))
    | inr free ↦
        let same : insert (version_key t v) p m ≡ m' =
          some-injective _ _ (sym (if_false _ _ free) ∙ h) in
        (
          free,
          rw (← same) (
              ap (or_unknown u w) (lookup-insert (version_key t v) (version_key u w) p m)
              ∙ choose ((t == u) && (v == w))),
        )
  ]
    where
      choose :
          (b : Bool)
          → or_unknown u w (if b then some p else lookup (version_key u w) m)
            ≡ (if b then ok p else or_unknown u w (lookup (version_key u w) m))
      choose true = refl
      choose false = refl

  -- A second registration of a type and version panics, and `Resolve` fails exactly where `Has` is
  -- false, with an error of an unknown event type.
  pub register_taken :
      (t : Text) (v : ℤ) (p : P) (m : Map VersionKey P)
      → ((register t v p m ≡ none) ↔ (has t v m ≡ true))
        × ((has t v m ≡ false)
            ↔ ((reason : Text) × (resolve t v m ≡ err (unknown_event_type reason))))
  unfolding register resolve has contains
  register_taken t v p m = found (lookup (version_key t v) m)
    where
      found :
          (o : Option P)
          → (((if is_some o then none else some (insert (version_key t v) p m)) ≡ none)
              ↔ (is_some o ≡ true))
            × ((is_some o ≡ false)
                ↔ ((reason : Text) × (or_unknown t v o ≡ err (unknown_event_type reason))))
      found none = ((λ h. absurd (cc), λ h. absurd (cc)), (λ _. (_, refl), λ _. refl))
      found (some q) = ((λ _. refl, λ _. refl), (λ h. absurd (cc), λ f. absurd (cc f.1)))
