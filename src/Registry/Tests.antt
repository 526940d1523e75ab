-- ===== src/Registry/Tests.antt =====
-- Runs of the registry with two processors.
use raider_worker.Event.Errors.{ok}
use raider_worker.Registry.{register, resolve, has, VersionKey, version_key, ok}
use raider_worker.Registry.Lookup.{resolve-register}
use raider_worker.Base.{
  Map, [], bool_eq, contains, false, if◌then◌else◌, insert, int_eq, list_eq, lookup, nat_eq, pos,
  refl, some, text, unit_eq, ℕ, ◌&&◌, ◌==◌, ◌∷◌, ◌≡◌,
}

abbrev one_registered : Map VersionKey ℕ
one_registered = (version_key (text "VISIT_APPROVED") (pos 1), 10) ∷ []

abbrev two_registered : Map VersionKey ℕ
two_registered =
    (version_key (text "VISIT_APPROVED") (pos 1), 10)
    ∷ (version_key (text "VISIT_APPROVED") (pos 2), 20)
    ∷ []

registers : register (text "VISIT_APPROVED") (pos 2) 20 one_registered ≡ some two_registered
unfolding register contains lookup insert
registers = refl

resolve-register_example :
    (has (text "VISIT_APPROVED") (pos 2) one_registered ≡ false)
    × (resolve (text "VISIT_APPROVED") (pos 1) two_registered ≡ (
        if (text "VISIT_APPROVED" == text "VISIT_APPROVED") && (pos 2 == pos 1)
        then ok 20
        else resolve (text "VISIT_APPROVED") (pos 1) one_registered))
resolve-register_example =
    resolve-register (text "VISIT_APPROVED") (text "VISIT_APPROVED") (pos 2) (pos 1) 20
      one_registered registers
