-- ===== src/Registry.antt =====
-- internal/registry/registry.go: the processors by event type and version.
use raider_worker.Event.Errors.{Result, ok, err, unknown_event_type}
pub mod Lookup
mod Tests
use raider_worker.Base.{
  Bool, Eq, Map, Option, Text, [], arith, bool_eq, contains, decimal, if◌then◌else◌, insert,
  int_beq_iff, int_eq, list_beq_iff, list_eq, lookup, nat_eq, none, some, text, true, unit_eq, ℤ,
  ◌&&◌, ◌++◌, ◌==◌, ◌↔◌, ◌≡◌,
}

pub record VersionKey : Type 0 where
  pub event_type : Text
  pub version : ℤ

abbrev pub version_key : Text → ℤ → VersionKey
version_key t v = record { event_type = t; version = v }

abbrev pub version_key_beq : VersionKey → VersionKey → Bool
version_key_beq a b = (a.event_type == b.event_type) && (a.version == b.version)

pub version_key_beq_iff : (a b : VersionKey) → (version_key_beq a b ≡ true) ↔ (a ≡ b)
version_key_beq_iff a b = (
  λ h. ground (arith, list_beq_iff a.event_type b.event_type, int_beq_iff a.version b.version),
  λ h. ground (arith, list_beq_iff a.event_type b.event_type, int_beq_iff a.version b.version),
)

instance abbrev pub version_key_eq : Eq VersionKey
version_key_eq = record { beq = version_key_beq; beq_iff = version_key_beq_iff }

module _ {ℓ} {P : Type ℓ} where
  -- `New`.
  abbrev pub new : Map VersionKey P
  new = []

  -- `Register`: nothing where it panics, on a key that is taken.
  unfoldable pub register : Text → ℤ → P → Map VersionKey P → Option (Map VersionKey P)
  register event_type version p processors =
      let k = version_key event_type version in
      if contains k processors then none else some (insert k p processors)

  abbrev pub or_unknown : Text → ℤ → Option P → Result P
  or_unknown event_type version (some p) = ok p
  or_unknown event_type version none =
      err (unknown_event_type (event_type ++ (text " v" ++ decimal version)))

  -- `Resolve`.
  unfoldable pub resolve : Text → ℤ → Map VersionKey P → Result P
  resolve event_type version processors =
      or_unknown event_type version (lookup (version_key event_type version) processors)

  -- `Has`.
  unfoldable pub has : Text → ℤ → Map VersionKey P → Bool
  has event_type version processors = contains (version_key event_type version) processors
