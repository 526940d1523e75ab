-- ===== src/Base/GoMap.antt =====
-- Go maps as association lists. A write keeps a key's place, and a new key goes to the end; Go
-- leaves the order of iteration open, and no theorem depends on it.
use Prim.Native.Nat.{◌<◌, ◌≤◌}
use mathlib.Core.Path.{◌≡◌, refl}
use mathlib.Core.Bool.{Bool, true, false, not, ◌&&◌, ◌||◌}
use mathlib.Core.Option.{Option, none, some}
use mathlib.Core.Option
use mathlib.Core.List.{List, [], ◌∷◌}
use native.Mathlib.Omega.{arith}
use raider_worker.Base.Tests.{if◌then◌else◌, is_some}
use raider_worker.Base.Lists.{length}
use raider_worker.Base.Equality.{Eq, ◌==◌, ==_refl}

abbrev pub Map {κ ℓ} : Type κ → Type ℓ → Type (κ ⊔ ℓ)
Map K V = List (K × V)

module _ {κ ℓ} {K : Type κ} {V : Type ℓ} ⦃e : Eq K⦄ where
  -- v, ok := m[k]
  unfoldable pub lookup : K → Map K V → Option V
  lookup k [] = none
  lookup k ((j, v) ∷ m) = if j == k then some v else lookup k m

  -- m[k] = v
  unfoldable pub insert : K → V → Map K V → Map K V
  insert k v [] = (k, v) ∷ []
  insert k v (entry ∷ rest) = if entry.0 == k then (k, v) ∷ rest else entry ∷ insert k v rest

  -- delete(m, k)
  unfoldable pub delete : K → Map K V → Map K V
  delete k [] = []
  delete k ((j, w) ∷ m) = let rest = delete k m in if j == k then rest else (j, w) ∷ rest

  -- _, ok := m[k]
  unfoldable pub contains : K → Map K V → Bool
  unfolding lookup
  contains k m = is_some (lookup k m)

  pub lookup-insert :
      (key asked : K) (v : V) (m : Map K V)
      → lookup asked (insert key v m) ≡ (if key == asked then some v else lookup asked m)
  unfolding lookup insert
  lookup-insert key asked v [] = refl
  lookup-insert key asked v ((i, w) ∷ rest) = ground (
    arith,
    e.beq_iff key asked,
    e.beq_iff i key,
    e.beq_iff i asked,
    lookup-insert key asked v rest,
  )

  pub lookup-delete :
      (k j : K) (m : Map K V) → lookup j (delete k m) ≡ (if k == j then none else lookup j m)
  unfolding lookup delete
  lookup-delete k j [] = ground arith
  lookup-delete k j ((i, w) ∷ m) =
      ground (arith, e.beq_iff k j, e.beq_iff i k, e.beq_iff i j, lookup-delete k j m)

  pub lookup-insert_self : (k : K) (v : V) (m : Map K V) → lookup k (insert k v m) ≡ some v
  lookup-insert_self k v m = ground (arith, lookup-insert k k v m, ==_refl k)

  pub lookup-delete_self : (k : K) (m : Map K V) → lookup k (delete k m) ≡ none
  lookup-delete_self k m = ground (arith, lookup-delete k k m, ==_refl k)

  pub contains-insert :
      (k j : K) (v : V) (m : Map K V) → contains j (insert k v m) ≡ ((k == j) || contains j m)
  unfolding contains
  contains-insert k j v m = ground (arith, lookup-insert k j v m)

  pub contains-delete :
      (k j : K) (m : Map K V) → contains j (delete k m) ≡ (not (k == j) && contains j m)
  unfolding contains
  contains-delete k j m = ground (arith, lookup-delete k j m)

  length-delete-le : (k : K) (m : Map K V) → length (delete k m) ≤ length m
  unfolding delete
  length-delete-le k [] = omega arith
  length-delete-le k ((j, w) ∷ m) = ground (arith, length-delete-le k m)

  -- Deleting a key that is there makes the map smaller.
  pub length-delete-lt :
      (k : K) (m : Map K V) → contains k m ≡ true → length (delete k m) < length m
  unfolding contains lookup delete
  length-delete-lt k [] h = cc
  length-delete-lt k ((j, w) ∷ m) h = ground (arith, length-delete-le k m, length-delete-lt k m)

module _ {κ ℓ} {K : Type κ} {V : Type ℓ} ⦃e : Eq K⦄ where
  pub contains-eq-false : (k : K) (m : Map K V) → length m ≤ 0 → contains k m ≡ false
  unfolding contains lookup
  contains-eq-false k [] h = refl
  contains-eq-false k (kv ∷ m) h = absurd (omega arith)

-- One pass over a map that gives each value anew: `for k, v := range m { m[k] = f(k, v) }`.
unfoldable pub remap {κ ℓ μ} :
    {K : Type κ} {V : Type ℓ} {W : Type μ} → (K → V → W) → Map K V → Map K W
remap f [] = []
remap f ((k, v) ∷ m) = (k, f k v) ∷ remap f m

pub lookup-remap {κ ℓ μ} :
    {K : Type κ} {V : Type ℓ} {W : Type μ} ⦃e : Eq K⦄ (f : K → V → W) (k : K) (m : Map K V)
    → lookup k (remap f m) ≡ Option.map (f k) (lookup k m)
unfolding lookup remap
lookup-remap f k [] = refl
lookup-remap ⦃e⦄ f k ((j, v) ∷ m) = ground (arith, e.beq_iff j k, lookup-remap f k m)

-- Each key has one entry, as in every Go map.
abbrev pub IsKeyed {κ ℓ} : {K : Type κ} {V : Type ℓ} ⦃e : Eq K⦄ → Map K V → Type 0
IsKeyed [] = Unit
IsKeyed ((k, v) ∷ m) = (contains k m ≡ false) × IsKeyed m

module _ {κ ℓ} {K : Type κ} {V : Type ℓ} ⦃e : Eq K⦄ where
  pub insert-IsKeyed : (k : K) (v : V) (m : Map K V) → IsKeyed m → IsKeyed (insert k v m)
  unfolding insert contains lookup
  insert-IsKeyed k v [] h = (refl, tt)
  insert-IsKeyed k v ((j, w) ∷ m) h =
      ground (arith, e.beq_iff j k, e.beq_iff k j, lookup-insert k j v m, insert-IsKeyed k v m h.1)

  pub delete-IsKeyed : (k : K) (m : Map K V) → IsKeyed m → IsKeyed (delete k m)
  unfolding delete contains
  delete-IsKeyed k [] h = tt
  delete-IsKeyed k ((j, w) ∷ m) h = ground (arith, lookup-delete k j m, delete-IsKeyed k m h.1)

pub ruleset map_laws = (lookup-insert, lookup-delete, lookup-remap)
