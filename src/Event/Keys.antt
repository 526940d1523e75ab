-- ===== src/Event/Keys.antt =====
-- What an affinity key stands for: the tenant and the case of an event.
use raider_worker.Base.{
  ==_refl, Text, [], arith, bool_eq, elem, false, int_eq, list_eq, nat_eq, refl, true, unit_eq, ℕ,
  ◌++◌, ◌∷◌, ◌≡◌, ap, if◌then◌else◌, is_empty, text, ◌↔◌, ◌∙◌,
}
use raider_worker.Event.Affinity.{affinity_key, extract_case_id}
use raider_worker.Event.Types.{Event}

-- The byte ":".
abbrev pub colon : ℕ
colon = 58

colon_inside : (t c : Text) → elem colon (t ++ colon ∷ c) ≡ true
colon_inside [] c = ground (arith, ==_refl colon)
colon_inside (x ∷ t) c = ground (arith, colon_inside t c)

-- The first colon splits a text in one way.
split_once :
    (t u c d : Text)
    → elem colon t ≡ false
    → elem colon u ≡ false
    → t ++ colon ∷ c ≡ u ++ colon ∷ d
    → (t ≡ u) × (c ≡ d)
split_once [] [] c d ht hu e = (refl, cc)
split_once [] (x ∷ u) c d ht hu e =
    let first : colon ≡ x = cc in absurd (ground (arith, hu, first, nat_eq.beq_iff x colon))
split_once (x ∷ t) [] c d ht hu e =
    let first : x ≡ colon = cc in absurd (ground (arith, ht, first, nat_eq.beq_iff x colon))
split_once (x ∷ t) (y ∷ u) c d ht hu e =
    let first : x ≡ y = cc in
    let later : t ++ colon ∷ c ≡ u ++ colon ∷ d = cc in
    let rest = split_once t u c d (ground (arith, ht)) (ground (arith, hu)) later in
    (rw (first, rest.0) refl, rest.1)

-- The key of a tenant and a case.
key_of : Text → Text → Text
key_of tenant case_id = if is_empty case_id then tenant else tenant ++ (text ":" ++ case_id)

key_of-injective :
    (t u c d : Text)
    → elem colon t ≡ false
    → elem colon u ≡ false
    → key_of t c ≡ key_of u d
    → (t ≡ u) × (c ≡ d)
unfolding key_of
key_of-injective t u [] [] ht hu e = (e, refl)
key_of-injective t u [] (y ∷ d) ht hu e =
    absurd (ground (arith, ht, ap (elem colon) e, colon_inside u (y ∷ d)))
key_of-injective t u (x ∷ c) [] ht hu e =
    absurd (ground (arith, hu, ap (elem colon) e, colon_inside t (x ∷ c)))
key_of-injective t u (x ∷ c) (y ∷ d) ht hu e = split_once t u (x ∷ c) (y ∷ d) ht hu e

-- Two events whose tenants have no ":" in their ids have the same affinity key exactly when they
-- have the same tenant and the same case, where an event without a readable case id has the empty
-- one.
pub affinity_key_exact :
    (e f : Event)
    → elem colon e.tenant_id ≡ false
    → elem colon f.tenant_id ≡ false
    → (affinity_key e ≡ affinity_key f)
      ↔ ((e.tenant_id ≡ f.tenant_id) × (extract_case_id e.payload ≡ extract_case_id f.payload))
unfolding affinity_key key_of
affinity_key_exact e f he hf = (
  key_of-injective e.tenant_id f.tenant_id (extract_case_id e.payload) (extract_case_id f.payload)
      he hf,
  λ same. ap (λ t. key_of t (extract_case_id e.payload)) same.0 ∙ ap (key_of f.tenant_id) same.1,
)
