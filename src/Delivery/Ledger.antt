-- ===== src/Delivery/Ledger.antt =====
-- One partition of the worker: the session of its offsets, and what the worker holds of each.
use raider_worker.OffsetManager.Partition.{PartitionState}
use raider_worker.OffsetManager.Invariant.{Below}
use raider_worker.Base.{
  List, Option, [], arith, bool_eq, elem, if◌then◌else◌, inl, inr, int_eq, length, list_eq, nat_eq,
  negsuc, none, pos, refl, some, true, unit_eq, ℕ, ℤ, ◌+◌, ◌<◌, ◌==◌, ◌||◌, ◌∙◌, ◌∷◌, ◌≡◌, ◌≤ℤ◌,
  ◌≤◌, ◌⊎◌, ==_refl, count,
}
use raider_worker.OffsetManager.Session.{View, Session, remove_one}

pub count-elem : (o : ℤ) (xs : List ℤ) → 0 < count o xs → elem o xs ≡ true
unfolding count
count-elem o [] h = absurd (omega arith)
count-elem o (x ∷ xs) h = ground (arith, count-elem o xs)

pub count-remove_one :
    (o p : ℤ) (xs : List ℤ)
    → elem o xs ≡ true
    → count p xs ≡ (if o == p then 1 else 0) + count p (remove_one o xs)
unfolding count remove_one
count-remove_one o p [] h = absurd (cc)
count-remove_one o p (x ∷ xs) h = ground (arith, int_eq.beq_iff x o, count-remove_one o p xs)

count-above : (o b : ℤ) (xs : List ℤ) → Below b xs → b ≤ℤ o → count o xs ≡ 0
unfolding count
count-above o b [] h p = refl
count-above o b (x ∷ xs) h p = ground (arith, int_eq.beq_iff x o, count-above o x xs h.1)

pub count-le_one : (o b : ℤ) (xs : List ℤ) → Below b xs → count o xs ≤ 1
unfolding count
count-le_one o b [] h = omega arith
count-le_one o b (x ∷ xs) h =
    ground (arith, int_eq.beq_iff x o, count-le_one o x xs h.1, count-above o x xs h.1)

-- Offsets that fall from below `b` and are not negative are at most `b`.
pub length-Below :
    (b : ℕ) (xs : List ℤ)
    → Below (pos b) xs
    → ((o : ℤ) → elem o xs ≡ true → pos 0 ≤ℤ o)
    → length xs ≤ b
length-Below b [] h low = omega arith
length-Below b (negsuc n ∷ xs) h low =
    let l = low (negsuc n) (rw (==_refl (negsuc n)) refl) in absurd (omega (arith, l))
length-Below b (pos n ∷ xs) h low =
    omega (arith, h.0, length-Below n xs h.1 (λ o e. low o (ground arith)))

-- A partition of which nothing was fetched.
pub record Idle (st : Option PartitionState) (fetched : List ℤ) (copies : ℤ → ℕ) : Type 0 where
  pub no_state : st ≡ none
  pub nothing : fetched ≡ []
  pub no_copy : (o : ℤ) → copies o ≡ 0

-- A partition in session: the records in flight are those that the worker holds, and the records
-- that were fetched are in flight or done.
pub record Tracked (st : Option PartitionState) (fetched : List ℤ) (copies : ℤ → ℕ) : Type 0 where
  pub start : ℤ
  pub view : View
  pub session : Session start view
  pub found : st ≡ some view.state
  pub older : List ℤ
  pub newest : fetched ≡ view.newest ∷ older
  pub copy : (o : ℤ) → copies o ≡ count o view.in_work
  pub seen : (o : ℤ) → (elem o view.in_work || elem o view.done) ≡ elem o fetched
  pub first : elem start fetched ≡ true

abbrev pub Entry : Option PartitionState → List ℤ → (ℤ → ℕ) → Type 0
Entry st fetched copies = Idle st fetched copies ⊎ Tracked st fetched copies

pub Entry-same :
    {st : Option PartitionState} {fetched : List ℤ} (copies copies' : ℤ → ℕ)
    → ((o : ℤ) → copies' o ≡ copies o)
    → Entry st fetched copies
    → Entry st fetched copies'
Entry-same copies copies' same (inl e) =
    inl (record { no_state = e.no_state; nothing = e.nothing; no_copy = λ o. same o ∙ e.no_copy o })
Entry-same copies copies' same (inr e) = inr (record {
  start = e.start;
  view = e.view;
  session = e.session;
  found = e.found;
  older = e.older;
  newest = e.newest;
  copy = λ o. same o ∙ e.copy o;
  seen = e.seen;
  first = e.first;
})
