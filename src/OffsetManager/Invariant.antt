-- ===== src/OffsetManager/Invariant.antt =====
-- What holds of a partition between its calls: the cursor stands at the end of a run of done
-- offsets, and the count of records in flight is exact.
use raider_worker.Base.{
  ℤ, ◌≡◌, List, ◌+ℤ◌, add64, elem, ◌≤ℤ◌, pos, true, ◌∷◌, length, max_int64, Bool-cases, ◌<ℤ◌, arith,
  ◌⊎◌, false, contains, ◌+◌, ◌≤◌, ◌==◌, int_eq, negsuc, inl, [], inr, refl, lookup, bool_eq,
  list_eq, nat_eq, unit_eq,
}
use raider_worker.OffsetManager.Partition.{PartitionState, track_state}
use raider_worker.OffsetManager.Session.{View, remove_one, begin}

-- Strictly falling, from below `b`.
abbrev pub Below : ℤ → List ℤ → Type 0
Below b [] = Unit {0}
Below b (x ∷ xs) = (x <ℤ b) × Below x xs

-- The cursor against the offsets that are done.
pub record CursorInv (start : ℤ) (done : List ℤ) (st : PartitionState) : Type 0 where
  pub low : start ≤ℤ st.next_commit
  pub high : st.next_commit ≤ℤ max_int64
  pub passed : (o : ℤ) → start ≤ℤ o → o <ℤ st.next_commit → elem o done ≡ true
  pub pending : (o : ℤ) → contains o st.completed ≡ true → elem o done ≡ true
  pub handled :
      (o : ℤ) → elem o done ≡ true → (contains o st.completed ≡ true) ⊎ (o <ℤ st.next_commit)

-- The last commit is the offset before the cursor, or nothing has been passed yet.
abbrev pub Settled : ℤ → PartitionState → Type 0
Settled start st =
    (st.last_committed +ℤ pos 1 ≡ st.next_commit)
    ⊎ ((st.next_commit ≡ start) × (st.last_committed ≡ negsuc 0))

-- The records in flight against those that are done.
pub record WorkInv (start : ℤ) (v : View) : Type 0 where
  pub active : v.state.initialized ≡ true
  pub first : pos 0 ≤ℤ start
  pub grown : start ≤ℤ v.newest
  pub fits : v.newest <ℤ max_int64
  pub count : v.state.in_flight ≡ pos (length v.in_work)
  pub few : length v.in_work ≤ 0x7fffffffffffffff
  pub ordered : (b : ℤ) → v.newest <ℤ b → Below b v.in_work
  pub work_low : (o : ℤ) → elem o v.in_work ≡ true → start ≤ℤ o
  pub done_range : (o : ℤ) → elem o v.done ≡ true → (start ≤ℤ o) × (o ≤ℤ v.newest)
  pub apart : (o : ℤ) → elem o v.in_work ≡ true → elem o v.done ≡ false

pub record Inv (start : ℤ) (v : View) : Type 0 where
  pub work : WorkInv start v
  pub cursor : CursorInv start v.done v.state
  pub settled : Settled start v.state

pub elem-Below : (o b : ℤ) (xs : List ℤ) → Below b xs → elem o xs ≡ true → o <ℤ b
elem-Below o b [] h m = cc
elem-Below o b (x ∷ xs) h m = ground (arith, int_eq.beq_iff x o, elem-Below o x xs h.1)

pub Below-mono : (a b : ℤ) (xs : List ℤ) → a ≤ℤ b → Below a xs → Below b xs
Below-mono a b [] h p = tt
Below-mono a b (x ∷ xs) h p = (omega arith, p.1)

pub remove_one-Below : (o b : ℤ) (xs : List ℤ) → Below b xs → Below b (remove_one o xs)
unfolding remove_one
remove_one-Below o b [] h = tt
remove_one-Below o b (x ∷ xs) h = elim (Bool-cases (x == o)) [
  | inl same ↦ rw (same, remove_one) (Below-mono x b xs (omega arith) h.1)
  | inr other ↦ rw (other, remove_one) (h.0, remove_one-Below o x xs h.1)
]

pub elem-remove_one : (o p : ℤ) (xs : List ℤ) → elem p (remove_one o xs) ≡ true → elem p xs ≡ true
unfolding remove_one
elem-remove_one o p [] h = h
elem-remove_one o p (x ∷ xs) h = ground (arith, elem-remove_one o p xs)

pub elem-remove_one_self : (o b : ℤ) (xs : List ℤ) → Below b xs → elem o (remove_one o xs) ≡ false
unfolding remove_one
elem-remove_one_self o b [] h = refl
elem-remove_one_self o b (x ∷ xs) h =
    ground (arith, int_eq.beq_iff x o, elem-Below o x xs h.1, elem-remove_one_self o x xs h.1)

pub length-remove_one :
    (o : ℤ) (xs : List ℤ) → elem o xs ≡ true → length (remove_one o xs) + 1 ≡ length xs
unfolding remove_one
length-remove_one o [] h = cc
length-remove_one o (x ∷ xs) h = ground (arith, length-remove_one o xs)

pub begin-Inv :
    (start epoch : ℤ) → pos 0 ≤ℤ start → start <ℤ max_int64 → Inv start (begin start epoch)
unfolding track_state add64 contains lookup
begin-Inv start epoch low high = record {
  work = record {
    active = refl;
    first = low;
    grown = omega arith;
    fits = high;
    count = refl;
    few = omega arith;
    ordered = λ b h. (h, tt);
    work_low = λ o h. ground (arith, int_eq.beq_iff start o);
    done_range = λ o h. cc;
    apart = λ o h. refl;
  };
  cursor = record {
    low = ground arith;
    high = ground arith;
    passed = λ o a b. absurd (ground arith);
    pending = λ o h. cc;
    handled = λ o h. cc;
  };
  settled = inr (refl, refl);
}
