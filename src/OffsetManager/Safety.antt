-- ===== src/OffsetManager/Safety.antt =====
-- What a flush may commit, at any moment of a partition session.
use raider_worker.Base.{
  Bool-cases, List, Option, arith, bool_eq, contains, elem, eq_of_parts, false, inl, inr, int_eq,
  list_eq, nat_eq, pos, some, true, unit_eq, ℤ, ◌<ℤ◌, ◌≡◌, ◌≤ℤ◌, ◌⊎◌, +ℤ_parts, ◌+ℤ◌,
}
use raider_worker.OffsetManager.Partition.{PartitionState, committable_offset}
use raider_worker.OffsetManager.Session.{View}
use raider_worker.OffsetManager.Session.{Session}
use raider_worker.OffsetManager.Invariant.{Inv, begin-Inv}
use raider_worker.OffsetManager.Flush.{Flushed, Outcome, committable-Flushed}
use raider_worker.OffsetManager.Preservation.{WorkInv-Bounded, Reach-Inv}

-- The first offset from `start` on that is not done: the specification of the cursor.
pub record IsFrontier (start : ℤ) (done : List ℤ) (n : ℤ) : Type 0 where
  pub low : start ≤ℤ n
  pub run : (o : ℤ) → start ≤ℤ o → o <ℤ n → elem o done ≡ true
  pub stop : elem n done ≡ false

-- There is one frontier at most.
pub IsFrontier-unique :
    {start : ℤ} {done : List ℤ} (m n : ℤ)
    → IsFrontier start done m
    → IsFrontier start done n
    → m ≡ n
IsFrontier-unique m n f g =
    eq_of_parts m n (ground (arith, f.run n g.low, g.run m f.low, f.stop, g.stop))

pub flush-Flushed :
    {start : ℤ} {v : View} → Inv start v → Flushed start v.done v.state (committable_offset v.state)
flush-Flushed {v} inv =
    committable-Flushed (WorkInv-Bounded inv.work) v.state inv.settled inv.cursor

pub Flushed-IsFrontier :
    {start : ℤ} {done : List ℤ} {st : PartitionState} {r : PartitionState × Option (ℤ × ℤ)}
    → Flushed start done st r
    → IsFrontier start done r.0.next_commit
Flushed-IsFrontier {start} {done} {st} {r} f = record {
  low = f.cursor.low;
  run = f.cursor.passed;
  stop = elim (Bool-cases (elem r.0.next_commit done)) [
    | inl old ↦ absurd (not_passed (f.cursor.handled r.0.next_commit old))
    | inr fresh ↦ fresh
  ];
}
  where
    not_passed :
        ¬ ((contains r.0.next_commit r.0.completed ≡ true) ⊎ (r.0.next_commit <ℤ r.0.next_commit))
    not_passed (inl hit) = let s = f.stuck in cc
    not_passed (inr lt) = omega (arith, lt)

pub Session-Inv : {start : ℤ} {v : View} → Session start v → Inv start v
Session-Inv {start} s = Reach-Inv (begin-Inv start s.epoch s.low s.high) s.reach

-- What a flush that commits has committed: the offset before the cursor, above the last commit.
pub commit_value :
    {st : PartitionState} {r : PartitionState × Option (ℤ × ℤ)} {c e : ℤ}
    → Outcome st r
    → r.1 ≡ some (c, e)
    → (r.0.last_committed ≡ c) × (c +ℤ pos 1 ≡ r.0.next_commit) × (st.last_committed <ℤ c)
commit_value {st} {r} {c} (inl (f, n, up, _)) h =
    let same : r.0.last_committed ≡ c = cc in (same, rw (← same) n, rw (← same) up)
commit_value (inr (f, _)) h = cc

module _ {start : ℤ} {v : View} (s : Session start v) where
  -- A flush commits no offset at or past one that is in flight or still to come: every offset of
  -- the session up to the committed one is done, and every record in flight lies above it.
  pub commit_safe :
      (c e : ℤ)
      → (committable_offset v.state).1 ≡ some (c, e)
      → ((o : ℤ) → start ≤ℤ o → o ≤ℤ c → elem o v.done ≡ true)
        × ((o : ℤ) → elem o v.in_work ≡ true → c <ℤ o)
  commit_safe c e h = (covered, above)
    where
      inv : Inv start v
      inv = Session-Inv s

      f : Flushed start v.done v.state (committable_offset v.state)
      f = flush-Flushed inv

      n : c +ℤ pos 1 ≡ (committable_offset v.state).0.next_commit
      n = (commit_value f.outcome h).1

      covered : (o : ℤ) → start ≤ℤ o → o ≤ℤ c → elem o v.done ≡ true
      covered o p q = f.cursor.passed o p (rw (← n) (omega (arith, q, +ℤ_parts c (pos 1))))

      above : (o : ℤ) → elem o v.in_work ≡ true → c <ℤ o
      above o w =
          let old = covered o (inv.work.work_low o w) in
          let fresh = inv.work.apart o w in ground arith

  -- After a flush the cursor stands exactly at the first offset that is not done.
  pub flush-IsFrontier : IsFrontier start v.done (committable_offset v.state).0.next_commit
  flush-IsFrontier = Flushed-IsFrontier (flush-Flushed (Session-Inv s))
