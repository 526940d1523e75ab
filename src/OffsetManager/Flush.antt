-- ===== src/OffsetManager/Flush.antt =====
-- `committableOffset` as a whole, on a partition whose cursor is right.
use raider_worker.Base.{
  +ℤ_parts, -ℤ_parts, Bool, List, Option, ap, arith, bool_eq, contains, false, inl, inr, int_eq,
  int_laws, list_eq, max_int64, nat_eq, neg_part, none, pos, pos_part, refl, some, sub64, sub64-eq,
  true, unit_eq, ℤ, ◌+ℤ◌, ◌-ℤ◌, ◌<ℤ◌, ◌≡◌, ◌≤ℤ◌, ◌⊎◌, leb_ℤ-false, length,
}
use raider_worker.OffsetManager.Partition.{PartitionState, advance, settle, committable_offset}
use raider_worker.OffsetManager.Invariant.{CursorInv, Settled}
use raider_worker.OffsetManager.Cursor.{Bounded, Stopped, advance-Stopped}

-- A commit of the offset before the new cursor, above the last one, or no change at all.
abbrev pub Outcome : PartitionState → PartitionState × Option (ℤ × ℤ) → Type 0
Outcome st r =
    ((r.1 ≡ some (r.0.last_committed, r.0.epoch))
      × (r.0.last_committed +ℤ pos 1 ≡ r.0.next_commit)
      × (st.last_committed <ℤ r.0.last_committed)
      × (st.next_commit <ℤ r.0.next_commit))
    ⊎ ((r.1 ≡ none) × (r.0 ≡ st))

pub record Flushed (start : ℤ) (done : List ℤ) (st : PartitionState)
    (r : PartitionState × Option (ℤ × ℤ)) : Type 0 where
  pub cursor : CursorInv start done r.0
  pub stuck : contains r.0.next_commit r.0.completed ≡ false
  pub same_count : r.0.in_flight ≡ st.in_flight
  pub same_active : r.0.initialized ≡ st.initialized
  pub same_epoch : r.0.epoch ≡ st.epoch
  pub outcome : Outcome st r

sub64-one : (n : ℤ) → pos 0 ≤ℤ n → n ≤ℤ max_int64 → sub64 n (pos 1) ≡ n -ℤ pos 1
sub64-one n low high =
    sub64-eq n (pos 1) (omega (arith, -ℤ_parts n (pos 1)), omega (arith, -ℤ_parts n (pos 1)))

sub-add : (n : ℤ) → n -ℤ pos 1 +ℤ pos 1 ≡ n
sub-add n = omega int_laws

-- Before the cursor moves, the last commit is below it.
last_below :
    (start : ℤ) (st : PartitionState)
    → pos 0 ≤ℤ start
    → Settled start st
    → st.last_committed <ℤ st.next_commit
last_below start st first (inl e) =
    omega (arith, ap pos_part e, ap neg_part e, +ℤ_parts st.last_committed (pos 1))
last_below start st first (inr (e, l)) = rw (e, l) (omega arith)

module _ {start : ℤ} {done : List ℤ} (b : Bounded start done) (st : PartitionState) where
  rose :
      {st' : PartitionState}
      → ((true ≡ true) × (st.next_commit <ℤ st'.next_commit)) ⊎ ((st' ≡ st) × (true ≡ false))
      → st.next_commit <ℤ st'.next_commit
  rose (inl (_, up)) = up
  rose (inr (_, f)) = cc

  settle-Flushed :
      (r : PartitionState × Bool)
      → Settled start st
      → Stopped start done st false r
      → Flushed start done st (settle r)
  unfolding settle
  settle-Flushed (st', false) s p = record {
    cursor = p.cursor;
    stuck = p.stuck;
    same_count = p.same_count;
    same_active = p.same_active;
    same_epoch = p.same_epoch;
    outcome = inr (refl, unmoved p.moved);
  }
    where
      unmoved :
          ((false ≡ true) × (st.next_commit <ℤ st'.next_commit)) ⊎ ((st' ≡ st) × (false ≡ false))
          → st' ≡ st
      unmoved (inl (f, _)) = cc
      unmoved (inr (e, _)) = e
  settle-Flushed (st', true) s p = rw (leb_ℤ-false _ _ fresh) (record {
    cursor = record {
      low = p.cursor.low;
      high = p.cursor.high;
      passed = p.cursor.passed;
      pending = p.cursor.pending;
      handled = p.cursor.handled;
    };
    stuck = p.stuck;
    same_count = p.same_count;
    same_active = p.same_active;
    same_epoch = p.same_epoch;
    outcome = inl (refl, rw e (sub-add st'.next_commit), rw (← p.same_last) fresh, up);
  })
    where
      up : st.next_commit <ℤ st'.next_commit
      up = rose p.moved

      low : pos 0 ≤ℤ st'.next_commit
      low = let first = b.first in let l = p.cursor.low in omega arith

      e : sub64 st'.next_commit (pos 1) ≡ st'.next_commit -ℤ pos 1
      e = sub64-one st'.next_commit low p.cursor.high

      fresh : st'.last_committed <ℤ sub64 st'.next_commit (pos 1)
      fresh =
          rw (p.same_last, e)
            (omega (arith, up, last_below start st b.first s, -ℤ_parts st'.next_commit (pos 1)))

  pub committable-Flushed :
      Settled start st → CursorInv start done st → Flushed start done st (committable_offset st)
  unfolding committable_offset
  committable-Flushed s c =
      settle-Flushed (advance (length st.completed) st false) s
        (advance-Stopped b (length st.completed) st false (omega arith) c)
