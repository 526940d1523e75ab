-- ===== src/OffsetManager/Cursor.antt =====
-- The loop of `committableOffset`: it keeps the cursor's invariant, stops at the first offset that
-- is not completed, and touches no other field.
use raider_worker.Base.{
  +ℤ_parts, Bool, List, add64, add64-eq, arith, contains, elem, false, max_int64, pos, true, ℤ,
  ◌+ℤ◌, ◌<ℤ◌, ◌≡◌, ◌≤ℤ◌, ◌⊎◌, bool_eq, int_eq, list_eq, nat_eq, unit_eq, Bool-cases,
  contains-delete, inl, inr, length, lt_suc_cases, refl, suc, zero, ℕ, ◌==◌, ◌≤◌, ap,
  contains-eq-false, eq_of_==, length-delete-lt, neg_part, pos_part, ◌∙◌,
}
use raider_worker.OffsetManager.Partition.{PartitionState, bump, advance}
use raider_worker.OffsetManager.Invariant.{CursorInv}

-- The done offsets of a session, which bound the cursor.
pub record Bounded (start : ℤ) (done : List ℤ) : Type 0 where
  pub first : pos 0 ≤ℤ start
  pub below_max : (o : ℤ) → elem o done ≡ true → o <ℤ max_int64

pub add64-one : (n : ℤ) → pos 0 ≤ℤ n → n <ℤ max_int64 → add64 n (pos 1) ≡ n +ℤ pos 1
add64-one n low high =
    add64-eq n (pos 1) (omega (arith, +ℤ_parts n (pos 1)), omega (arith, +ℤ_parts n (pos 1)))

module _ {start : ℤ} {done : List ℤ} (b : Bounded start done) where
  bump-next :
      (st : PartitionState)
      → CursorInv start done st
      → contains st.next_commit st.completed ≡ true
      → (bump st).next_commit ≡ st.next_commit +ℤ pos 1
  unfolding bump
  bump-next st c hit =
      let low = c.low in
      let high = b.below_max st.next_commit (c.pending st.next_commit hit) in
      let first = b.first in add64-one st.next_commit (omega arith) high

  bump-CursorInv :
      (st : PartitionState)
      → CursorInv start done st
      → contains st.next_commit st.completed ≡ true
      → CursorInv start done (bump st)
  bump-CursorInv st c hit = record {
    low = rw e (omega (arith, c.low, +ℤ_parts st.next_commit (pos 1)));
    high = rw e (omega (arith, high, +ℤ_parts st.next_commit (pos 1)));
    passed = λ o p q. passed o p (lt_suc_cases o st.next_commit (rw e at q));
    pending = λ o p. c.pending o (kept o p);
    handled = λ o p. handled o (c.handled o p);
  }
    where
      high : st.next_commit <ℤ max_int64
      high = b.below_max st.next_commit (c.pending st.next_commit hit)

      e : (bump st).next_commit ≡ st.next_commit +ℤ pos 1
      e = bump-next st c hit

      passed :
          (o : ℤ) → start ≤ℤ o → (o <ℤ st.next_commit) ⊎ (o ≡ st.next_commit) → elem o done ≡ true
      passed o p (inl below) = c.passed o p below
      passed o p (inr here) = rw here (c.pending st.next_commit hit)

      kept : (o : ℤ) → contains o (bump st).completed ≡ true → contains o st.completed ≡ true
      kept o p = unfold bump in ground (arith, contains-delete st.next_commit o st.completed)

      here_lt : (o : ℤ) → st.next_commit ≡ o → o <ℤ st.next_commit +ℤ pos 1
      here_lt o p = omega (arith, ap pos_part p, ap neg_part p, +ℤ_parts st.next_commit (pos 1))

      handled :
          (o : ℤ)
          → (contains o st.completed ≡ true) ⊎ (o <ℤ st.next_commit)
          → (contains o (bump st).completed ≡ true) ⊎ (o <ℤ (bump st).next_commit)
      handled o (inl left) = elim (Bool-cases (st.next_commit == o)) [
        | inl here ↦ inr (rw e (here_lt o (eq_of_== st.next_commit o here)))
        | inr apart ↦
            inl (unfold bump in ground (arith, contains-delete st.next_commit o st.completed))
      ]
      handled o (inr below) = inr (rw e (omega (arith, below, +ℤ_parts st.next_commit (pos 1))))

-- What the loop returns, from `st` with the flag `advanced`.
pub record Stopped (start : ℤ) (done : List ℤ) (st : PartitionState) (advanced : Bool)
    (r : PartitionState × Bool) : Type 0 where
  pub cursor : CursorInv start done r.0
  pub moved : ((r.1 ≡ true) × (st.next_commit <ℤ r.0.next_commit)) ⊎ ((r.0 ≡ st) × (r.1 ≡ advanced))
  pub same_last : r.0.last_committed ≡ st.last_committed
  pub same_count : r.0.in_flight ≡ st.in_flight
  pub same_active : r.0.initialized ≡ st.initialized
  pub same_epoch : r.0.epoch ≡ st.epoch
  pub stuck : contains r.0.next_commit r.0.completed ≡ false

module _ {start : ℤ} {done : List ℤ} (b : Bounded start done) where
  after_bump :
      (st : PartitionState) (advanced : Bool) {r : PartitionState × Bool}
      → CursorInv start done st
      → contains st.next_commit st.completed ≡ true
      → Stopped start done (bump st) true r
      → Stopped start done st advanced r
  after_bump st advanced {r} c hit s = record {
    cursor = s.cursor;
    moved = inl (moved s.moved);
    same_last = s.same_last ∙ (unfold bump in refl);
    same_count = s.same_count ∙ (unfold bump in refl);
    same_active = s.same_active ∙ (unfold bump in refl);
    same_epoch = s.same_epoch ∙ (unfold bump in refl);
    stuck = s.stuck;
  }
    where
      e : (bump st).next_commit ≡ st.next_commit +ℤ pos 1
      e = bump-next b st c hit

      moved :
          ((r.1 ≡ true) × ((bump st).next_commit <ℤ r.0.next_commit))
            ⊎ ((r.0 ≡ bump st) × (r.1 ≡ true))
          → (r.1 ≡ true) × (st.next_commit <ℤ r.0.next_commit)
      moved (inl (f, up)) =
          (f, omega (arith, up, ap pos_part e, ap neg_part e, +ℤ_parts st.next_commit (pos 1)))
      moved (inr (same, f)) = (f, rw (same, e) (omega (arith, +ℤ_parts st.next_commit (pos 1))))

  shrinks :
      (st : PartitionState) {fuel : ℕ}
      → contains st.next_commit st.completed ≡ true
      → length st.completed ≤ suc fuel
      → length (bump st).completed ≤ fuel
  unfolding bump
  shrinks st hit h = omega (arith, length-delete-lt st.next_commit st.completed hit)

  pub advance-Stopped :
      (fuel : ℕ) (st : PartitionState) (advanced : Bool)
      → length st.completed ≤ fuel
      → CursorInv start done st
      → Stopped start done st advanced (advance fuel st advanced)
  unfolding advance
  advance-Stopped zero st advanced h c = record {
    cursor = c;
    moved = inr (refl, refl);
    same_last = refl;
    same_count = refl;
    same_active = refl;
    same_epoch = refl;
    stuck = contains-eq-false st.next_commit st.completed h;
  }
  advance-Stopped (suc fuel) st advanced h c =
      elim (Bool-cases (contains st.next_commit st.completed)) [
        | inl hit ↦ rw hit (
            after_bump st advanced c hit
              (advance-Stopped fuel (bump st) true (shrinks st hit h) (bump-CursorInv b st c hit)))
        | inr miss ↦ rw miss (record {
          cursor = c;
          moved = inr (refl, refl);
          same_last = refl;
          same_count = refl;
          same_active = refl;
          same_epoch = refl;
          stuck = miss;
        })
      ]
