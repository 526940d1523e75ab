-- ===== src/OffsetManager/Progress.antt =====
-- What flushes do over time: commits grow, finished work is committed, and a gap holds all back.
use raider_worker.Base.{
  [], arith, bool_eq, elem, false, inl, inr, int_eq, list_eq, nat_eq, some, true, unit_eq, ℤ, ◌<ℤ◌,
  ◌||◌, ◌≡◌, ◌≤ℤ◌, +ℤ_parts, -ℤ_parts, Bool-cases, ap, eq_of_parts, ltb_ℤ, ltb_ℤ_iff, neg_part, pos,
  pos_part, ◌-ℤ◌,
}
use raider_worker.OffsetManager.Partition.{
  PartitionState, mark_complete, track_state, committable_offset,
}
use raider_worker.OffsetManager.Session.{
  View, Session, Step, tracks, completes, flushes, drains, Reach, here, later, extend,
}
use raider_worker.OffsetManager.Invariant.{Inv, Settled, elem-remove_one}
use raider_worker.OffsetManager.Flush.{Outcome}
use raider_worker.OffsetManager.Preservation.{Step-Inv, Reach-Inv}
use raider_worker.OffsetManager.Safety.{
  IsFrontier, flush-IsFrontier, commit_safe, Session-Inv, flush-Flushed, commit_value,
}

abbrev pub flushed : View → View
flushed v = record v { state = (committable_offset v.state).0 }

track-last :
    (o e : ℤ) (st : PartitionState) → (track_state o e st).last_committed ≡ st.last_committed
unfolding track_state
track-last o e st = ground arith

flush_last :
    {start : ℤ} {v : View}
    → Inv start v
    → v.state.last_committed ≤ℤ (flushed v).state.last_committed
flush_last {start} {v} inv = go (flush-Flushed inv).outcome
  where
    go :
        Outcome v.state (committable_offset v.state)
        → v.state.last_committed ≤ℤ (flushed v).state.last_committed
    go (inl (_, _, up, _)) = omega (arith, up)
    go (inr (_, e)) = rw e (omega arith)

Step-last :
    {start : ℤ} {v w : View}
    → Inv start v
    → Step v w
    → v.state.last_committed ≤ℤ w.state.last_committed
unfolding mark_complete
Step-last {v} inv (tracks o epoch up fits few) = rw (track-last o epoch v.state) (omega arith)
Step-last inv (completes o hit) = omega arith
Step-last inv flushes = flush_last inv
Step-last inv (drains ch) = omega arith

Reach-last :
    {start : ℤ} {v w : View}
    → Inv start v
    → Reach v w
    → v.state.last_committed ≤ℤ w.state.last_committed
Reach-last inv here = omega arith
Reach-last inv (later r s) = omega (arith, Reach-last inv r, Step-last (Reach-Inv inv r) s)

-- An offset that the session has gone past without tracking it.
pub record Skipped (start : ℤ) (v : View) (g : ℤ) : Type 0 where
  pub after : start ≤ℤ g
  pub before : g <ℤ v.newest
  pub no_work : elem g v.in_work ≡ false
  pub not_done : elem g v.done ≡ false

Step-Skipped : {start g : ℤ} {v w : View} → Step v w → Skipped start v g → Skipped start w g
Step-Skipped {g = g} (tracks o epoch up fits few) k = record {
  after = k.after;
  before = let b = k.before in omega arith;
  no_work = ground (arith, k.no_work, k.before, int_eq.beq_iff o g);
  not_done = k.not_done;
}
Step-Skipped {g = g} {v = v} (completes o hit) k = record {
  after = k.after;
  before = k.before;
  no_work = ground (arith, elem-remove_one o g v.in_work, k.no_work);
  not_done = ground (arith, int_eq.beq_iff o g, hit, k.no_work);
}
Step-Skipped flushes k = record {
  after = k.after;
  before = k.before;
  no_work = k.no_work;
  not_done = k.not_done;
}
Step-Skipped (drains ch) k = record {
  after = k.after;
  before = k.before;
  no_work = k.no_work;
  not_done = k.not_done;
}

Reach-Skipped : {start g : ℤ} {v w : View} → Skipped start v g → Reach v w → Skipped start w g
Reach-Skipped k here = k
Reach-Skipped k (later r s) = Step-Skipped s (Reach-Skipped k r)

module _ {start : ℤ} {v : View} (s : Session start v) where
  -- Each commit of a session is above every commit before it.
  pub commits_increase :
      {w : View} (c e d f : ℤ)
      → (committable_offset v.state).1 ≡ some (c, e)
      → Reach (flushed v) w
      → (committable_offset w.state).1 ≡ some (d, f)
      → c <ℤ d
  commits_increase {w} c e d f h r k = omega (arith, up, kept)
    where
      inv : Inv start (flushed v)
      inv = Step-Inv flushes (Session-Inv s)

      last : (flushed v).state.last_committed ≡ c
      last = (commit_value (flush-Flushed (Session-Inv s)).outcome h).0

      kept : c ≤ℤ w.state.last_committed
      kept = rw (← last) (Reach-last inv r)

      up : w.state.last_committed <ℤ d
      up = (commit_value (flush-Flushed (Reach-Inv inv r)).outcome k).2

  -- With every offset up to the newest tracked and nothing in flight, a flush leaves the newest
  -- offset as the last commit.
  pub drained_commit :
      v.in_work ≡ []
      → ((o : ℤ) → start ≤ℤ o → o ≤ℤ v.newest → (elem o v.in_work || elem o v.done) ≡ true)
      → (flushed v).state.last_committed ≡ v.newest
  drained_commit idle dense = at_newest inv.settled
    where
      inv : Inv start (flushed v)
      inv = Step-Inv flushes (Session-Inv s)

      n : ℤ
      n = (flushed v).state.next_commit

      f : IsFrontier start v.done n
      f = flush-IsFrontier s

      done : (o : ℤ) → start ≤ℤ o → o ≤ℤ v.newest → elem o v.done ≡ true
      done o p q = rw idle at (dense o p q)

      past : v.newest <ℤ n
      past = elim (Bool-cases (ltb_ℤ v.newest n)) [
        | inl beyond ↦ (ltb_ℤ_iff v.newest n).0 beyond
        | inr short ↦ let old = done n f.low (ground arith) in let fresh = f.stop in absurd (cc)
      ]

      prior : (n -ℤ pos 1) ≤ℤ v.newest
      prior =
          let grown = inv.work.grown in
          (inv.work.done_range (n -ℤ pos 1) (
            f.run (n -ℤ pos 1) (omega (arith, past, grown, -ℤ_parts n (pos 1)))
              (omega (arith, -ℤ_parts n (pos 1))))).1

      at_newest : Settled start (flushed v).state → (flushed v).state.last_committed ≡ v.newest
      at_newest (inl e) = eq_of_parts _ _ (
          omega (
            arith,
            past,
            prior,
            ap pos_part e,
            ap neg_part e,
            -ℤ_parts n (pos 1),
            +ℤ_parts (flushed v).state.last_committed (pos 1),
          ))
      at_newest (inr (e, _)) =
          let grown = inv.work.grown in
          absurd (omega (arith, past, grown, ap pos_part e, ap neg_part e))

  -- A gap in the offsets, once passed, keeps every later commit of the session below it.
  pub gap_stalls :
      {w : View} (g c e : ℤ)
      → Skipped start v g
      → Reach v w
      → (committable_offset w.state).1 ≡ some (c, e)
      → c <ℤ g
  gap_stalls {w} g c e k r h = elim (Bool-cases (ltb_ℤ c g)) [
    | inl below ↦ (ltb_ℤ_iff c g).0 below
    | inr above ↦
        let old = (commit_safe (extend s r) c e h).0 g k.after (ground arith) in
        let missing = (Reach-Skipped k r).not_done in cc
  ]
