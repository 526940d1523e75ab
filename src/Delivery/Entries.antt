-- ===== src/Delivery/Entries.antt =====
-- What the calls on one partition do to its entry.
use raider_worker.OffsetManager.Partition.{
  PartitionState, track_state, committable_offset, mark_complete,
}
use raider_worker.Base.{
  ==_refl, List, Option, [], arith, bool_eq, elem, if◌then◌else◌, inl, inr, int_eq, list_eq,
  max_int64, nat_eq, pos, refl, some, true, unit_eq, ℕ, ℤ, ◌+◌, ◌<ℤ◌, ◌==◌, ◌∷◌, ◌≡◌, ◌≤ℤ◌, length,
  negsuc, ◌<◌, ◌||◌, count,
}
use mathlib.Core.Option
use raider_worker.OffsetManager.Session.{
  View, Session, begin, remove_one, here, later, extend, tracks, completes, flushes, Step,
}
use raider_worker.OffsetManager.Refinement.{or_new}
use raider_worker.OffsetManager.Safety.{Session-Inv}
use raider_worker.Delivery.Worker.{Follows}
use raider_worker.Delivery.Ledger.{Idle, Tracked, Entry, count-elem, count-remove_one, length-Below}

abbrev pub one_at : ℤ → ℤ → ℕ
one_at o p = if o == p then 1 else 0

go_on : {start : ℤ} {v w : View} → Session start v → Step v w → Session start w
go_on s t = extend s (later here t)

-- Kafka's offsets leave room in the count of records in flight.
few_held :
    {start : ℤ} {v : View}
    → Session start v
    → (o : ℤ) → v.newest <ℤ o
    → o <ℤ max_int64
    → length v.in_work < 0x7fffffffffffffff
few_held s (negsuc n) up high =
    let work = (Session-Inv s).work in
    let first = work.first in let grown = work.grown in absurd (omega arith)
few_held {v = v} s (pos n) up high =
    let work = (Session-Inv s).work in
    let first = work.first in
    let fits =
      length-Below n v.in_work (work.ordered (pos n) up)
        (λ o h. let low = work.work_low o h in omega arith) in
    omega arith

elem-remove_one_iff :
    (o p : ℤ) (xs : List ℤ) → elem o xs ≡ true → elem p xs ≡ (elem p (remove_one o xs) || (o == p))
unfolding remove_one
elem-remove_one_iff o p [] h = absurd (cc)
elem-remove_one_iff o p (x ∷ xs) h = ground (arith, int_eq.beq_iff x o, elem-remove_one_iff o p xs)

track-Idle :
    {st : Option PartitionState} {fetched : List ℤ} {copies : ℤ → ℕ} (o epoch : ℤ)
    → Idle st fetched copies
    → pos 0 ≤ℤ o
    → o <ℤ max_int64
    → Tracked (some (track_state o epoch (or_new st))) (o ∷ fetched) (λ p. one_at o p + copies p)
unfolding count
track-Idle o epoch e low high =
    rw (e.no_state, e.nothing)
      (record {
        start = o;
        view = begin o epoch;
        session = record { epoch = epoch; low = low; high = high; reach = here };
        found = refl;
        older = [];
        newest = refl;
        copy = λ p. rw (e.no_copy p);
        seen = λ p. ground arith;
        first = rw (==_refl o) refl;
      })

track-Tracked :
    {st : Option PartitionState} {fetched : List ℤ} {copies : ℤ → ℕ} (o epoch : ℤ)
    → (e : Tracked st fetched copies) → e.view.newest <ℤ o
    → o <ℤ max_int64
    → Tracked (some (track_state o epoch (or_new st))) (o ∷ fetched) (λ p. one_at o p + copies p)
unfolding count
track-Tracked {fetched = fetched} o epoch e up high = rw e.found (record {
  start = e.start;
  view = _;
  session = go_on e.session (tracks o epoch up high (few_held e.session o up high));
  found = refl;
  older = fetched;
  newest = refl;
  copy = λ p. rw (e.copy p);
  seen = λ p. ground (arith, e.seen p);
  first = ground (arith, e.first);
})

pub track-Entry :
    {st : Option PartitionState} {fetched : List ℤ} {copies : ℤ → ℕ} (o epoch : ℤ)
    → Entry st fetched copies
    → Follows fetched o
    → o <ℤ max_int64
    → Entry (some (track_state o epoch (or_new st))) (o ∷ fetched) (λ p. one_at o p + copies p)
track-Entry o epoch (inl e) f high = inr (track-Idle o epoch e (rw e.nothing at f) high)
track-Entry o epoch (inr e) f high = inr (track-Tracked o epoch e (rw e.newest at f) high)

pub complete-Entry :
    {st : Option PartitionState} {fetched : List ℤ} {copies : ℤ → ℕ} (o : ℤ)
    → Entry st fetched (λ p. one_at o p + copies p)
    → Entry (some (mark_complete o (or_new st))) fetched copies
complete-Entry o (inl e) = absurd (ground (arith, e.no_copy o, ==_refl o))
complete-Entry {copies = copies} o (inr e) = rw e.found (
    inr (record {
      start = e.start;
      view = _;
      session = go_on e.session (completes o held);
      found = refl;
      older = e.older;
      newest = e.newest;
      copy = λ p. omega (arith, e.copy p, count-remove_one o p e.view.in_work held);
      seen = λ p. ground (arith, e.seen p, elem-remove_one_iff o p e.view.in_work held);
      first = e.first;
    }))
  where
    held : elem o e.view.in_work ≡ true
    held = count-elem o e.view.in_work (ground (arith, e.copy o, ==_refl o))

pub flush-Entry :
    {st : Option PartitionState} {fetched : List ℤ} {copies : ℤ → ℕ}
    → Entry st fetched copies
    → Entry (Option.map (λ st. (committable_offset st).0) st) fetched copies
flush-Entry (inl e) =
    rw e.no_state (inl (record { no_state = refl; nothing = e.nothing; no_copy = e.no_copy }))
flush-Entry (inr e) = rw e.found (
    inr (record {
      start = e.start;
      view = _;
      session = go_on e.session flushes;
      found = refl;
      older = e.older;
      newest = e.newest;
      copy = e.copy;
      seen = e.seen;
      first = e.first;
    }))
