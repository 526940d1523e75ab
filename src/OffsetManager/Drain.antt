-- ===== src/OffsetManager/Drain.antt =====
-- `Drain` against `Complete`: whom a completion wakes, and what a forgotten partition does to both.
use raider_worker.Base.{
  [], bool_eq, if◌then◌else◌, int_eq, length, list_eq, lookup, nat_beq, nat_eq, pos, set, some, suc,
  true, unit_eq, ℕ, ℤ, ◌↔◌, ◌≡◌, ◌≤◌, List, ap, arith, false, leb_ℤ, lookup-delete_self, none, refl,
  sub64, sub64-pred, ◌++◌, ◌∙◌, ◌∷◌, add64,
}
use raider_worker.OffsetManager.Partition.{
  PartitionState, track_state, mark_complete, wakes_drain, new_state,
}
use raider_worker.OffsetManager.Manager.{
  PartitionKey, key_eq, Manager, state, put, track, signal, complete, DrainStart, drained, waits,
  begin_drain, forget,
}
use raider_worker.OffsetManager.Refinement.{
  tracks, completes, call, local, or_new, lookup-call_self, state-channels,
}
use raider_worker.OffsetManager.Session.{View, Session}
use raider_worker.OffsetManager.Safety.{Session-Inv}

state_lem :
    (k : PartitionKey) (m : Manager) (st : PartitionState)
    → lookup k m.partitions ≡ some st
    → state k m ≡ (st, m)
unfolding state
state_lem k m st h = rw (h, state)

abbrev pub drain_step : PartitionKey → PartitionState → Manager → DrainStart × Manager
drain_step k st m = if leb_ℤ st.in_flight (pos 0) then (drained, m) else (
  waits (length m.channels),
  put k (record st { draining = true; drain_ch = some (length m.channels) })
      (record m { channels = m.channels ++ false ∷ [] }),
)

pub begin_drain_lem :
    (k : PartitionKey) (m : Manager) (st : PartitionState)
    → lookup k m.partitions ≡ some st
    → begin_drain k m ≡ drain_step k st m
unfolding begin_drain
begin_drain_lem k m st h = rw (state_lem k m st h)

drained_iff :
    (k : PartitionKey) (m : Manager) (st : PartitionState) (xs : List ℤ)
    → st.in_flight ≡ pos (length xs)
    → ((drain_step k st m).0 ≡ drained) ↔ (xs ≡ [])
drained_iff k m st [] f = (λ _. refl, λ _. ground arith)
drained_iff k m st (x ∷ xs) f = (λ e. ground arith, λ e. cc)

tracked :
    (k : PartitionKey) (o e : ℤ) (m : Manager)
    → lookup k (track k o e m).partitions ≡ some (track_state o e (or_new (lookup k m.partitions)))
tracked k o e m = unfold call local in lookup-call_self k (tracks o e) m

channels-track : (k : PartitionKey) (o e : ℤ) (m : Manager) → (track k o e m).channels ≡ m.channels
unfolding track put
channels-track k o e m = state-channels k m

completed :
    (k : PartitionKey) (o : ℤ) (m : Manager)
    → lookup k (complete k o m).partitions ≡ some (mark_complete o (or_new (lookup k m.partitions)))
completed k o m = unfold call local in lookup-call_self k (completes o) m

forgotten : (k : PartitionKey) (m : Manager) → lookup k (forget k m).partitions ≡ none
unfolding forget
forgotten k m = lookup-delete_self k m.partitions

-- During a session `Drain` returns at once exactly when no record is in flight.
pub drain_exact :
    {start : ℤ} {v : View} (s : Session start v) (k : PartitionKey) (m : Manager)
    → lookup k m.partitions ≡ some v.state
    → ((begin_drain k m).0 ≡ drained) ↔ (v.in_work ≡ [])
drain_exact {v = v} s k m h =
    rw (begin_drain_lem k m v.state h)
      (drained_iff k m v.state v.in_work (Session-Inv s).work.count)

-- A completion signals the channel of a drain that waits when it takes the last record out of
-- flight, and leaves every channel alone while others are in flight.
pub complete_wakes :
    (k : PartitionKey) (m : Manager) (st : PartitionState) (ch n : ℕ) (offset : ℤ)
    → lookup k m.partitions ≡ some st
    → st.draining ≡ true
    → st.drain_ch ≡ some ch
    → st.in_flight ≡ pos (suc n)
    → suc n ≤ 0x7fffffffffffffff
    → (complete k offset m).channels ≡ (if nat_beq n 0 then set m.channels ch true else m.channels)
unfolding complete put mark_complete wakes_drain signal
complete_wakes k m st ch n offset h d c f few =
    rw (state_lem k m st h, f, d, c, left) (ground arith)
  where
    left : sub64 (pos (suc n)) (pos 1) ≡ pos n
    left = ap (λ k. sub64 k (pos 1)) (ap pos (omega arith)) ∙ sub64-pred n (omega arith)

-- A completion that comes after its partition was forgotten makes the state anew, with a count of
-- -1: then the next record tracked there is in flight, and `Drain` does not wait for it.
pub late_complete_hides_work :
    (k : PartitionKey) (late next epoch : ℤ) (m : Manager)
    → ((begin_drain k (track k next epoch (complete k late (forget k m)))).0 ≡ drained)
      × ((begin_drain k (track k next epoch (forget k m))).0 ≡ waits (length m.channels))
late_complete_hides_work k late next epoch m = (hidden, seen)
  where
    again : Manager
    again = complete k late (forget k m)

    late_state :
        lookup k (track k next epoch again).partitions
        ≡ some (track_state next epoch (mark_complete late new_state))
    late_state = rw (tracked k next epoch again, completed k late (forget k m), forgotten k m)

    new_one :
        lookup k (track k next epoch (forget k m)).partitions
        ≡ some (track_state next epoch new_state)
    new_one = rw (tracked k next epoch (forget k m), forgotten k m)

    hidden : (begin_drain k (track k next epoch again)).0 ≡ drained
    hidden =
        rw (begin_drain_lem k (track k next epoch again) _ late_state)
          (unfold track_state mark_complete add64 sub64 in refl)

    seen : (begin_drain k (track k next epoch (forget k m))).0 ≡ waits (length m.channels)
    seen = rw (begin_drain_lem k (track k next epoch (forget k m)) _ new_one) (
        unfold track_state add64 forget in
        ap waits (ap length (channels-track k next epoch (forget k m))))
