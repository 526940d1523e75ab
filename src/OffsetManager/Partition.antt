-- ===== src/OffsetManager/Partition.antt =====
-- `partitionState` of internal/offsetmanager/manager.go: what `Track`, `Complete`, `Drain` and
-- `committableOffset` do to the state of one partition while they hold its mutex.
use raider_worker.Base.{
  ℕ, zero, suc, ℤ, pos, negsuc, Bool, true, false, ◌&&◌, Option, none, some, Map, insert, delete,
  contains, length, is_some, leb_ℤ, add64, sub64, if◌then◌else◌, int_eq, [],
}

-- `completed` is a set of offsets; `drain_ch` names a channel of the manager.
pub record PartitionState : Type 0 where
  pub epoch : ℤ
  pub initialized : Bool
  pub next_commit : ℤ
  pub completed : Map ℤ (Unit {0})
  pub in_flight : ℤ
  pub draining : Bool
  pub drain_ch : Option ℕ
  pub last_committed : ℤ

abbrev pub new_state : PartitionState
new_state = record {
  epoch = pos 0;
  initialized = false;
  next_commit = pos 0;
  completed = [];
  in_flight = pos 0;
  draining = false;
  drain_ch = none;
  last_committed = negsuc 0;
}

-- The first offset of a partition session starts the contiguous run.
start_run : ℤ → PartitionState → PartitionState
start_run offset st =
    if st.initialized then st else record st { next_commit = offset; initialized = true }

-- The body of `Track`.
unfoldable pub track_state : ℤ → ℤ → PartitionState → PartitionState
unfolding start_run
track_state offset leader_epoch st =
    let st' = start_run offset (record st { epoch = leader_epoch }) in
    record st' { in_flight = add64 st'.in_flight (pos 1) }

-- The body of `Complete`, less the signal to a drain that waits.
unfoldable pub mark_complete : ℤ → PartitionState → PartitionState
mark_complete offset st = record st {
  completed = insert offset tt st.completed;
  in_flight = sub64 st.in_flight (pos 1);
}

-- The test of `Complete` for a drain to wake.
unfoldable pub wakes_drain : PartitionState → Bool
wakes_drain st = st.draining && leb_ℤ st.in_flight (pos 0) && is_some st.drain_ch

-- One round of the loop of `committableOffset`.
unfoldable pub bump : PartitionState → PartitionState
bump st = record st {
  completed = delete st.next_commit st.completed;
  next_commit = add64 st.next_commit (pos 1);
}

-- The loop of `committableOffset`, with `advanced`. A round takes an offset out of `completed`.
unfoldable pub advance : ℕ → PartitionState → Bool → PartitionState × Bool
advance zero st advanced = (st, advanced)
advance (suc fuel) st advanced =
    let rest = advance fuel (bump st) true in
    if contains st.next_commit st.completed then rest else (st, advanced)

-- What follows the loop: the offset to commit with its leader epoch, if there is one.
unfoldable pub settle : PartitionState × Bool → PartitionState × Option (ℤ × ℤ)
settle (st, false) = (st, none)
settle (st, true) =
    let committable = sub64 st.next_commit (pos 1) in
    if leb_ℤ committable st.last_committed
    then (st, none)
    else (record st { last_committed = committable }, some (committable, st.epoch))

unfoldable pub committable_offset : PartitionState → PartitionState × Option (ℤ × ℤ)
committable_offset st = settle (advance (length st.completed) st false)
