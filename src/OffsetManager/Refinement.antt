-- ===== src/OffsetManager/Refinement.antt =====
-- The manager as a family of partitions: each call touches the partition of its key alone, and does
-- there what the session relation says.
use raider_worker.Base.{
  List, Option, [], arith, bool_eq, if◌then◌else◌, int_eq, leb_ℤ, length, list_eq, lookup,
  lookup-insert, nat_eq, none, pos, refl, some, true, unit_eq, ℕ, ℤ, ◌==◌, ◌∷◌, ◌≡◌, lookup-delete,
  Bool, Bool-cases, false, inl, inr, ◌++◌, ◌∙◌, ap,
}
use raider_worker.OffsetManager.Partition.{
  PartitionState, new_state, track_state, mark_complete, committable_offset,
}
use raider_worker.OffsetManager.Manager.{
  PartitionKey, key_eq, key_beq_iff, Manager, state, put, track, signal, complete, begin_drain,
  flush_partition, forget,
}

-- A call on one partition.
pub data Call : Type 0 where
  tracks : ℤ → ℤ → Call
  completes : ℤ → Call
  flushes drains forgets : Call

unfoldable pub call : PartitionKey → Call → Manager → Manager
call k (tracks offset epoch) m = track k offset epoch m
call k (completes offset) m = complete k offset m
call k flushes m = (flush_partition k m).0
call k drains m = (begin_drain k m).1
call k forgets m = forget k m

unfoldable pub run : Manager → List (PartitionKey × Call) → Manager
run m [] = m
run m ((k, c) ∷ rest) = run (call k c m) rest

abbrev pub or_new : Option PartitionState → PartitionState
or_new none = new_state
or_new (some st) = st

-- The call on the partition alone; `ch` is the next channel.
unfoldable pub local : ℕ → Call → Option PartitionState → Option PartitionState
local ch (tracks offset epoch) o = some (track_state offset epoch (or_new o))
local ch (completes offset) o = some (mark_complete offset (or_new o))
local ch flushes o = some (committable_offset (or_new o)).0
local ch drains o =
    let st = or_new o in
    if leb_ℤ st.in_flight (pos 0)
    then some st
    else some (record st { draining = true; drain_ch = some ch })
local ch forgets o = none

pub state-or_new : (k : PartitionKey) (m : Manager) → (state k m).0 ≡ or_new (lookup k m.partitions)
unfolding state
state-or_new k m = ground arith

pub state-channels : (k : PartitionKey) (m : Manager) → (state k m).1.channels ≡ m.channels
unfolding state
state-channels k m = ground arith

lookup-state :
    (k j : PartitionKey) (m : Manager)
    → lookup j (state k m).1.partitions
      ≡ (if k == j then some (or_new (lookup k m.partitions)) else lookup j m.partitions)
unfolding state
lookup-state k j m = ground (arith, key_beq_iff k j, lookup-insert k j new_state m.partitions)

lookup-put :
    (k j : PartitionKey) (st : PartitionState) (m : Manager)
    → lookup j (put k st m).partitions ≡ (if k == j then some st else lookup j m.partitions)
unfolding put
lookup-put k j st m = lookup-insert k j st m.partitions

partitions-signal : (ch : Option ℕ) (m : Manager) → (signal ch m).partitions ≡ m.partitions
unfolding signal
partitions-signal none m = refl
partitions-signal (some ch) m = refl

partitions-woken :
    (woken : Bool) (ch : Option ℕ) (m : Manager)
    → (if woken then signal ch m else m).partitions ≡ m.partitions
partitions-woken true ch m = partitions-signal ch m
partitions-woken false ch m = refl

-- `put` after `state`: the write of a call.
lookup-put-state :
    (k j : PartitionKey) (st : PartitionState) (m : Manager)
    → lookup j (put k st (state k m).1).partitions
      ≡ (if k == j then some st else lookup j m.partitions)
lookup-put-state k j st m =
    ground (arith, key_beq_iff k j, lookup-put k j st (state k m).1, lookup-state k j m)

ruleset local_laws = (lookup-put-state, state-or_new, state-channels)

-- Every call changes the partition of its key by `local`, and no other.
pub lookup-call :
    (k j : PartitionKey) (c : Call) (m : Manager)
    → lookup j (call k c m).partitions ≡ (
        if k == j
        then local (length m.channels) c (lookup k m.partitions)
        else lookup j m.partitions)
unfolding call local track complete flush_partition begin_drain forget
lookup-call k j (tracks offset epoch) m = simp local_laws
lookup-call k j (completes offset) m = simp (local_laws, partitions-woken)
lookup-call k j flushes m = simp local_laws
lookup-call k j drains m =
    let st = (state k m).0 in
    let ch = length (state k m).1.channels in
    ground (
      arith,
      key_beq_iff k j,
      state-or_new k m,
      state-channels k m,
      lookup-state k j m,
      lookup-put k j (record st { draining = true; drain_ch = some ch })
          (record (state k m).1 { channels = (state k m).1.channels ++ false ∷ [] }),
    )
lookup-call k j forgets m = lookup-delete k j m.partitions

pub lookup-call_self :
    (k : PartitionKey) (c : Call) (m : Manager)
    → lookup k (call k c m).partitions ≡ local (length m.channels) c (lookup k m.partitions)
lookup-call_self k c m = ground (arith, lookup-call k k c m, key_beq_iff k k)

-- The calls of a schedule on one key.
pub project : PartitionKey → List (PartitionKey × Call) → List Call
project j [] = []
project j ((k, c) ∷ rest) = let calls = project j rest in if k == j then c ∷ calls else calls

-- A schedule of calls on one partition alone, with the channels that its drains make.
pub local_run : List ℕ → List Call → Option PartitionState → Option PartitionState
local_run [] cs o = o
local_run (ch ∷ chs) [] o = o
local_run (ch ∷ chs) (c ∷ cs) o = local_run chs cs (local ch c o)

-- The next channel at each call on `j`.
pub channels_at : PartitionKey → Manager → List (PartitionKey × Call) → List ℕ
channels_at j m [] = []
channels_at j m ((k, c) ∷ rest) =
    let later = channels_at j (call k c m) rest in
    if k == j then length m.channels ∷ later else later

-- Under any interleaving of calls, a partition ends where its own calls take it: the other
-- partitions do not matter, except for the names of the channels.
pub lookup-run :
    (j : PartitionKey) (m : Manager) (calls : List (PartitionKey × Call))
    → lookup j (run m calls).partitions
      ≡ local_run (channels_at j m calls) (project j calls) (lookup j m.partitions)
unfolding run project local_run channels_at
lookup-run j m [] = refl
lookup-run j m ((k, c) ∷ rest) = elim (Bool-cases (k == j)) [
  | inl same ↦ rw same (
      lookup-run j (call k c m) rest
      ∙ ap (local_run (channels_at j (call k c m) rest) (project j rest))
          (ground (arith, lookup-call k j c m, key_beq_iff k j)))
  | inr other ↦ rw other (
      lookup-run j (call k c m) rest
      ∙ ap (local_run (channels_at j (call k c m) rest) (project j rest))
          (ground (arith, lookup-call k j c m)))
]
