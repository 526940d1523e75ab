-- ===== src/OffsetManager/Manager.antt =====
-- `Manager` of internal/offsetmanager/manager.go: the states of all partitions by key. Each method
-- is one step, as its mutexes make it.
use raider_worker.Base.{
  Bool, Eq, List, Map, Option, Text, [], bool_eq, delete, false, get_elem?, if◌then◌else◌, insert,
  int_eq, leb_ℤ, length, list_eq, lookup, nat_eq, none, pos, remap, set, some, true, unit_eq, ℕ, ℤ,
  ◌&&◌, ◌++◌, ◌==◌, ◌↔◌, ◌∷◌, ◌≡◌, arith, int_beq_iff, list_beq_iff,
}
use raider_worker.OffsetManager.Partition.{
  PartitionState, new_state, track_state, mark_complete, wakes_drain, committable_offset,
}
use raider_worker.Event.Errors.{GoError}

pub record PartitionKey : Type 0 where
  pub topic : Text
  pub partition : ℤ

abbrev pub key_beq : PartitionKey → PartitionKey → Bool
key_beq a b = (a.topic == b.topic) && (a.partition == b.partition)

pub key_beq_iff : (a b : PartitionKey) → (key_beq a b ≡ true) ↔ (a ≡ b)
key_beq_iff a b = (
  λ h. ground (arith, list_beq_iff a.topic b.topic, int_beq_iff a.partition b.partition),
  λ h. ground (arith, list_beq_iff a.topic b.topic, int_beq_iff a.partition b.partition),
)

instance abbrev pub key_eq : Eq PartitionKey
key_eq = record { beq = key_beq; beq_iff = key_beq_iff }

-- What a commit request says of one partition (`kgo.Record`, as far as it is filled in).
pub record CommitRecord : Type 0 where
  pub key : PartitionKey
  pub offset : ℤ
  pub leader_epoch : ℤ

-- `channels` holds each `drainCh` ever made: whether a signal waits in its buffer of one.
pub record Manager : Type 0 where
  pub partitions : Map PartitionKey PartitionState
  pub channels : List Bool

-- `New`.
abbrev pub new : Manager
new = record { partitions = []; channels = [] }

-- `state`: the state of a partition, made if there is none.
unfoldable pub state : PartitionKey → Manager → PartitionState × Manager
state k m = elim (lookup k m.partitions) [
  | none ↦ (new_state, record m { partitions = insert k new_state m.partitions })
  | some st ↦ (st, m)
]

-- A write through the pointer that `state` returned.
unfoldable pub put : PartitionKey → PartitionState → Manager → Manager
put k st m = record m { partitions = insert k st m.partitions }

unfoldable pub track : PartitionKey → ℤ → ℤ → Manager → Manager
track k offset leader_epoch m =
    let (st, m') = state k m in put k (track_state offset leader_epoch st) m'

-- The send of `Complete`, which does not wait: a full buffer stays full.
unfoldable pub signal : Option ℕ → Manager → Manager
signal none m = m
signal (some ch) m = record m { channels = set m.channels ch true }

unfoldable pub complete : PartitionKey → ℤ → Manager → Manager
complete k offset m =
    let (st, m') = state k m in
    let st' = mark_complete offset st in
    let m'' = put k st' m' in if wakes_drain st' then signal st'.drain_ch m'' else m''

-- `Drain` up to its select: nothing in flight, or a channel to wait on.
pub data DrainStart : Type 0 where
  drained : DrainStart
  waits : ℕ → DrainStart

unfoldable pub begin_drain : PartitionKey → Manager → DrainStart × Manager
begin_drain k m =
    let (st, m') = state k m in
    let ch = length m'.channels in
    if leb_ℤ st.in_flight (pos 0) then (drained, m') else (
      waits ch,
      put k (record st { draining = true; drain_ch = some ch })
          (record m' { channels = m'.channels ++ false ∷ [] }),
    )

-- `<-ch`, if it need not wait.
unfoldable pub receive : ℕ → Manager → Option Manager
receive ch m = elim (get_elem? m.channels ch) [
  | some true ↦ some (record m { channels = set m.channels ch false })
  | _ ↦ none
]

-- The record for an offset and its leader epoch.
abbrev pub commit_request : PartitionKey → Option (ℤ × ℤ) → Option CommitRecord
commit_request k none = none
commit_request k (some (offset, epoch)) =
    some (record { key = k; offset = offset; leader_epoch = epoch })

-- `FlushPartition` up to its request, if it makes one.
unfoldable pub flush_partition : PartitionKey → Manager → Manager × Option CommitRecord
flush_partition k m =
    let (st, m') = state k m in
    let (st', r) = committable_offset st in (put k st' m', commit_request k r)

-- What `FlushPartition` returns, for a client that answers requests by `commit_records`.
unfoldable pub flush_error : (CommitRecord → Option GoError) → Option CommitRecord → Option GoError
flush_error commit_records none = none
flush_error commit_records (some r) = commit_records r

unfoldable pub forget : PartitionKey → Manager → Manager
forget k m = record m { partitions = delete k m.partitions }

abbrev pub add_request : Option CommitRecord → List CommitRecord → List CommitRecord
add_request none records = records
add_request (some r) records = r ∷ records

-- The records that one pass of `FlushAll` over the states collects.
unfoldable pub collect : Map PartitionKey PartitionState → List CommitRecord
collect [] = []
collect ((k, st) ∷ rest) = add_request (commit_request k (committable_offset st).1) (collect rest)

-- `FlushAll`: the states after it, and the records of its request; with none it makes no request.
unfoldable pub flush_all : Manager → Manager × List CommitRecord
flush_all m = (
  record m { partitions = remap (λ k st. (committable_offset st).0) m.partitions },
  collect m.partitions,
)

-- What the loop of `Start` may receive.
pub data Signal : Type 0 where
  ctx_done stopped ticked : Signal

-- A pass that collected nothing sends nothing.
abbrev pub send_request : List CommitRecord → List (List CommitRecord) → List (List CommitRecord)
send_request [] requests = requests
send_request (r ∷ records) requests = (r ∷ records) ∷ requests

-- `Start`: the requests made until the context is done or `Stop` is called.
unfoldable pub start : List Signal → Manager → Manager × List (List CommitRecord)
start [] m = (m, [])
start (ctx_done ∷ rest) m = (m, [])
start (stopped ∷ rest) m = (m, [])
start (ticked ∷ rest) m =
    let (m', records) = flush_all m in
    let (m'', requests) = start rest m' in (m'', send_request records requests)
