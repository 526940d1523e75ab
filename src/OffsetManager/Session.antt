-- ===== src/OffsetManager/Session.antt =====
-- The life of one partition under the manager: any interleaving of tracked records, completions,
-- flushes and drains, with what is in flight and what is done kept beside the state.
use raider_worker.Base.{
  ℕ, ◌<◌, ℤ, ◌<ℤ◌, max_int64, true, ◌≡◌, List, [], ◌∷◌, some, elem, length, ◌==◌, int_eq,
  if◌then◌else◌, bool_eq, list_eq, nat_eq, pos, unit_eq, ◌≤ℤ◌,
}
use raider_worker.OffsetManager.Partition.{
  PartitionState, new_state, track_state, mark_complete, committable_offset,
}

-- `newest` is the last offset tracked; `open` are the offsets in flight, newest first.
pub record View : Type 0 where
  pub newest : ℤ
  pub in_work : List ℤ
  pub done : List ℤ
  pub state : PartitionState

-- Drops the first occurrence.
unfoldable pub remove_one : ℤ → List ℤ → List ℤ
remove_one o [] = []
remove_one o (x ∷ xs) = if x == o then xs else x ∷ remove_one o xs

-- The first record of a partition session.
abbrev pub begin : ℤ → ℤ → View
begin start epoch = record {
  newest = start;
  in_work = start ∷ [];
  done = [];
  state = track_state start epoch new_state;
}

-- One call on the partition. Kafka delivers a partition's records by increasing offsets, a record
-- is completed once, and fewer than 2^63 - 1 records are in flight.
pub data Step (v : View) : View → Type 0 where
  tracks :
      (o epoch : ℤ)
      → v.newest <ℤ o
      → o <ℤ max_int64
      → length v.in_work < 0x7fffffffffffffff
      → Step v (record {
        newest = o;
        in_work = o ∷ v.in_work;
        done = v.done;
        state = track_state o epoch v.state;
      })
  completes :
      (o : ℤ)
      → elem o v.in_work ≡ true
      → Step v (record {
        newest = v.newest;
        in_work = remove_one o v.in_work;
        done = o ∷ v.done;
        state = mark_complete o v.state;
      })
  flushes : Step v (record v { state = (committable_offset v.state).0 })
  drains :
      (ch : ℕ)
      → Step v (record v { state = record v.state { draining = true; drain_ch = some ch } })

pub data Reach (v : View) : View → Type 0 where
  here : Reach v v
  later : {w u : View} → Reach v w → Step w u → Reach v u

-- A partition that has been tracked from `start` on. Kafka's offsets are not negative.
pub record Session (start : ℤ) (v : View) : Type 0 where
  pub epoch : ℤ
  pub low : pos 0 ≤ℤ start
  pub high : start <ℤ max_int64
  pub reach : Reach (begin start epoch) v

pub Reach-trans : {v w u : View} → Reach v w → Reach w u → Reach v u
Reach-trans r here = r
Reach-trans r (later q s) = later (Reach-trans r q) s

-- A session goes on.
pub extend : {start : ℤ} {v w : View} → Session start v → Reach v w → Session start w
extend s r = record { epoch = s.epoch; low = s.low; high = s.high; reach = Reach-trans s.reach r }
