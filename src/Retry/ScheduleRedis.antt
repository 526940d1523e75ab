-- ===== src/Retry/ScheduleRedis.antt =====
-- The Redis client (go-redis), as far as the retry scheduler calls it: a parameter of the model.
-- A call returns its reply or an error, with the state of the server after it.
use raider_worker.Event.Errors.{GoError, Result, ok}
use raider_worker.Json.{Payload}
use raider_worker.Base.{
  List, Option, Text, none, some, true, ℕ, ℤ, ◌≡◌, ◌≤ℤ◌, bool_eq, elem, int_eq, list_eq, nat_eq,
  unit_eq, ◌≢◌,
}

pub record ScheduleRedis : Type 1 where
  pub State : Type 0
  -- MULTI; SET key value EX ttl; ZADD set score member; EXEC
  pub set_and_add : Text → Payload → ℕ → Text → ℤ → Text → State → Option GoError × State
  -- ZRANGEBYSCORE set min max LIMIT 0 count
  pub range_by_score : Text → ℤ → ℤ → ℕ → State → Result (List Text)
  -- ZREM set member: the number of members removed
  pub zrem : Text → Text → State → Result ℕ × State
  -- GET key
  pub get : Text → State → Result Payload
  -- DEL key
  pub del : Text → State → Option GoError × State
  -- What a key holds, and the score of a set's member.
  pub value : Text → State → Option Payload
  pub score : Text → Text → State → Option ℤ
  -- "SET: set key to hold the string value"; "ZADD: if a specified member is already a member of
  -- the sorted set, the score is updated".
  pub exec_sets :
      (k : Text) (v : Payload) (ttl : ℕ) (set : Text) (at : ℤ) (m : Text) (s : State)
      → (set_and_add k v ttl set at m s).0 ≡ none
      → let s' = (set_and_add k v ttl set at m s).1 in
        (value k s' ≡ some v) × (score set m s' ≡ some at)
  -- "Returns all the elements in the sorted set at key with a score between min and max."
  pub range_within :
      (set : Text) (min max : ℤ) (count : ℕ) (s : State) (ms : List Text) (m : Text)
      → range_by_score set min max count s ≡ ok ms
      → elem m ms ≡ true
      → (at : ℤ) × (score set m s ≡ some at) × (min ≤ℤ at) × (at ≤ℤ max)
  -- "Removes the specified members from the sorted set. Non existing members are ignored."
  pub zrem_removes :
      (set m : Text) (s : State) (n : ℕ)
      → (zrem set m s).0 ≡ ok n
      → score set m (zrem set m s).1 ≡ none
  pub zrem_none :
      (set m : Text) (s : State) (n : ℕ)
      → score set m s ≡ none
      → (zrem set m s).0 ≡ ok n
      → (n ≡ 0) × ((zrem set m s).1 ≡ s)
  pub zrem_keeps : (set m k : Text) (s : State) → k ≢ set → value k (zrem set m s).1 ≡ value k s
  -- "Get the value of key. If the key does not exist the special value nil is returned", which the
  -- client gives as an error.
  pub get_value : (k : Text) (s : State) (v : Payload) → get k s ≡ ok v → value k s ≡ some v
  -- "Removes the specified keys."
  pub del_removes : (k : Text) (s : State) → (del k s).0 ≡ none → value k (del k s).1 ≡ none
  pub del_keeps : (k set m : Text) (s : State) → k ≢ set → score set m (del k s).1 ≡ score set m s
  -- Each removes what it names, and nothing else.
  pub zrem_keeps_others :
      (set m j : Text) (s : State) → m ≢ j → score set j (zrem set m s).1 ≡ score set j s
  pub del_keeps_others : (k j : Text) (s : State) → k ≢ j → value j (del k s).1 ≡ value j s
  -- ZREM adds no member, and ZADD none but its own, whether or not the reply arrives.
  pub zrem_adds_none :
      (set m j : Text) (s : State) → score set j s ≡ none → score set j (zrem set m s).1 ≡ none
  pub exec_adds_one :
      (k : Text) (v : Payload) (ttl : ℕ) (set : Text) (at : ℤ) (m j : Text) (s : State)
      → m ≢ j
      → score set j s ≡ none
      → score set j (set_and_add k v ttl set at m s).1 ≡ none
