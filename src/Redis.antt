-- ===== src/Redis.antt =====
-- The Redis client (go-redis), as far as the worker calls it: a parameter of the model. A call
-- returns its reply or an error, with the state of the server after it.
use raider_worker.Event.Errors.{Result, GoError, ok}
use raider_worker.Base.{Bool, Option, Text, false, none, true, ℕ, ◌≡◌}

pub record Redis : Type 1 where
  pub State : Type 0
  -- SET key value NX EX ttl
  pub set_nx : Text → Text → ℕ → State → Result Bool × State
  -- DEL key
  pub del : Text → State → Option GoError × State
  -- Whether a key is set, now.
  pub exists : Text → State → Bool
  -- "Set key to hold the string value if the key does not exist."
  pub set_nx_true :
      (k v : Text) (ttl : ℕ) (s : State)
      → (set_nx k v ttl s).0 ≡ ok true
      → (exists k s ≡ false) × (exists k (set_nx k v ttl s).1 ≡ true)
  -- "When key already holds a value, no operation is performed."
  pub set_nx_false :
      (k v : Text) (ttl : ℕ) (s : State)
      → (set_nx k v ttl s).0 ≡ ok false
      → (exists k s ≡ true) × ((set_nx k v ttl s).1 ≡ s)
  -- "Removes the specified keys. A key is ignored if it does not exist."
  pub del_removes : (k : Text) (s : State) → (del k s).0 ≡ none → exists k (del k s).1 ≡ false
