-- ===== src/Idempotency.antt =====
-- internal/idempotency/store.go: the claims on event ids.
use raider_worker.Event.Errors.{Result, GoError, ok}
pub mod RedisStore
use raider_worker.Base.{Bool, Option, Text, false, none, true, ◌≡◌}

-- The interface `Store`, with the state of the backend passed on. `claimed` is what a claim means
-- to other callers; the laws are those of the interface's comments, for calls that do not fail.
pub record Store : Type 1 where
  pub State : Type 0
  pub try_acquire : Text → State → Result Bool × State
  pub release : Text → State → Option GoError × State
  pub claimed : Text → State → Bool
  pub acquire_fresh :
      (id : Text) (s : State)
      → (try_acquire id s).0 ≡ ok true
      → (claimed id s ≡ false) × (claimed id (try_acquire id s).1 ≡ true)
  pub acquire_taken :
      (id : Text) (s : State)
      → (try_acquire id s).0 ≡ ok false
      → (claimed id s ≡ true) × ((try_acquire id s).1 ≡ s)
  pub release_frees :
      (id : Text) (s : State) → (release id s).0 ≡ none → claimed id (release id s).1 ≡ false
