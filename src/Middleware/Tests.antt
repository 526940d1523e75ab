-- ===== src/Middleware/Tests.antt =====
-- Runs of the pipeline over Redis in memory.
use raider_worker.Event.Errors.{ok, message}
use raider_worker.Time.{Duration}
use raider_worker.Samples.Messages.{case_event, background, failing}
use raider_worker.Samples.Memory.{memory}
use raider_worker.Idempotency.RedisStore.{redis_store, key, claimed, try_acquire}
use raider_worker.Idempotency.{Store}
use raider_worker.Middleware.{execute, Duration, ok}
use raider_worker.Middleware.Claims.{claimed_is_dropped, fresh_claim_runs, ClaimAfter}
use raider_worker.Base.{
  [], bool_eq, contains, false, int_eq, list_eq, lookup, nat_eq, none, pos, refl, text, true,
  unit_eq, ◌∷◌, ◌≡◌, some,
}

abbrev store : Store
store = redis_store memory

unfoldable claims : store.State
unfolding redis_store memory key
claims = (key (text "e1"), text "processing") ∷ []

unfoldable no_claims : store.State
unfolding redis_store memory
no_claims = []

abbrev timeout : Duration
timeout = pos 30000000000

is_claimed : store.claimed (text "e1") claims ≡ true
unfolding redis_store claimed memory contains lookup key claims
is_claimed = refl

is_taken : (store.try_acquire (text "e1") claims).0 ≡ ok false
unfolding redis_store try_acquire memory contains lookup key claims
is_taken = refl

is_fresh : (store.try_acquire (text "e1") no_claims).0 ≡ ok true
unfolding redis_store try_acquire memory contains lookup key no_claims
is_fresh = refl

claimed_is_dropped_example :
    let run =
      execute store timeout background case_event (text "VISIT_APPROVED") failing (pos 5) claims in
    (run.ran ≡ false) × (run.result ≡ none) × (run.claims ≡ claims)
claimed_is_dropped_example =
    claimed_is_dropped store timeout background case_event (text "VISIT_APPROVED") failing (pos 5)
      claims false is_claimed is_taken

fresh_claim_runs_example :
    let run =
      execute store timeout background case_event
        (text "VISIT_APPROVED")
        failing
        (pos 5)
        no_claims in
    (run.ran ≡ true)
    × (run.result ≡ some (message (text "timeout")))
    × ClaimAfter store timeout background case_event
        (text "VISIT_APPROVED")
        failing
        (pos 5)
        run.claims
        run.result
        (store.release (text "e1") (store.try_acquire (text "e1") no_claims).1).0
fresh_claim_runs_example =
    fresh_claim_runs store timeout background case_event (text "VISIT_APPROVED") failing (pos 5)
      no_claims is_fresh
