-- ===== src/Health/Tests.antt =====
-- A probe of two dependencies, of which one does not answer.
use raider_worker.Event.Errors.{message}
use raider_worker.Samples.Messages.{background}
use raider_worker.Base.{
  Text, IsKeyed, Map, [], bool_eq, contains, int_eq, list_eq, lookup, nat_eq, none, pos, refl, some,
  text, unit_eq, ◌↔◌, ◌∷◌, ◌≡◌, ◌⊎◌,
}
use raider_worker.Health.{Checker, handle_ready}
use raider_worker.Health.Ready.{AllOk, verdict_of, ready_exact}
use raider_worker.Middleware.{with_timeout}

abbrev dependencies : Map Text Checker
dependencies =
    (text "redis", λ ctx. none)
    ∷ (text "mongodb", λ ctx. some (message (text "connection refused")))
    ∷ []

keyed : IsKeyed dependencies
unfolding contains lookup
keyed = (refl, (refl, tt))

ready_exact_example :
    let bounded = with_timeout background (pos 3000000000) (pos 9) in
    let r = handle_ready dependencies background (pos 9) (pos 10) in
    ((r.code ≡ 200) ↔ AllOk bounded dependencies)
    × ((r.code ≡ 200) ⊎ (r.code ≡ 503))
    × ((r.status ≡ text "ok") ↔ (r.code ≡ 200))
    × ((name : Text) → lookup name r.checks ≡ verdict_of bounded (lookup name dependencies))
ready_exact_example = ready_exact dependencies background (pos 9) (pos 10) keyed
