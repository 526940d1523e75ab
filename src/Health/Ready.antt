-- ===== src/Health/Ready.antt =====
-- What the readiness probe says of the dependencies.
use raider_worker.Event.Errors.{GoError}
use raider_worker.Time.{Time}
use raider_worker.Event.Types.{Context}
use raider_worker.Base.{
  Text, Bool, IsKeyed, Map, Option, [], arith, bool_eq, contains, insert, int_eq, is_some, list_eq,
  lookup, lookup-insert, nat_eq, none, not, pos, refl, text, true, unit_eq, ◌&&◌, ◌↔◌, ◌∷◌, ◌≡◌,
  ◌⊎◌, false, some, Bool-cases, eq_of_==, inl, inr, subst, ◌==◌, ◌∙◌,
}
use raider_worker.Health.{Checker, verdict, run_checks, handle_ready, Context, Time, GoError}
use raider_worker.Middleware.{with_timeout}

-- Every checker's ping succeeds.
abbrev pub AllOk : Context → Map Text Checker → Type 0
AllOk ctx [] = Unit {0}
AllOk ctx ((name, ping) ∷ rest) = (ping ctx ≡ none) × AllOk ctx rest

verdict_ok :
    (all_ok : Bool) (o : Option GoError)
    → ((all_ok && not (is_some o)) ≡ true) ↔ ((all_ok ≡ true) × (o ≡ none))
verdict_ok true none = (λ h. (refl, refl), λ h. refl)
verdict_ok true (some x) = (λ h. absurd (cc), λ h. let e = h.1 in absurd (cc))
verdict_ok false o = (λ h. absurd (cc), λ h. let e = h.0 in absurd (cc))

run_checks-ok :
    (ctx : Context) (checkers : Map Text Checker) (checks : Map Text Text) (all_ok : Bool)
    → ((run_checks ctx checkers checks all_ok).1 ≡ true) ↔ ((all_ok ≡ true) × AllOk ctx checkers)
unfolding run_checks
run_checks-ok ctx [] checks all_ok = (λ h. (h, tt), λ h. h.0)
run_checks-ok ctx ((name, ping) ∷ rest) checks all_ok =
    let ih =
      run_checks-ok ctx rest (insert name (verdict (ping ctx)) checks)
        (all_ok && not (is_some (ping ctx))) in
    let head = verdict_ok all_ok (ping ctx) in
    (
      λ h. let (first, others) = ih.0 h in ((head.0 first).0, ((head.0 first).1, others)),
      λ h. ih.1 (head.1 (h.0, h.1.0), h.1.1),
    )

abbrev or_else {ℓ} : {A : Type ℓ} → Option A → Option A → Option A
or_else none y = y
or_else (some x) y = some x

-- The verdict on a dependency, where it is one.
abbrev pub verdict_of : Context → Option Checker → Option Text
verdict_of ctx none = none
verdict_of ctx (some ping) = some (verdict (ping ctx))

or_else-none {ℓ} : {A : Type ℓ} (o : Option A) → or_else o none ≡ o
or_else-none none = refl
or_else-none (some x) = refl

no_entry : (name : Text) (m : Map Text Checker) → contains name m ≡ false → lookup name m ≡ none
unfolding contains
no_entry name m h = ground arith

run_checks-lookup :
    (ctx : Context) (checkers : Map Text Checker) (checks : Map Text Text) (all_ok : Bool)
    (asked : Text)
    → IsKeyed checkers
    → lookup asked (run_checks ctx checkers checks all_ok).0
      ≡ or_else (verdict_of ctx (lookup asked checkers)) (lookup asked checks)
unfolding run_checks lookup
run_checks-lookup ctx [] checks all_ok asked h = refl
run_checks-lookup ctx ((name, ping) ∷ rest) checks all_ok asked h =
    let checks' = insert name (verdict (ping ctx)) checks in
    let ih = run_checks-lookup ctx rest checks' (all_ok && not (is_some (ping ctx))) asked h.1 in
    let written = lookup-insert name asked (verdict (ping ctx)) checks in
    elim (Bool-cases (name == asked)) [
      | inl same ↦
          let is = eq_of_== name asked same in
          let alone = no_entry asked rest (subst (λ n. contains n rest ≡ false) is h.0) in
          rw same (ih ∙ rw (alone, written, same))
      | inr apart ↦ rw apart (ih ∙ rw (written, apart))
    ]

-- The readiness probe answers 200 when every dependency's ping succeeds within its three seconds,
-- and 503 otherwise, with the status "ok" in the first case alone; and `checks` has for each
-- dependency the verdict of its own ping, and no other entry.
pub ready_exact :
    (checkers : Map Text Checker) (ctx : Context) (now later : Time)
    → IsKeyed checkers
    → let bounded = with_timeout ctx (pos 3000000000) now in
      let r = handle_ready checkers ctx now later in
      ((r.code ≡ 200) ↔ AllOk bounded checkers)
      × ((r.code ≡ 200) ⊎ (r.code ≡ 503))
      × ((r.status ≡ text "ok") ↔ (r.code ≡ 200))
      × ((name : Text) → lookup name r.checks ≡ verdict_of bounded (lookup name checkers))
unfolding handle_ready lookup
ready_exact checkers ctx now later h =
    let bounded = with_timeout ctx (pos 3000000000) now in
    let run = run_checks bounded checkers [] true in
    let ok = run_checks-ok bounded checkers [] true in
    let entries : (name : Text) → lookup name run.0 ≡ verdict_of bounded (lookup name checkers) =
      λ name. run_checks-lookup bounded checkers [] true name h ∙ or_else-none _ in
    elim (Bool-cases run.1) [
      | inl good ↦
          rw good ((λ _. (ok.0 good).1, λ _. refl), inl refl, (λ _. refl, λ _. refl), entries)
      | inr bad ↦ rw bad (
        (λ e. absurd (ground arith), λ all. let good = ok.1 (refl, all) in absurd (cc)),
        inr refl,
        (λ e. absurd (cc), λ e. absurd (ground arith)),
        entries,
      )
    ]
