-- ===== src/WorkerPool/Order.antt =====
-- Jobs under one key are run in the order in which they were sent, whatever the lanes do.
use raider_worker.WorkerPool.Hash.{sum32}
use raider_worker.Base.{
  List, Text, [], ap, arith, bool_eq, inl, inr, int_eq, length, list_eq, nat_eq, none, refl, set,
  some, suc, unit_eq, zero, ℕ, ◌++◌, ◌<◌, ◌∙◌, ◌∷◌, ◌≡◌, ◌≤◌, sym, ◌⊎◌, subst, length-append, ℤ,
  negsuc, pos,
}
use raider_worker.WorkerPool.System.{
  Inv, Action, System, sends, receives, stops, by_key, act, Placed, by_key-append, Placed-append,
  change-Inv, by_key-other, submit_cases, perform,
}
use native.Mathlib.Nat.{mod-lt}
use mathlib.Core.List.{append_assoc, append-nil}
use raider_worker.WorkerPool.Pool.{
  Job, Lane, Pool, lane_for, get_lane, take_job, receive, stop, new, make_lanes, at_least_one,
  queue_depth, depth,
}

module _ {A : Type 0} where
  pub lane_for-lt : (k : Text) (p : Pool A) → 0 < length p.lanes → lane_for p k < length p.lanes
  unfolding lane_for
  lane_for-lt k p h = mod-lt (sum32 k) h

  send-Inv : (s : System A) (key : Text) (a : A) → Inv s → Inv (act s (sends key a))
  unfolding act lane_for
  send-Inv s key a inv = elim (submit_cases key a s.pool) [
    | inl e ↦ rw e inv
    | inr (inl e) ↦ rw e inv
    | inr (inr (room, e)) ↦
        let i = lane_for s.pool key in
        let jobs = (get_lane s.pool.lanes i).jobs in
        let job : Job A = record { key = key; execute = a } in
        rw e (
          change-Inv s i (record (get_lane s.pool.lanes i) { jobs = jobs ++ job ∷ [] })
            (s.accepted ++ job ∷ []) s.started inv (lane_for-lt key s.pool inv.some_lane)
            (Placed-append (length s.pool.lanes) i jobs job (inv.placed i) refl)
            (omega (arith, length-append jobs (job ∷ [])))
            (λ k same.
              ap (λ v. by_key k s.started ++ v) (by_key-append k jobs (job ∷ []))
              ∙ sym (append_assoc (by_key k s.started) (by_key k jobs) (by_key k (job ∷ [])))
              ∙ ap (λ v. v ++ by_key k (job ∷ []))
                  (subst
                    (λ n.
                      by_key k s.started ++ by_key k (get_lane s.pool.lanes n).jobs
                      ≡ by_key k s.accepted)
                    same (inv.ordered k))
              ∙ sym (by_key-append k s.accepted (job ∷ [])))
            (λ k other. (refl, by_key-other k s.accepted job (length s.pool.lanes) other)))
  ]

  pub take_cases :
      (i : ℕ) (p : Pool A) (buffer : ℕ) (jobs : List (Job A))
      → (take_job i p buffer jobs ≡ none)
        ⊎ ((job : Job A) × (rest : List (Job A)) × (jobs ≡ job ∷ rest)
            × (take_job i p buffer jobs
                ≡ some (
                  job,
                  record p { lanes = set p.lanes i (record { jobs = rest; buffer = buffer }) },
                )))
  unfolding take_job
  take_cases i p buffer [] = inl refl
  take_cases i p buffer (job ∷ rest) = inr (job, rest, refl, refl)

  pub filled_lane-lt :
      (ls : List (Lane A)) (i : ℕ) (job : Job A) (rest : List (Job A))
      → (get_lane ls i).jobs ≡ job ∷ rest
      → i < length ls
  filled_lane-lt [] i job rest e = absurd (cc)
  filled_lane-lt (l ∷ ls) zero job rest e = omega arith
  filled_lane-lt (l ∷ ls) (suc i) job rest e = omega (arith, filled_lane-lt ls i job rest e)

  by_key-take :
      (k : Text) (before : List (Job A)) (job : Job A) (jobs rest : List (Job A))
      → jobs ≡ job ∷ rest
      → by_key k (before ++ job ∷ []) ++ by_key k rest ≡ by_key k before ++ by_key k jobs
  by_key-take k before job jobs rest e =
      ap (λ v. v ++ by_key k rest) (by_key-append k before (job ∷ []))
      ∙ append_assoc (by_key k before) (by_key k (job ∷ [])) (by_key k rest)
      ∙ ap (λ v. by_key k before ++ v) (sym (by_key-append k (job ∷ []) rest))
      ∙ ap (λ v. by_key k before ++ by_key k v) (sym e)

  receive-Inv : (s : System A) (i : ℕ) → Inv s → Inv (act s (receives i))
  unfolding act receive lane_for
  receive-Inv s i inv =
      let l = get_lane s.pool.lanes i in
      elim (take_cases i s.pool l.buffer l.jobs) [
        | inl e ↦ rw e inv
        | inr (job, rest, filled, e) ↦
            let p = subst (Placed (length s.pool.lanes) i) filled (inv.placed i) in
            rw e (
              change-Inv s i (record { jobs = rest; buffer = l.buffer }) s.accepted
                (s.started ++ job ∷ []) inv (filled_lane-lt s.pool.lanes i job rest filled) p.1
                (omega (arith, subst (λ js. length js ≤ l.buffer) filled (inv.room i)))
                (λ k same.
                  by_key-take k s.started job l.jobs rest filled
                  ∙ subst
                      (λ n.
                        by_key k s.started ++ by_key k (get_lane s.pool.lanes n).jobs
                        ≡ by_key k s.accepted)
                      same (inv.ordered k))
                (λ k other. (
                  by_key-other k s.started job (length s.pool.lanes) (λ h. other (sym p.0 ∙ h)),
                  refl,
                )))
      ]

  act-Inv : (s : System A) (x : Action A) → Inv s → Inv (act s x)
  unfolding act stop lane_for
  act-Inv s (sends key a) inv = send-Inv s key a inv
  act-Inv s (receives i) inv = receive-Inv s i inv
  act-Inv s stops inv = record {
    some_lane = inv.some_lane;
    placed = inv.placed;
    room = inv.room;
    ordered = inv.ordered;
  }

  -- From a state in which the invariant holds, every sequence of sends, receives and the stop
  -- keeps it: no lane holds more jobs than its buffer, each job waits in the lane of its key, and
  -- the jobs started under a key, followed by those of the key that wait, are the jobs accepted
  -- under the key in the order of their `Submit`.
  pub perform-Inv : (s : System A) (xs : List (Action A)) → Inv s → Inv (perform s xs)
  unfolding perform
  perform-Inv s [] inv = inv
  perform-Inv s (x ∷ xs) inv = perform-Inv (act s x) xs (act-Inv s x inv)

  -- The pool that `New` makes, with nothing sent.
  unfoldable pub fresh : ℤ → ℤ → System A
  fresh lane_count buffer_per_lane = record {
    pool = new lane_count buffer_per_lane;
    accepted = [];
    started = [];
  }

pub at_least_one-pos : (n : ℤ) → 0 < at_least_one n
at_least_one-pos (pos zero) = omega arith
at_least_one-pos (pos (suc n)) = omega arith
at_least_one-pos (negsuc n) = omega arith

pub length-make_lanes : (A : Type 0) (n b : ℕ) → length (make_lanes {A = A} n b) ≡ n
unfolding make_lanes
length-make_lanes A zero b = refl
length-make_lanes A (suc n) b = ap suc (length-make_lanes A n b)

jobs-make_lanes : (A : Type 0) (n b i : ℕ) → (get_lane (make_lanes {A = A} n b) i).jobs ≡ []
unfolding make_lanes
jobs-make_lanes A zero b i = refl
jobs-make_lanes A (suc n) b zero = refl
jobs-make_lanes A (suc n) b (suc i) = jobs-make_lanes A n b i

module _ {A : Type 0} where
  fresh-Inv : (lane_count buffer_per_lane : ℤ) → Inv {A = A} (fresh lane_count buffer_per_lane)
  unfolding fresh new by_key
  fresh-Inv n b = record {
    some_lane =
        omega (arith, length-make_lanes A (at_least_one n) (at_least_one b), at_least_one-pos n);
    placed = λ i. rw (jobs-make_lanes A (at_least_one n) (at_least_one b) i) tt;
    room = λ i. rw (jobs-make_lanes A (at_least_one n) (at_least_one b) i) (omega arith);
    ordered = λ k. rw (jobs-make_lanes A (at_least_one n) (at_least_one b) (lane_for (new n b) k));
  }

  -- Whatever the dispatcher and the lanes do on a new pool, the jobs that were started under a key,
  -- followed by the jobs of the key that wait in its lane, are the jobs that `Submit` accepted
  -- under the key, in the order of their `Submit`.
  pub per_key_order :
      (lane_count buffer_per_lane : ℤ) (xs : List (Action A)) (k : Text)
      → let s = perform (fresh lane_count buffer_per_lane) xs in
        by_key k s.started ++ by_key k (get_lane s.pool.lanes (lane_for s.pool k)).jobs
        ≡ by_key k s.accepted
  per_key_order n b xs k = (perform-Inv (fresh n b) xs (fresh-Inv n b)).ordered k

  eq_nil : (js : List (Job A)) → length js ≡ 0 → js ≡ []
  eq_nil [] h = refl
  eq_nil (j ∷ js) h = absurd (omega arith)

  depth-get_lane : (ls : List (Lane A)) (i : ℕ) → depth ls ≡ 0 → (get_lane ls i).jobs ≡ []
  unfolding depth
  depth-get_lane [] i h = refl
  depth-get_lane (l ∷ ls) zero h = eq_nil l.jobs (omega arith)
  depth-get_lane (l ∷ ls) (suc i) h = depth-get_lane ls i (omega arith)

  -- Once the lanes of a pool are empty, as after `Stop`, every job that `Submit` accepted under a
  -- key has been started, once and in the order of the `Submit` calls.
  pub drained_order :
      (lane_count buffer_per_lane : ℤ) (xs : List (Action A)) (k : Text)
      → queue_depth (perform (fresh lane_count buffer_per_lane) xs).pool ≡ 0
      → by_key k (perform (fresh lane_count buffer_per_lane) xs).started
        ≡ by_key k (perform (fresh lane_count buffer_per_lane) xs).accepted
  unfolding queue_depth by_key
  drained_order n b xs k h =
      let s = perform (fresh n b) xs in
      sym (append-nil (by_key k s.started))
      ∙ ap (λ js. by_key k s.started ++ by_key k js)
          (sym (depth-get_lane s.pool.lanes (lane_for s.pool k) h))
      ∙ per_key_order n b xs k
