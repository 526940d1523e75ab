-- ===== src/WorkerPool/System.antt =====
-- The pool with the jobs it has accepted and started, and what a change of one lane keeps.
use raider_worker.WorkerPool.Hash.{sum32}
use raider_worker.Base.{
  Bool-cases, List, Option, Text, [], ap, arith, bool_eq, eq_of_==, if◌then◌else◌, inl, inr, int_eq,
  length, list_eq, nat_beq, nat_eq, none, refl, set, some, suc, unit_eq, zero, ℕ, ◌%◌, ◌++◌, ◌<◌,
  ◌==◌, ◌∙◌, ◌∷◌, ◌≡◌, ◌≢◌, ◌≤◌, length-set, sym, ◌⊎◌, subst,
}
use mathlib.Core.List.{append-nil}
use raider_worker.WorkerPool.Pool.{
  Job, Lane, Pool, Sending, sent, send_panics, waits_for_room, lane_for, get_lane, is_full, submit,
  receive, stop,
}

-- What the dispatcher and the lanes' goroutines do, one at a time.
pub data Action (A : Type 0) : Type 0 where
  sends : Text → A → Action A
  receives : ℕ → Action A
  stops : Action A

-- `accepted` are the jobs that `Submit` has sent, `started` those that a goroutine has taken.
pub record System (A : Type 0) : Type 0 where
  pub pool : Pool A
  pub accepted : List (Job A)
  pub started : List (Job A)

module _ {A : Type 0} where
  -- The jobs under a key.
  unfoldable pub by_key : Text → List (Job A) → List (Job A)
  by_key k [] = []
  by_key k (j ∷ js) = let rest = by_key k js in if j.key == k then j ∷ rest else rest

  abbrev pub after_send : System A → Job A → Sending A → System A
  after_send s job send_panics = s
  after_send s job waits_for_room = s
  after_send s job (sent p) = record s { pool = p; accepted = s.accepted ++ job ∷ [] }

  abbrev pub after_receive : System A → Option (Job A × Pool A) → System A
  after_receive s none = s
  after_receive s (some (job, p)) = record s { pool = p; started = s.started ++ job ∷ [] }

  -- A send that waits for room, or panics, adds no job.
  unfoldable pub act : System A → Action A → System A
  act s (sends key a) = after_send s (record { key = key; execute = a }) (submit key a s.pool)
  act s (receives i) = after_receive s (receive i s.pool)
  act s stops = record s { pool = stop s.pool }

  unfoldable pub perform : System A → List (Action A) → System A
  perform s [] = s
  perform s (x ∷ xs) = perform (act s x) xs

  -- Each job stands in the lane of its key.
  abbrev pub Placed : ℕ → ℕ → List (Job A) → Type 0
  Placed n i [] = Unit {0}
  Placed n i (j ∷ js) = (sum32 j.key % n ≡ i) × Placed n i js

  pub record Inv (s : System A) : Type 0 where
    pub some_lane : 0 < length s.pool.lanes
    pub placed : (i : ℕ) → Placed (length s.pool.lanes) i (get_lane s.pool.lanes i).jobs
    pub room : (i : ℕ) → length (get_lane s.pool.lanes i).jobs ≤ (get_lane s.pool.lanes i).buffer
    pub ordered :
        (k : Text)
        → by_key k s.started ++ by_key k (get_lane s.pool.lanes (lane_for s.pool k)).jobs
          ≡ by_key k s.accepted

  pub by_key-append :
      (k : Text) (xs ys : List (Job A)) → by_key k (xs ++ ys) ≡ by_key k xs ++ by_key k ys
  unfolding by_key
  by_key-append k [] ys = refl
  by_key-append k (x ∷ xs) ys = ground (arith, by_key-append k xs ys)

  pub get_lane-set :
      (ls : List (Lane A)) (i j : ℕ) (l : Lane A)
      → i < length ls
      → get_lane (set ls i l) j ≡ (if nat_beq i j then l else get_lane ls j)
  get_lane-set [] i j l h = absurd (omega arith)
  get_lane-set (x ∷ xs) zero zero l h = refl
  get_lane-set (x ∷ xs) zero (suc j) l h = ground arith
  get_lane-set (x ∷ xs) (suc i) zero l h = ground arith
  get_lane-set (x ∷ xs) (suc i) (suc j) l h = get_lane-set xs i j l (omega arith) ∙ ground arith

  pub Placed-append :
      (n i : ℕ) (xs : List (Job A)) (job : Job A)
      → Placed n i xs
      → sum32 job.key % n ≡ i
      → Placed n i (xs ++ job ∷ [])
  Placed-append n i [] job p h = (h, tt)
  Placed-append n i (x ∷ xs) job p h = (p.0, Placed-append n i xs job p.1 h)

  pub other_key :
      (k : Text) (job : Job A) (n : ℕ) → sum32 job.key % n ≢ sum32 k % n → by_key k (job ∷ []) ≡ []
  unfolding by_key
  other_key k job n h = elim (Bool-cases (job.key == k)) [
    | inl same ↦ absurd (h (ap (λ key. sum32 key % n) (eq_of_== job.key k same)))
    | inr apart ↦ rw apart
  ]

  pub set_cases :
      (ls : List (Lane A)) (i j : ℕ) (l : Lane A)
      → i < length ls
      → (i ≡ j) × (get_lane (set ls i l) j ≡ l)
        ⊎ (i ≢ j) × (get_lane (set ls i l) j ≡ get_lane ls j)
  set_cases ls i j l h = elim (Bool-cases (nat_beq i j)) [
    | inl same ↦ inl (ground arith, get_lane-set ls i j l h ∙ (rw same))
    | inr apart ↦ inr (ground arith, get_lane-set ls i j l h ∙ (rw apart))
  ]

  -- One lane changes, and with it the jobs that were accepted or started under the lane's keys.
  pub change-Inv :
      (s : System A) (i : ℕ) (l : Lane A) (accepted started : List (Job A))
      → Inv s
      → i < length s.pool.lanes
      → Placed (length s.pool.lanes) i l.jobs
      → length l.jobs ≤ l.buffer
      → ((k : Text)
          → lane_for s.pool k ≡ i
          → by_key k started ++ by_key k l.jobs ≡ by_key k accepted)
      → ((k : Text)
          → i ≢ lane_for s.pool k
          → (by_key k started ≡ by_key k s.started) × (by_key k accepted ≡ by_key k s.accepted))
      → Inv (record {
        pool = record s.pool { lanes = set s.pool.lanes i l };
        accepted = accepted;
        started = started;
      })
  unfolding lane_for
  change-Inv s i l accepted started inv h p r here apart = record {
    some_lane = omega (arith, length-set s.pool.lanes i l, inv.some_lane);
    placed = λ j.
        subst (λ n. Placed n j (get_lane (set s.pool.lanes i l) j).jobs)
          (sym (length-set s.pool.lanes i l))
          (elim (set_cases s.pool.lanes i j l h) [
            | inl (same, e) ↦
                subst (λ v. Placed (length s.pool.lanes) j v.jobs) (sym e)
                  (subst (λ a. Placed (length s.pool.lanes) a l.jobs) same p)
            | inr (other, e) ↦
                subst (λ v. Placed (length s.pool.lanes) j v.jobs) (sym e) (inv.placed j)
          ]);
    room = λ j. elim (set_cases s.pool.lanes i j l h) [
      | inl (same, e) ↦ subst (λ v. length v.jobs ≤ v.buffer) (sym e) r
      | inr (other, e) ↦ subst (λ v. length v.jobs ≤ v.buffer) (sym e) (inv.room j)
    ];
    ordered = λ k.
        subst
          (λ n.
            by_key k started ++ by_key k (get_lane (set s.pool.lanes i l) (sum32 k % n)).jobs
            ≡ by_key k accepted)
          (sym (length-set s.pool.lanes i l))
          (elim (set_cases s.pool.lanes i (lane_for s.pool k) l h) [
            | inl (same, e) ↦ ap (λ v. by_key k started ++ by_key k v.jobs) e ∙ here k (sym same)
            | inr (other, e) ↦
                ap (λ v. by_key k started ++ by_key k v.jobs) e
                ∙ ap (λ v. v ++ by_key k (get_lane s.pool.lanes (lane_for s.pool k)).jobs)
                    (apart k other).0
                ∙ inv.ordered k
                ∙ sym (apart k other).1
          ]);
  }

  pub by_key-other :
      (k : Text) (js : List (Job A)) (job : Job A) (n : ℕ)
      → sum32 job.key % n ≢ sum32 k % n
      → by_key k (js ++ job ∷ []) ≡ by_key k js
  by_key-other k js job n h =
      by_key-append k js (job ∷ [])
      ∙ ap (λ v. by_key k js ++ v) (other_key k job n h)
      ∙ append-nil (by_key k js)

  pub submit_cases :
      (key : Text) (a : A) (p : Pool A)
      → (submit key a p ≡ send_panics)
        ⊎ (submit key a p ≡ waits_for_room)
        ⊎ (length (get_lane p.lanes (lane_for p key)).jobs
            < (get_lane p.lanes (lane_for p key)).buffer)
          × (submit key a p
              ≡ sent (record p {
                lanes = set p.lanes (lane_for p key) (record (get_lane p.lanes (lane_for p key)) {
                  jobs =
                      (get_lane p.lanes (lane_for p key)).jobs
                      ++ (record { key = key; execute = a }) ∷ [];
                });
              }))
  unfolding submit lane_for
  submit_cases key a p = elim (Bool-cases p.closed) [
    | inl closed ↦ inl (simp (closed))
    | inr running ↦ elim (Bool-cases (is_full (get_lane p.lanes (lane_for p key)))) [
      | inl full ↦ inr (inl (simp (running, full)))
      | inr room ↦ inr (inr (ground arith, simp (running, room)))
    ]
  ]
