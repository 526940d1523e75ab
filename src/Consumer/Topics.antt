-- ===== src/Consumer/Topics.antt =====
-- Every topic that the worker subscribes to is served.
use raider_worker.Config.Env.{Env}
use raider_worker.WorkerPool.Order.{length-make_lanes, at_least_one-pos, lane_for-lt}
use raider_worker.Consumer.Returns.{IsOpen}
use raider_worker.Consumer.Dispatch.{Work}
use mathlib.Core.Option.{some-injective}
use raider_worker.Consumer.Pools.{buffer_per_lane, pool_with, new_pools, all_topics}
use raider_worker.Config.Load.{WorkerConfig, load}
use raider_worker.WorkerPool.Pool.{
  Pool, make_lanes, is_lane_full, at_least_one, lane_for, is_full, get_lane,
}
use raider_worker.WorkerPool.Pool as WorkerPool
use raider_worker.Base.{
  Text, ℤ, >>=-eq-some, Map, [], pos, some, sym, text, ◌∷◌, ◌≡◌, ◌≤ℤ◌, Option, arith, none, refl,
  Bool-cases, List, bool_eq, elem, eq_of_==, false, inl, inr, int_eq, list_eq, lookup, nat_eq,
  subst, suc, true, unit_eq, zero, ℕ, ◌<◌, ◌==◌, has_suffix, ◌⊎◌,
}

enough_buffer : (queue lane_count b : ℤ) → buffer_per_lane queue lane_count ≡ some b → pos 50 ≤ℤ b
unfolding buffer_per_lane
enough_buffer queue lane_count b h = ground arith

module _ {ℓ} {A : Type ℓ} where
  -- How a pool was made.
  pub record IsMade (lane_count : ℤ) (pool : Pool A) : Type ℓ where
    pub buffer : ℤ
    pub enough : pos 50 ≤ℤ buffer
    pub same : pool ≡ WorkerPool.new lane_count buffer

  pool_with-IsMade :
      (queue lane_count : ℤ) (pool : Pool A)
      → pool_with lane_count (buffer_per_lane queue lane_count) ≡ some pool
      → IsMade lane_count pool
  pool_with-IsMade queue lane_count pool h =
      from_buffer (buffer_per_lane queue lane_count) (enough_buffer queue lane_count) h
    where
      from_buffer :
          (o : Option ℤ)
          → ((b : ℤ) → o ≡ some b → pos 50 ≤ℤ b)
          → pool_with lane_count o ≡ some pool
          → IsMade lane_count pool
      from_buffer none e h = absurd (cc)
      from_buffer (some b) e h = record {
        buffer = b;
        enough = e b refl;
        same = sym (some-injective _ _ h);
      }

  -- How `New` went through.
  pub record IsBuilt (w : WorkerConfig) (pools : Map Text (Pool A)) : Type ℓ where
    pub cases : Pool A
    pub payments : Pool A
    pub visits : Pool A
    pub notifications : Pool A
    pub cases_made : IsMade w.case_count cases
    pub payments_made : IsMade w.payment_count payments
    pub visits_made : IsMade w.visit_count visits
    pub notifications_made : IsMade w.notification_count notifications
    pub same :
        pools
        ≡ (text "cases", cases)
          ∷ (text "payments", payments)
          ∷ (text "visits", visits)
          ∷ (text "notifications", notifications)
          ∷ []

  pub new_pools-IsBuilt :
      (w : WorkerConfig) (pools : Map Text (Pool A)) → new_pools w ≡ some pools → IsBuilt w pools
  unfolding new_pools
  new_pools-IsBuilt w pools h =
      let (cases, c, h1) =
        >>=-eq-some (pool_with w.case_count (buffer_per_lane w.queue_buffer_size w.case_count)) _
          h in
      let (payments, p, h2) =
        >>=-eq-some
          (pool_with w.payment_count (buffer_per_lane w.queue_buffer_size w.payment_count)) _ h1 in
      let (visits, v, h3) =
        >>=-eq-some (pool_with w.visit_count (buffer_per_lane w.queue_buffer_size w.visit_count)) _
          h2 in
      let (notifications, n, h4) =
        >>=-eq-some
          (pool_with w.notification_count
            (buffer_per_lane w.queue_buffer_size w.notification_count))
          _ h3 in
      record {
        cases = cases;
        payments = payments;
        visits = visits;
        notifications = notifications;
        cases_made = pool_with-IsMade w.queue_buffer_size w.case_count cases c;
        payments_made = pool_with-IsMade w.queue_buffer_size w.payment_count payments p;
        visits_made = pool_with-IsMade w.queue_buffer_size w.visit_count visits v;
        notifications_made =
            pool_with-IsMade w.queue_buffer_size w.notification_count notifications n;
        same = sym (some-injective _ _ h4);
      }

abbrev All {ℓ κ} : {A : Type ℓ} → (A → Type κ) → List A → Type κ
All P [] = Unit
All P (x ∷ xs) = P x × All P xs

All-elem {κ} : (P : Text → Type κ) (x : Text) (xs : List Text) → All P xs → elem x xs ≡ true → P x
All-elem P x [] all h = absurd (cc)
All-elem P x (y ∷ ys) all h = elim (Bool-cases (y == x)) [
  | inl same ↦ subst P (eq_of_== y x same) all.0
  | inr other ↦ All-elem P x ys all.1 (ground arith)
]

new_lane_room :
    (n b i : ℕ) → i < n → 0 < b → is_full (get_lane (make_lanes {A = Work} n b) i) ≡ false
unfolding make_lanes
new_lane_room zero b i h p = absurd (omega arith)
new_lane_room (suc n) b zero h p = ground arith
new_lane_room (suc n) b (suc i) h p = new_lane_room n b i (omega arith) p

lane_exists :
    (lane_count buffer : ℤ) (key : Text)
    → lane_for (WorkerPool.new {A = Work} lane_count buffer) key < at_least_one lane_count
unfolding WorkerPool.new
lane_exists lane_count buffer key =
    let count = length-make_lanes Work (at_least_one lane_count) (at_least_one buffer) in
    omega (
      arith,
      count,
      at_least_one-pos lane_count,
      lane_for-lt key (WorkerPool.new {A = Work} lane_count buffer),
    )

new-IsOpen : (lane_count buffer : ℤ) → IsOpen (WorkerPool.new lane_count buffer)
unfolding WorkerPool.new is_lane_full
new-IsOpen lane_count buffer = record {
  running = refl;
  room = λ key.
      new_lane_room (at_least_one lane_count) (at_least_one buffer)
        (lane_for (WorkerPool.new {A = Work} lane_count buffer) key)
        (lane_exists lane_count buffer key) (at_least_one-pos buffer);
}

-- A pool for the topic, that runs and has room in every lane.
abbrev Served : Map Text (Pool Work) → Text → Type 0
Served pools topic = (pool : Pool Work) × (lookup topic pools ≡ some pool) × IsOpen pool

IsMade-IsOpen : {lane_count : ℤ} {pool : Pool Work} → IsMade lane_count pool → IsOpen pool
IsMade-IsOpen {lane_count} m = subst IsOpen (sym m.same) (new-IsOpen lane_count m.buffer)

abbrev IsServed : Map Text (Pool Work) → Text → Type 0
IsServed pools topic = (has_suffix topic (text ".retry") ≡ true) ⊎ Served pools topic

built_topics :
    (env : Env) {pools : Map Text (Pool Work)} (b : IsBuilt (load env).workers pools)
    → All
        (IsServed (
          (text "cases", b.cases)
          ∷ (text "payments", b.payments)
          ∷ (text "visits", b.visits)
          ∷ (text "notifications", b.notifications)
          ∷ []))
        (all_topics (load env))
unfolding load all_topics has_suffix lookup
built_topics env b = (
  inr (b.cases, refl, IsMade-IsOpen b.cases_made),
  (
    inr (b.payments, refl, IsMade-IsOpen b.payments_made),
    (
      inr (b.visits, refl, IsMade-IsOpen b.visits_made),
      (
        inr (b.notifications, refl, IsMade-IsOpen b.notifications_made),
        (inl refl, (inl refl, (inl refl, (inl refl, tt)))),
      ),
    ),
  ),
)

-- Every topic that the worker subscribes to is served, in every environment in which `New` does not
-- panic: it is a retry topic, which goes to the scheduler, or it has a worker pool, which runs and
-- has room in every lane.
pub topics_served :
    (env : Env) (pools : Map Text (Pool Work)) (topic : Text)
    → new_pools (load env).workers ≡ some pools
    → elem topic (all_topics (load env)) ≡ true
    → (has_suffix topic (text ".retry") ≡ true)
      ⊎ ((pool : Pool Work) × (lookup topic pools ≡ some pool) × IsOpen pool)
topics_served env pools topic h e =
    All-elem (IsServed pools) topic (all_topics (load env))
      (subst (λ m. All (IsServed m) (all_topics (load env)))
        (sym (new_pools-IsBuilt (load env).workers pools h).same)
        (built_topics env (new_pools-IsBuilt (load env).workers pools h)))
      e
