-- ===== src/Consumer/Shutdown.antt =====
-- When `New` panics, and what `Stop` does to a dispatch that is still under way.
use raider_worker.Event.Affinity.{affinity_key}
use raider_worker.Event.Envelope.{parse_and_validate}
use raider_worker.Event.Types.{Processor, RawMessage, Event}
use raider_worker.Registry.{VersionKey}
use raider_worker.Retry.ScheduleRedis.{ScheduleRedis}
use raider_worker.Time.{TimeText, Time}
use mathlib.Core.Option
use raider_worker.Base.{
  Text, Map, Option, ap, bool_eq, false, has_suffix, int_eq, list_eq, lookup, lookup-remap, nat_eq,
  none, pos, refl, some, text, unit_eq, ℤ, ◌↔◌, ◌∙◌, ◌≡◌, ◌⊎◌, [], arith, inl, inr, ◌∷◌, ◌>>=◌,
}
use raider_worker.Config.Load.{WorkerConfig}
use raider_worker.Consumer.Pools.{buffer_per_lane, pool_with, new_pools, stop_pools}
use raider_worker.Consumer.Dispatch.{
  World, Work, panics, dispatch, after_parse, after_resolve, after_pool, after_submit,
}
use raider_worker.Registry as Registry
use raider_worker.Event.Errors.{ok}
use raider_worker.WorkerPool.Pool.{Pool, submit, stop, send_panics}

pool_panics :
    {A : Type 0} (queue lane_count : ℤ)
    → (pool_with {A = A} lane_count (buffer_per_lane queue lane_count) ≡ none)
      ↔ (lane_count ≡ pos 0)
unfolding buffer_per_lane
pool_panics queue lane_count = ground (arith, int_eq.beq_iff lane_count (pos 0))

four_panic :
    {A B : Type 0} (g : A → A → A → A → B) (a b c d : Option A)
    → (a >>= λ a. b >>= λ b. c >>= λ c. d >>= λ d. some (g a b c d)) ≡ none
      ↔ ((a ≡ none) ⊎ (b ≡ none) ⊎ (c ≡ none) ⊎ (d ≡ none))
four_panic g none b c d = (λ _. inl refl, λ _. refl)
four_panic g (some a) none c d = (λ _. inr (inl refl), λ _. refl)
four_panic g (some a) (some b) none d = (λ _. inr (inr (inl refl)), λ _. refl)
four_panic g (some a) (some b) (some c) none = (λ _. inr (inr (inr refl)), λ _. refl)
four_panic g (some a) (some b) (some c) (some d) = (λ h. absurd (cc), λ h. absurd (ground arith))

-- `New` panics exactly when one of the four worker counts is 0.
pub new_pools_panics :
    {A : Type 0} (w : WorkerConfig)
    → (new_pools {A = A} w ≡ none) ↔ (
        (w.case_count ≡ pos 0)
        ⊎ (w.payment_count ≡ pos 0)
        ⊎ (w.visit_count ≡ pos 0)
        ⊎ (w.notification_count ≡ pos 0))
unfolding new_pools
new_pools_panics {A} w =
    let cases = pool_panics {A = A} w.queue_buffer_size w.case_count in
    let payments = pool_panics {A = A} w.queue_buffer_size w.payment_count in
    let visits = pool_panics {A = A} w.queue_buffer_size w.visit_count in
    let notifications = pool_panics {A = A} w.queue_buffer_size w.notification_count in
    let chain =
      four_panic {A = Pool A}
        (λ a b c d.
          (text "cases", a)
          ∷ (text "payments", b)
          ∷ (text "visits", c)
          ∷ (text "notifications", d)
          ∷ [])
        (pool_with w.case_count (buffer_per_lane w.queue_buffer_size w.case_count))
        (pool_with w.payment_count (buffer_per_lane w.queue_buffer_size w.payment_count))
        (pool_with w.visit_count (buffer_per_lane w.queue_buffer_size w.visit_count))
        (pool_with w.notification_count
          (buffer_per_lane w.queue_buffer_size w.notification_count)) in
    (
      λ h. elim (chain.0 h) [
        | inl a ↦ inl (cases.0 a)
        | inr (inl b) ↦ inr (inl (payments.0 b))
        | inr (inr (inl c)) ↦ inr (inr (inl (visits.0 c)))
        | inr (inr (inr d)) ↦ inr (inr (inr (notifications.0 d)))
      ],
      λ h. chain.1 (elim h [
        | inl a ↦ inl (cases.1 a)
        | inr (inl b) ↦ inr (inl (payments.1 b))
        | inr (inr (inl c)) ↦ inr (inr (inl (visits.1 c)))
        | inr (inr (inr d)) ↦ inr (inr (inr (notifications.1 d)))
      ]),
    )

lookup-stop_pools :
    (topic : Text) (pools : Map Text (Pool Work)) (pool : Pool Work)
    → lookup topic pools ≡ some pool
    → lookup topic (stop_pools pools) ≡ some (stop pool)
unfolding stop_pools
lookup-stop_pools topic pools pool h =
    lookup-remap (λ _ p. stop p) topic pools ∙ ap (Option.map stop) h

submit-stop :
    (key : Text) (work : Work) (pool : Pool Work) → submit key work (stop pool) ≡ send_panics
unfolding submit stop
submit-stop key work pool = refl

module _ ⦃times : TimeText⦄ (redis : ScheduleRedis) (processors : Map VersionKey Processor)
    (now : Time) (raw : RawMessage) where
  -- A dispatch that reaches a pool after `Stop` panics: `Stop` closes the lanes at once, while the
  -- poll loop may still dispatch the records of its last poll.
  pub dispatch_after_stop :
      (w : World redis) (e : Event) (processor : Processor) (pool : Pool Work)
      → has_suffix raw.topic (text ".retry") ≡ false
      → parse_and_validate raw ≡ ok e
      → Registry.resolve e.event_type e.version processors ≡ ok processor
      → lookup raw.topic w.pools ≡ some pool
      → dispatch redis processors now raw (record w { pools = stop_pools w.pools }) ≡ panics
  unfolding dispatch after_parse after_resolve after_pool after_submit
  dispatch_after_stop w e processor pool main parses resolves found =
      rw (main, parses, resolves, lookup-stop_pools raw.topic w.pools pool found)
        (ap (λ r. after_submit redis raw.topic r (record w { pools = stop_pools w.pools }))
          (submit-stop (affinity_key e) _ pool))
