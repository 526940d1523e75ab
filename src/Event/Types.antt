-- ===== src/Event/Types.antt =====
-- internal/event/types.go: the event, the raw message, and the values that a context carries.
use raider_worker.Base.{List, Option, Text, ℤ, ◌∷◌}
use raider_worker.Event.Errors.{GoError}
use raider_worker.Json.{Json, Payload}
use raider_worker.Time.{Time}

-- `data` is the nil slice, or a JSON value.
pub record Event : Type 0 where
  pub version : ℤ
  pub event_id : Text
  pub event_type : Text
  pub tenant_id : Text
  pub timestamp : Time
  pub payload : Option Json
  pub topic : Text
  pub partition : ℤ
  pub offset : ℤ
  pub retry_count : ℤ
  pub failure_reason : Text
  pub first_failure_time : Option Time

pub record RawMessage : Type 0 where
  pub topic : Text
  pub partition : ℤ
  pub offset : ℤ
  pub key : Text
  pub value : Payload

-- The context keys.
pub data CtxKey : Type 0 where
  ctx_tenant_id ctx_event_id ctx_topic ctx_partition ctx_offset : CtxKey
  ctx_processing_start ctx_processor : CtxKey

pub data CtxValue : Type 0 where
  string : Text → CtxValue
  number : ℤ → CtxValue
  instant : Time → CtxValue

-- A context as the values that were put into it, the last one first, and its deadline.
pub record Context : Type 0 where
  pub values : List (CtxKey × CtxValue)
  pub deadline : Option Time

abbrev pub with_value : Context → CtxKey → CtxValue → Context
with_value ctx k v = record ctx { values = (k, v) ∷ ctx.values }

-- `EnrichContext`; `now` is the reading of the clock.
unfoldable pub enrich_context : Context → Event → Text → Time → Context
enrich_context ctx e processor_name now =
    let ctx1 = with_value ctx ctx_tenant_id (string e.tenant_id) in
    let ctx2 = with_value ctx1 ctx_event_id (string e.event_id) in
    let ctx3 = with_value ctx2 ctx_topic (string e.topic) in
    let ctx4 = with_value ctx3 ctx_partition (number e.partition) in
    let ctx5 = with_value ctx4 ctx_offset (number e.offset) in
    let ctx6 = with_value ctx5 ctx_processing_start (instant now) in
    with_value ctx6 ctx_processor (string processor_name)

-- What a processor's `Process` does: it returns an error or nil, or it panics.
pub data Outcome : Type 0 where
  returned : Option GoError → Outcome
  panicked : Text → Outcome

-- `Processor`, for a handler whose effects stay inside it.
abbrev pub Processor : Type 0
Processor = Context → Event → Outcome
