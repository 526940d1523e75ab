-- ===== src/Idempotency/RedisStore.antt =====
-- `RedisStore`: the claims as Redis keys.
use raider_worker.Event.Errors.{Result, GoError}
use raider_worker.Redis.{Redis}
use raider_worker.Time.{second}
use raider_worker.Base.{Bool, Option, Text, text, ℕ, ◌*◌, ◌++◌, ◌≡◌}
use raider_worker.Idempotency.{Store, Result, GoError}

-- 48 hours, in nanoseconds.
abbrev pub default_ttl : ℕ
default_ttl = 48 * 3600 * second

-- `key`.
unfoldable pub key : Text → Text
key event_id = text "idempotency:" ++ event_id

module _ (redis : Redis) where
  unfoldable pub try_acquire : Text → redis.State → Result Bool × redis.State
  try_acquire event_id s = redis.set_nx (key event_id) (text "processing") default_ttl s

  unfoldable pub release : Text → redis.State → Option GoError × redis.State
  release event_id s = redis.del (key event_id) s

  unfoldable pub claimed : Text → redis.State → Bool
  claimed event_id s = redis.exists (key event_id) s

  -- `RedisStore` keeps the contract of `Store`, over any client that keeps Redis's.
  unfoldable pub redis_store : Store
  unfolding try_acquire release claimed
  redis_store = record {
    State = redis.State;
    try_acquire = try_acquire;
    release = release;
    claimed = claimed;
    acquire_fresh = λ id s h. redis.set_nx_true (key id) (text "processing") default_ttl s h;
    acquire_taken = λ id s h. redis.set_nx_false (key id) (text "processing") default_ttl s h;
    release_frees = λ id s h. redis.del_removes (key id) s h;
  }

-- Two event ids have one claim only if they are the same.
pub key_injective : (a b : Text) → key a ≡ key b → a ≡ b
unfolding key
key_injective a b h = cc
