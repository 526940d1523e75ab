-- ===== src/Config/Tests.antt =====
-- An environment, and what is read from it.
use raider_worker.Base.{
  Text, [], arith, bool_eq, decimal, if◌then◌else◌, int_eq, list_eq, map, nat_eq, negsuc, pos, refl,
  some, text, unit_eq, ◌++◌, ◌==◌, ◌≡◌,
}
use raider_worker.Config.Env.{Env, get_env, get_env_int}
use raider_worker.Config.Uri.{build_redis_uri}
use raider_worker.Config.Numbers.{get_env_int-decimal}
use raider_worker.Config.Secrets.{
  redis_password_read_back, HasNoMark, IsBytes, unescape_userinfo, space_to_plus,
}

-- RETRY_MAX is -12, and the password of Redis has a space and an "@" in it.
abbrev sample_env : Env
sample_env name =
    if name == text "RETRY_MAX"
    then decimal (negsuc 11)
    else if name == text "REDIS_HOST"
    then text "cache"
    else if name == text "REDIS_PASSWORD"
    then text "p @"
    else []

get_env_int-decimal_example : get_env_int sample_env (text "RETRY_MAX") (pos 5) ≡ negsuc 11
get_env_int-decimal_example =
    get_env_int-decimal sample_env (text "RETRY_MAX") (pos 5) (negsuc 11) refl (omega arith)
      (omega arith)

bytes : IsBytes (text "p @")
bytes = (omega arith, (omega arith, (omega arith, tt)))

redis_password_read_back_example :
    (secret : Text) × (build_redis_uri sample_env
      ≡ text "redis://:"
        ++ (secret
            ++ (text "@"
                ++ (text "cache"
                    ++ (text ":" ++ get_env sample_env (text "REDIS_PORT") (text "6379"))))))
    × HasNoMark secret
    × (unescape_userinfo secret ≡ some (map space_to_plus (text "p @")))
redis_password_read_back_example = redis_password_read_back sample_env refl refl bytes
