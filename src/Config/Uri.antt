-- ===== src/Config/Uri.antt =====
-- The connection strings: `buildRedisURI`, `buildMongoURI`, `resolveMongoDatabase`.
use raider_worker.Config.Env.{Env, get_env}
use raider_worker.Base.{
  Text, Bool, [], bool_eq, if◌then◌else◌, int_eq, is_empty, leb, list_eq, ltb, nat_eq, text,
  unit_eq, ℕ, ◌%◌, ◌&&◌, ◌++◌, ◌+◌, ◌-◌, ◌/◌, ◌==◌, ◌||◌, ◌∷◌,
}

-- The bytes that url.QueryEscape leaves as they are.
abbrev pub is_unreserved : ℕ → Bool
is_unreserved c =
    (leb b'a' c && leb c b'z')
    || (leb b'A' c && leb c b'Z')
    || (leb b'0' c && leb c b'9')
    || c == b'-'
    || c == b'_'
    || c == b'.'
    || c == b'~'

-- An upper-case hexadecimal digit.
abbrev pub hex_digit : ℕ → ℕ
hex_digit n = if ltb n 10 then b'0' + n else b'A' + (n - 10)

abbrev pub escape_byte : ℕ → Text
escape_byte c =
    if c == b' '
    then b'+' ∷ []
    else if is_unreserved c
    then c ∷ []
    else b'%' ∷ hex_digit (c / 16) ∷ hex_digit (c % 16) ∷ []

-- url.QueryEscape.
unfoldable pub query_escape : Text → Text
query_escape [] = []
query_escape (c ∷ s) = escape_byte c ++ query_escape s

-- `resolveMongoDatabase`.
unfoldable pub resolve_mongo_database : Env → Text
unfolding get_env
resolve_mongo_database env =
    let name = env (text "MONGODB_NAME") in
    if is_empty name then get_env env (text "MONGO_DATABASE") (text "debt_recovery") else name

-- `buildRedisURI`.
unfoldable pub build_redis_uri : Env → Text
unfolding get_env
build_redis_uri env =
    let host = env (text "REDIS_HOST") in
    let port = get_env env (text "REDIS_PORT") (text "6379") in
    let password = env (text "REDIS_PASSWORD") in
    if is_empty host
    then get_env env (text "REDIS_URI") (text "redis://localhost:6379")
    else if is_empty password
    then text "redis://" ++ (host ++ (text ":" ++ port))
    else text "redis://:" ++ (query_escape password ++ (text "@" ++ (host ++ (text ":" ++ port))))

abbrev pub mongo_options : Text
mongo_options = text "?retryWrites=true&w=majority&tls=true"

-- `buildMongoURI`.
unfoldable pub build_mongo_uri : Env → Text
unfolding get_env resolve_mongo_database
build_mongo_uri env =
    let host = env (text "MONGODB_HOST") in
    let db_name = resolve_mongo_database env in
    let user = env (text "MONGODB_USER") in
    let password = env (text "MONGODB_PASSWORD") in
    if is_empty host
    then get_env env (text "MONGO_URI") (text "mongodb://localhost:27017")
    else if is_empty user || is_empty password
    then text "mongodb+srv://" ++ (host ++ (text "/" ++ (db_name ++ mongo_options)))
    else text "mongodb+srv://"
      ++ (query_escape user
          ++ (text ":"
              ++ (query_escape password
                  ++ (text "@" ++ (host ++ (text "/" ++ (db_name ++ mongo_options)))))))
