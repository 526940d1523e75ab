-- ===== src/Config/Secrets.antt =====
-- What the password of a connection string is for the client that parses it.
use raider_worker.Config.Env.{Env, get_env}
use raider_worker.Config.Uri.{query_escape, escape_byte, is_unreserved, hex_digit, build_redis_uri}
use raider_worker.Base.{
  Text, Bool-cases, Option, [], arith, bool_eq, false, if◌then◌else◌, inl, inr, int_eq, leb,
  list_eq, nat_eq, none, refl, some, unit_eq, ℕ, ◌&&◌, ◌*◌, ◌++◌, ◌+◌, ◌-◌, ◌<◌, ◌==◌, ◌∷◌, ◌≡◌, ap,
  map, ◌%◌, ◌/◌, ◌∙◌, is_empty, text, Bool, ◌||◌,
}

abbrev hex_value : ℕ → Option ℕ
hex_value c =
    if leb b'0' c && leb c b'9'
    then some (c - b'0')
    else if leb b'A' c && leb c b'F'
    then some (c - b'A' + 10)
    else if leb b'a' c && leb c b'f'
    then some (c - b'a' + 10)
    else none

abbrev from_hex : Option ℕ → Option ℕ → Option ℕ
from_hex (some a) (some b) = some (a * 16 + b)
from_hex a b = none

abbrev with_byte : Option ℕ → Option Text → Option Text
with_byte (some c) (some s) = some (c ∷ s)
with_byte c s = none

-- How net/url reads the user information of a URL: it decodes %XX, and takes every other byte as it
-- is, "+" too.
unfoldable pub unescape_userinfo : Text → Option Text
unescape_userinfo [] = some []
unescape_userinfo (c ∷ []) = if c == b'%' then none else some (c ∷ [])
unescape_userinfo (c ∷ d ∷ []) =
    if c == b'%' then none else with_byte (some c) (unescape_userinfo (d ∷ []))
unescape_userinfo (c ∷ d ∷ e ∷ s) =
    let escaped = with_byte (from_hex (hex_value d) (hex_value e)) (unescape_userinfo s) in
    let plain = with_byte (some c) (unescape_userinfo (d ∷ e ∷ s)) in
    if c == b'%' then escaped else plain

-- The bytes of a text are bytes.
abbrev pub IsBytes : Text → Type 0
IsBytes [] = Unit {0}
IsBytes (c ∷ s) = (c < 256) × IsBytes s

-- A space is the one byte that is lost.
abbrev pub space_to_plus : ℕ → ℕ
space_to_plus c = if c == b' ' then b'+' else c

unescape_plain :
    (c : ℕ) (s : Text)
    → (c == b'%') ≡ false
    → unescape_userinfo (c ∷ s) ≡ with_byte (some c) (unescape_userinfo s)
unfolding unescape_userinfo
unescape_plain c [] h = rw h
unescape_plain c (d ∷ []) h = rw h
unescape_plain c (d ∷ e ∷ s) h = rw h

unescape_hex :
    (d e : ℕ) (s : Text)
    → unescape_userinfo (b'%' ∷ d ∷ e ∷ s)
      ≡ with_byte (from_hex (hex_value d) (hex_value e)) (unescape_userinfo s)
unfolding unescape_userinfo
unescape_hex d e s = refl

hex_value-hex_digit : (n : ℕ) → n < 16 → hex_value (hex_digit n) ≡ some n
hex_value-hex_digit n h = ground arith

whole_byte :
    (c : ℕ)
    → c < 256
    → from_hex (hex_value (hex_digit (c / 16))) (hex_value (hex_digit (c % 16))) ≡ some c
whole_byte c h =
    let high = hex_value-hex_digit (c / 16) (omega arith) in
    let low = hex_value-hex_digit (c % 16) (omega arith) in
    cc (high, low, ap some (let e : c / 16 * 16 + c % 16 ≡ c = omega arith in e))

unescape-escape_byte :
    (c : ℕ) (s : Text)
    → c < 256
    → unescape_userinfo (escape_byte c ++ s)
      ≡ with_byte (some (space_to_plus c)) (unescape_userinfo s)
unescape-escape_byte c s h = elim (Bool-cases (c == b' ')) [
  | inl space ↦ rw space (unescape_plain b'+' s refl)
  | inr other ↦ elim (Bool-cases (is_unreserved c)) [
    | inl plain ↦ rw (other, plain) (unescape_plain c s (ground arith))
    | inr special ↦
        rw (other, special)
          (unescape_hex (hex_digit (c / 16)) (hex_digit (c % 16)) s
            ∙ ap (λ o. with_byte o (unescape_userinfo s)) (whole_byte c h))
  ]
]

unescape-escape :
    (s : Text) → IsBytes s → unescape_userinfo (query_escape s) ≡ some (map space_to_plus s)
unfolding query_escape
unescape-escape [] h = unfold unescape_userinfo in refl
unescape-escape (c ∷ s) h =
    unescape-escape_byte c (query_escape s) h.0
    ∙ ap (with_byte (some (space_to_plus c))) (unescape-escape s h.1)

-- The bytes that delimit the parts of a URL: the gen-delims of RFC 3986.
abbrev pub is_mark : ℕ → Bool
is_mark c = c == b':' || c == b'/' || c == b'?' || c == b'#' || c == b'[' || c == b']' || c == b'@'

abbrev pub HasNoMark : Text → Type 0
HasNoMark [] = Unit {0}
HasNoMark (c ∷ s) = (is_mark c ≡ false) × HasNoMark s

HasNoMark-append : (s t : Text) → HasNoMark s → HasNoMark t → HasNoMark (s ++ t)
HasNoMark-append [] t p q = q
HasNoMark-append (c ∷ s) t p q = (p.0, HasNoMark-append s t p.1 q)

hex_digit_unmarked : (n : ℕ) → n < 16 → is_mark (hex_digit n) ≡ false
hex_digit_unmarked n h = ground arith

escape_byte-HasNoMark : (c : ℕ) → c < 256 → HasNoMark (escape_byte c)
escape_byte-HasNoMark c h = elim (Bool-cases (c == b' ')) [
  | inl space ↦ rw space (refl, tt)
  | inr other ↦ elim (Bool-cases (is_unreserved c)) [
    | inl plain ↦ rw (other, plain) (ground arith, tt)
    | inr special ↦
        let high = hex_digit_unmarked (c / 16) (omega arith) in
        let low = hex_digit_unmarked (c % 16) (omega arith) in
        rw (other, special) (refl, (high, (low, tt)))
  ]
]

query_escape-HasNoMark : (s : Text) → IsBytes s → HasNoMark (query_escape s)
unfolding query_escape
query_escape-HasNoMark [] h = tt
query_escape-HasNoMark (c ∷ s) h =
    HasNoMark-append (escape_byte c) (query_escape s) (escape_byte-HasNoMark c h.0)
      (query_escape-HasNoMark s h.1)

-- With a host and a password in the environment, the password stands between ":" and "@" in the
-- Redis URI as a text that has none of the bytes that delimit the parts of a URL, ":", "/", "?",
-- "#", "[", "]" and "@", and a client that decodes that text gets the password back, except that
-- each space in it has become a "+".
pub redis_password_read_back :
    (env : Env)
    → is_empty (env (text "REDIS_HOST")) ≡ false
    → is_empty (env (text "REDIS_PASSWORD")) ≡ false
    → IsBytes (env (text "REDIS_PASSWORD"))
    → (secret : Text) × (build_redis_uri env
        ≡ text "redis://:"
          ++ (secret
              ++ (text "@"
                  ++ (env (text "REDIS_HOST")
                      ++ (text ":" ++ get_env env (text "REDIS_PORT") (text "6379"))))))
      × HasNoMark secret
      × (unescape_userinfo secret ≡ some (map space_to_plus (env (text "REDIS_PASSWORD"))))
unfolding build_redis_uri
redis_password_read_back env host password bytes = (
  query_escape (env (text "REDIS_PASSWORD")),
  rw (host, password),
  query_escape-HasNoMark (env (text "REDIS_PASSWORD")) bytes,
  unescape-escape (env (text "REDIS_PASSWORD")) bytes,
)
