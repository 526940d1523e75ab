-- ===== src/Config/Env.antt =====
-- `getEnv`, `getEnvInt` and `getEnvBool`, with the parts of strconv that they call.
use raider_worker.Base.{
  Text, ℕ, ℤ, Bool, Option, [], bool_eq, elem, false, if◌then◌else◌, int_eq, is_empty, leb, list_eq,
  nat_eq, negsuc, none, pos, refl, some, sub_ℕ, text, true, unit_eq, ◌&&◌, ◌*◌, ◌+◌, ◌-◌, ◌==◌, ◌∷◌,
  ◌≡◌,
}

-- os.Getenv: the empty text for a variable that is not set.
abbrev pub Env : Type 0
Env = Text → Text

unfoldable pub get_env : Env → Text → Text → Text
get_env env key fallback = let v = env key in if is_empty v then fallback else v

abbrev pub is_digit : ℕ → Bool
is_digit c = leb b'0' c && leb c b'9'

-- The number that digits spell behind `n`; nothing at a byte that is no digit.
unfoldable pub scan_digits : Text → ℕ → Option ℕ
scan_digits [] n = some n
scan_digits (c ∷ s) n = if is_digit c then scan_digits s (n * 10 + (c - b'0')) else none

abbrev pub plus_range : Option ℕ → Option ℤ
plus_range none = none
plus_range (some n) = if leb n 0x7fffffffffffffff then some (pos n) else none

abbrev pub minus_range : Option ℕ → Option ℤ
minus_range none = none
minus_range (some n) = if leb n 0x8000000000000000 then some (sub_ℕ 0 n) else none

-- One digit at least, then digits only.
abbrev pub some_digits : Text → Option ℕ
some_digits [] = none
some_digits (c ∷ s) = scan_digits (c ∷ s) 0

-- strconv.Atoi: an optional sign and decimal digits, in the range of an int.
unfoldable pub atoi : Text → Option ℤ
unfolding scan_digits
atoi [] = none
atoi (c ∷ s) =
    if c == b'-'
    then minus_range (some_digits s)
    else if c == b'+'
    then plus_range (some_digits s)
    else plus_range (some_digits (c ∷ s))

-- strconv.ParseBool.
unfoldable pub parse_bool : Text → Option Bool
parse_bool s =
    if elem s (text "1" ∷ text "t" ∷ text "T" ∷ text "true" ∷ text "TRUE" ∷ text "True" ∷ [])
    then some true
    else if elem s
        (text "0" ∷ text "f" ∷ text "F" ∷ text "false" ∷ text "FALSE" ∷ text "False" ∷ [])
    then some false
    else none

abbrev pub or_fallback {ℓ} : {A : Type ℓ} → Option A → A → A
or_fallback none fallback = fallback
or_fallback (some a) fallback = a

-- A variable that is empty is as good as one that is not set.
unfoldable pub get_env_int : Env → Text → ℤ → ℤ
unfolding atoi
get_env_int env key fallback =
    let v = env key in if is_empty v then fallback else or_fallback (atoi v) fallback

unfoldable pub get_env_bool : Env → Text → Bool → Bool
unfolding parse_bool
get_env_bool env key fallback =
    let v = env key in if is_empty v then fallback else or_fallback (parse_bool v) fallback

atoi_runs :
    (atoi (text "-120") ≡ some (negsuc 119))
    × (atoi (text "+7") ≡ some (pos 7))
    × (atoi (text "9223372036854775808") ≡ none)
    × (atoi (text "-9223372036854775808") ≡ some (negsuc 0x7fffffffffffffff))
    × (atoi (text "1_000") ≡ none)
unfolding atoi
atoi_runs = (refl, refl, refl, refl, refl)
