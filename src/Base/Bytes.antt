-- ===== src/Base/Bytes.antt =====
-- Go strings: sequences of bytes.
use Prim.Native.Nat.{ℕ, zero, suc, ◌+◌, ◌/◌, ◌%◌}
use Prim.Native.Char.{code}
use Prim.Native.String.{String}
use mathlib.Core.Path.{◌≡◌, refl}
use mathlib.Core.Bool.{Bool, true, false, ◌&&◌, ◌||◌}
use mathlib.Core.List.{List, [], ◌∷◌, ◌++◌, map}
use native.Mathlib.Omega.{arith}
use raider_worker.Base.Int.{ℤ, pos, negsuc}
use raider_worker.Base.Tests.{ltb, leb, if◌then◌else◌}
use raider_worker.Base.Equality.{list_eq, nat_eq, list_beq, ==_refl}

abbrev pub Text : Type 0
Text = List ℕ

-- The bytes of an ASCII literal.
abbrev pub text : String → Text
text String.[] = []
text (String.◌∷◌ c s) = code c ∷ text s

abbrev pub is_empty : Text → Bool
is_empty [] = true
is_empty (c ∷ s) = false

-- The ASCII part of the case folding by which encoding/json matches a member to a field.
abbrev pub lower : ℕ → ℕ
lower c = if leb b'A' c && leb c b'Z' then c + 32 else c

abbrev pub to_lower : Text → Text
to_lower = map lower

-- strings.HasSuffix: some rest of `s` is the suffix.
unfoldable pub has_suffix : Text → Text → Bool
has_suffix [] suffix = list_beq [] suffix
has_suffix (c ∷ s) suffix = list_beq (c ∷ s) suffix || has_suffix s suffix

pub has_suffix-append : (s suffix : Text) → has_suffix (s ++ suffix) suffix ≡ true
unfolding has_suffix
has_suffix-append [] [] = refl
has_suffix-append [] (c ∷ suffix) = ground (arith, ==_refl (c ∷ suffix))
has_suffix-append (c ∷ s) suffix = ground (arith, has_suffix-append s suffix)

-- The decimal digits of a number, with fuel for them.
unfoldable pub digits : ℕ → ℕ → Text
digits zero n = []
digits (suc fuel) n =
    let high = digits fuel (n / 10) in
    if ltb n 10 then (48 + n) ∷ [] else high ++ (48 + n % 10) ∷ []

-- `%d`. A number has fewer digits than its successor's value.
unfoldable pub decimal : ℤ → Text
unfolding digits
decimal (pos n) = digits (n + 1) n
decimal (negsuc n) = b'-' ∷ digits (n + 2) (n + 1)

decimal_300 : decimal (negsuc 299) ≡ text "-300"
unfolding decimal
decimal_300 = refl
