-- ===== src/Config/Numbers.antt =====
-- A number in the environment is read back as it was written.
use raider_worker.Config.Env.{
  scan_digits, is_digit, atoi, get_env_int, some_digits, plus_range, Env, minus_range,
}
use raider_worker.Base.{
  Text, Bool-cases, Option, [], arith, digits, if◌then◌else◌, inl, inr, ltb, none, some, suc, zero,
  ℕ, ◌%◌, ◌*◌, ◌++◌, ◌+◌, ◌-◌, ◌/◌, ◌<◌, ◌∷◌, ◌≡◌, ◌≤◌, ap, decimal, false, is_empty, max_int64,
  min_int64, negsuc, pos, refl, set, sym, ℤ, ◌∙◌, ◌≤ℤ◌,
}

abbrev digit_after : Option ℕ → ℕ → Option ℕ
digit_after none c = none
digit_after (some n) c = if is_digit c then some (n * 10 + (c - b'0')) else none

scan_digits-snoc :
    (s : Text) (c n : ℕ) → scan_digits (s ++ c ∷ []) n ≡ digit_after (scan_digits s n) c
unfolding scan_digits
scan_digits-snoc [] c n = ground arith
scan_digits-snoc (x ∷ s) c n = ground (arith, scan_digits-snoc s c (n * 10 + (x - b'0')))

scan-digits : (fuel n : ℕ) → n < fuel → scan_digits (digits fuel n) 0 ≡ some n
unfolding digits scan_digits
scan-digits zero n h = absurd (omega arith)
scan-digits (suc fuel) n h = elim (Bool-cases (ltb n 10)) [
  | inl small ↦ rw small (ground arith)
  | inr large ↦
      rw
        (
          large,
          scan_digits-snoc (digits fuel (n / 10)) (48 + n % 10) 0,
          scan-digits fuel (n / 10) (ground arith),
        )
        (ground arith)
]

-- The first byte of a number is a digit.
head_digit : (fuel n : ℕ) → n < fuel → (c : ℕ) × (s : Text) × (digits fuel n ≡ c ∷ s) × (b'0' ≤ c)
unfolding digits
head_digit zero n h = absurd (omega arith)
head_digit (suc fuel) n h = elim (Bool-cases (ltb n 10)) [
  | inl small ↦ (48 + n, [], rw small, omega arith)
  | inr large ↦
      let (c, s, e, low) = head_digit fuel (n / 10) (ground arith) in
      (c, s ++ (48 + n % 10) ∷ [], rw (large, e), low)
]

atoi_unsigned : (c : ℕ) (s : Text) → b'0' ≤ c → atoi (c ∷ s) ≡ plus_range (scan_digits (c ∷ s) 0)
unfolding atoi
atoi_unsigned c s h = ground arith

some_digits-digits : (fuel n : ℕ) → n < fuel → some_digits (digits fuel n) ≡ some n
some_digits-digits fuel n h =
    let (c, s, e, low) = head_digit fuel n h in
    ap some_digits e ∙ ap (λ t. scan_digits t 0) (sym e) ∙ scan-digits fuel n h

atoi-decimal : (z : ℤ) → min_int64 ≤ℤ z → z ≤ℤ max_int64 → atoi (decimal z) ≡ some z
unfolding decimal
atoi-decimal (pos n) low high =
    let (c, s, e, digit) = head_digit (n + 1) n (omega arith) in
    ap atoi e
    ∙ atoi_unsigned c s digit
    ∙ ap (λ t. plus_range (scan_digits t 0)) (sym e)
    ∙ ap plus_range (scan-digits (n + 1) n (omega arith))
    ∙ ground arith
atoi-decimal (negsuc n) low high =
    unfold atoi in ap minus_range (some_digits-digits (n + 2) (n + 1) (omega arith)) ∙ ground arith

decimal-filled : (z : ℤ) → is_empty (decimal z) ≡ false
unfolding decimal
decimal-filled (pos n) = let (c, s, e, low) = head_digit (n + 1) n (omega arith) in rw e
decimal-filled (negsuc n) = refl

-- A variable that holds the decimal text of an int gives that int, whatever the fallback, the
-- largest and the smallest ints included.
pub get_env_int-decimal :
    (env : Env) (name : Text) (fallback z : ℤ)
    → env name ≡ decimal z
    → min_int64 ≤ℤ z
    → z ≤ℤ max_int64
    → get_env_int env name fallback ≡ z
unfolding get_env_int
get_env_int-decimal env name fallback z set low high =
    rw (set, decimal-filled z, atoi-decimal z low high)
