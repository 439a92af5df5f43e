-- ===== src/Recipients/Trailing.antt =====
-- Where `splitTrailingNumber` starts a run, and what it refuses.
use yarilo_loadtest.Base.{
  ℕ, zero, suc, ◌+◌, ◌≤◌, ◌<◌, ◌≡◌, refl, ◌∙◌, ap, append-nil, true, false, [], ◌∷◌, ◌++◌, some,
  arith, Bytes, All, ◌==◌, if◌then◌else◌, pos, get_or, take, drop, length, length-append,
}
use yarilo_loadtest.Base.Result.{ok, err}
use yarilo_loadtest.Text.Number.{is_digit, print_nat, read_digits, atoi, max_int}
use yarilo_loadtest.Text.Decimal.{
  IsDigit, print_nat-IsDigit, atoi-print_nat, print_nat-head, length-print_nat-pos, head_or,
  atoi-digits,
}
use yarilo_loadtest.Recipients.{
  starts_at_zero, zero_padded, digits_start, check_number, split_trailing_number,
}

-- The text does not end in a digit.
abbrev pub EndsPlain : Bytes → Type 0
EndsPlain [] = Unit {0}
EndsPlain (c ∷ []) = is_digit c ≡ false
EndsPlain (c ∷ d ∷ s) = EndsPlain (d ∷ s)

get_or-append : (p s : Bytes) (i j : ℕ) → j ≡ i + length p → get_or (p ++ s) j 0 ≡ get_or s i 0
get_or-append [] s i j e = ap (λ (k : ℕ). get_or s k 0) (omega arith)
get_or-append (c ∷ p) s i zero e = absurd (omega arith)
get_or-append (c ∷ p) s i (suc j) e = get_or-append p s i j (omega arith)

get_or-IsDigit : (s : Bytes) (i : ℕ) → All IsDigit s → i < length s → is_digit (get_or s i 0) ≡ true
get_or-IsDigit [] i d h = elim h [ ]
get_or-IsDigit (c ∷ s) zero d h = d.0
get_or-IsDigit (c ∷ s) (suc i) d h = get_or-IsDigit s i d.1 (omega arith)

take_append : (p s : Bytes) → take (length p) (p ++ s) ≡ p
take_append [] s = refl
take_append (c ∷ p) s = ap (◌∷◌ c) (take_append p s)

drop_append : (p s : Bytes) → drop (length p) (p ++ s) ≡ s
drop_append [] s = refl
drop_append (c ∷ p) s = drop_append p s

-- the last byte of such a text
last_plain :
    (c : ℕ) (p s : Bytes)
    → EndsPlain (c ∷ p)
    → is_digit (get_or ((c ∷ p) ++ s) (length p) 0) ≡ false
last_plain c [] s h = h
last_plain c (d ∷ p) s h = last_plain d p s h

-- the loop stops at once behind it
digits_start-EndsPlain : (p s : Bytes) → EndsPlain p → digits_start (p ++ s) (length p) ≡ length p
unfolding digits_start
digits_start-EndsPlain [] s h = refl
digits_start-EndsPlain (c ∷ p) s h = ground (arith, last_plain c p s h)

-- and walks back over digits
digits_start-digits :
    (p s : Bytes) (k j : ℕ)
    → All IsDigit s
    → k ≤ length s
    → j ≡ k + length p
    → digits_start (p ++ s) j ≡ digits_start (p ++ s) (length p)
unfolding digits_start
digits_start-digits p s zero j d h e = ap (digits_start (p ++ s)) (omega arith)
digits_start-digits p s (suc k) zero d h e = absurd (omega arith)
digits_start-digits p s (suc k) (suc j) d h e = ground (
  arith,
  get_or-append p s k j (omega arith),
  get_or-IsDigit s k d h,
  digits_start-digits p s k j d (omega arith) (omega arith),
)

-- A plain text followed by digits is taken apart there, and `check_number` decides.
split_trailing_number-append :
    (p s : Bytes)
    → EndsPlain p
    → All IsDigit s
    → 0 < length s
    → split_trailing_number (p ++ s) ≡ check_number p s (atoi s)
unfolding split_trailing_number
split_trailing_number-append p s h d l =
    let start : digits_start (p ++ s) (length (p ++ s)) ≡ length p =
      digits_start-digits p s (length s) (length (p ++ s)) d (omega arith)
        (omega (arith, length-append p s))
      ∙ digits_start-EndsPlain p s h in
    rw (start, take_append p s, drop_append p s) (ground (arith, length-append p s))

check_number-head :
    (p s : Bytes) (n : ℕ)
    → 0 < n
    → b'0' < head_or s 0
    → check_number p s (some (pos n)) ≡ ok (p, pos n)
unfolding check_number
check_number-head p [] n l h = absurd (omega arith)
check_number-head p (c ∷ s) n l h = ground arith

check_number-zero :
    (p s : Bytes) (n : ℕ)
    → read_digits s 0 ≡ some n
    → check_number p (b'0' ∷ s) (some (pos n))
      ≡ err (if n == 0 then starts_at_zero else zero_padded (b'0' ∷ s))
unfolding check_number read_digits
check_number-zero p [] n e = ground arith
check_number-zero p (c ∷ s) n e = ground arith

atoi-zero :
    (s : Bytes) (n : ℕ)
    → All IsDigit s
    → read_digits s 0 ≡ some n
    → n ≤ max_int
    → atoi (b'0' ∷ s) ≡ some (pos n)
unfolding read_digits
atoi-zero s n d e m = rw (atoi-digits (b'0' ∷ s) (omega arith) (refl, d)) (ground (arith, e))

-- A part that ends in the number n, from 1 to the largest `int`, is the text before it and n.
pub split_trailing_number-print_nat :
    (p : Bytes) (n : ℕ)
    → EndsPlain p
    → 0 < n
    → n ≤ max_int
    → split_trailing_number (p ++ print_nat n) ≡ ok (p, pos n)
split_trailing_number-print_nat p n h l m =
    rw
      (
        split_trailing_number-append p (print_nat n) h (print_nat-IsDigit n)
            (length-print_nat-pos n),
        atoi-print_nat n m,
      )
      (check_number-head p (print_nat n) n l (print_nat-head n l))

-- A part with no number at its end starts at 1.
pub split_trailing_number_plain :
    (p : Bytes) → EndsPlain p → split_trailing_number p ≡ ok (p, pos 1)
unfolding split_trailing_number
split_trailing_number_plain p h =
    let start : digits_start p (length p) ≡ length p =
      rw append-nil at (digits_start-EndsPlain p [] h) in
    ground (arith, start)

-- A zero in front of a number is refused: as a start at zero if nothing but zeros follows, and as
-- padding otherwise.
pub split_trailing_number_zero :
    (p s : Bytes) (n : ℕ)
    → EndsPlain p
    → All IsDigit s
    → read_digits s 0 ≡ some n
    → n ≤ max_int
    → split_trailing_number (p ++ b'0' ∷ s)
      ≡ err (if n == 0 then starts_at_zero else zero_padded (b'0' ∷ s))
split_trailing_number_zero p s n h d e m =
    rw (split_trailing_number-append p (b'0' ∷ s) h (refl, d) (omega arith), atoi-zero s n d e m)
      (check_number-zero p s n e)
