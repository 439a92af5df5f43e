-- ===== src/Text/Decimal.antt =====
-- Printed numbers and how they are read.
use yarilo_loadtest.Base.{
  ℕ, zero, suc, ◌+◌, ◌/◌, ◌%◌, ◌≤◌, ◌<◌, ◌≡◌, refl, true, [], ◌∷◌, none, some, arith, Bytes, length,
  All, pos, leb, ◌>>=◌, if◌then◌else◌,
}
use yarilo_loadtest.Text.Laws.{Solid}
use yarilo_loadtest.Text.Number.{is_digit, emit, print_nat, read_digits, max_int, atoi}

abbrev pub IsDigit : ℕ → Type 0
IsDigit c = is_digit c ≡ true

read_digits-emit :
    (fuel n : ℕ) (out : Bytes) → n ≤ fuel → read_digits (emit fuel n out) 0 ≡ read_digits out n
unfolding emit read_digits
read_digits-emit zero n out h = ground arith
read_digits-emit (suc fuel) n out h =
    ground (arith, read_digits-emit fuel (n / 10) ((b'0' + n % 10) ∷ out))

-- What is printed is read back.
pub read_digits-print_nat : (n : ℕ) → read_digits (print_nat n) 0 ≡ some n
unfolding print_nat read_digits
read_digits-print_nat n = ground (arith, read_digits-emit n n [])

emit-IsDigit : (fuel n : ℕ) (out : Bytes) → All IsDigit out → All IsDigit (emit fuel n out)
unfolding emit
emit-IsDigit zero n out h = h
emit-IsDigit (suc fuel) n out h = ground (arith, emit-IsDigit fuel (n / 10) ((b'0' + n % 10) ∷ out))

pub print_nat-IsDigit : (n : ℕ) → All IsDigit (print_nat n)
unfolding print_nat
print_nat-IsDigit n = ground (arith, emit-IsDigit n n [])

-- The first byte of a text, if it has one.
abbrev pub head_or : Bytes → ℕ → ℕ
head_or [] d = d
head_or (c ∷ s) d = c

emit-zero : (fuel : ℕ) (out : Bytes) → emit fuel 0 out ≡ out
unfolding emit
emit-zero zero out = refl
emit-zero (suc fuel) out = refl

emit-head : (fuel n : ℕ) (out : Bytes) → 0 < n → n ≤ fuel → b'0' < head_or (emit fuel n out) 0
unfolding emit
emit-head zero n out p h = absurd (omega arith)
emit-head (suc fuel) n out p h =
    let rest = (b'0' + n % 10) ∷ out in
    ground (arith, emit-head fuel (n / 10) rest, emit-zero fuel rest)

-- A positive number is printed with no leading zero.
pub print_nat-head : (n : ℕ) → 0 < n → b'0' < head_or (print_nat n) 0
unfolding print_nat
print_nat-head n h = ground (arith, emit-head n n [] h)

pos-of-head : (s : Bytes) → b'0' < head_or s 0 → 0 < length s
pos-of-head [] h = absurd (omega arith)
pos-of-head (c ∷ s) h = omega arith

pub length-print_nat-pos : (n : ℕ) → 0 < length (print_nat n)
length-print_nat-pos zero = unfold print_nat in omega arith
length-print_nat-pos (suc n) = pos-of-head _ (print_nat-head (suc n) (omega arith))

-- Behind no sign `Atoi` is the reading of the digits, with the range test.
pub atoi-digits :
    (s : Bytes)
    → 0 < length s
    → All IsDigit s
    → atoi s ≡ (read_digits s 0 >>= λ n. if leb n max_int then some (pos n) else none)
unfolding atoi
atoi-digits [] h d = absurd (omega arith)
atoi-digits (c ∷ s) h d = ground arith

-- `Atoi` reads back what `%d` printed, for every `int` that is not negative.
pub atoi-print_nat : (n : ℕ) → n ≤ max_int → atoi (print_nat n) ≡ some (pos n)
atoi-print_nat n h =
    rw (atoi-digits _ (length-print_nat-pos n) (print_nat-IsDigit n), read_digits-print_nat n)
      (ground arith)

-- Digits are no white space.
pub IsDigit-Solid : (s : Bytes) → All IsDigit s → Solid s
IsDigit-Solid [] h = tt
IsDigit-Solid (c ∷ s) h = (ground arith, IsDigit-Solid s h.1)
