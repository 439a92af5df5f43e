-- ===== src/Text/Number.antt =====
-- `strconv.Atoi`, `strconv.Itoa` and the `%d` of `fmt`.
use yarilo_loadtest.Base.{
  ℕ, zero, suc, ◌+◌, ◌-◌, ◌*◌, ◌/◌, ◌%◌, ◌^◌, Bool, true, false, ◌&&◌, [], ◌∷◌, Option, none, some,
  Bytes, leb, ◌==◌, if◌then◌else◌, ◌>>=◌, ◌≡◌, refl, ℤ, pos, negsuc,
}

abbrev pub is_digit : ℕ → Bool
is_digit c = leb b'0' c && leb c b'9'

-- the digits of `n` written in front of `out`; the fuel `n` is enough, since n / 10 < n
unfoldable pub emit : ℕ → ℕ → Bytes → Bytes
emit zero n out = out
emit (suc fuel) n out = elim (n == 0) [
  | true ↦ out
  | false ↦ emit fuel (n / 10) ((b'0' + n % 10) ∷ out)
]

-- the `%d` of a number that is not negative
unfoldable pub print_nat : ℕ → Bytes
unfolding emit
print_nat n = if n == 0 then b'0' ∷ [] else emit n n []

-- the `%d` of an `int`
unfoldable pub print_int : ℤ → Bytes
unfolding print_nat
print_int (pos n) = print_nat n
print_int (negsuc n) = b'-' ∷ print_nat (suc n)

-- the digits of a text after a number already read; `none` at the first byte that is no digit
unfoldable pub read_digits : Bytes → ℕ → Option ℕ
read_digits [] n = some n
read_digits (c ∷ s) n =
    let rest = read_digits s (n * 10 + (c - b'0')) in if is_digit c then rest else none

-- `Atoi` behind its sign, within the range of an `int`
unfoldable pub read_magnitude : Bytes → ℕ → Option ℕ
unfolding read_digits
read_magnitude [] most = none
read_magnitude (c ∷ s) most = do n ← read_digits (c ∷ s) 0; if leb n most then some n else none

abbrev pub max_int : ℕ
max_int = 2 ^ 63 - 1

abbrev pub negate : ℕ → ℤ
negate zero = pos zero
negate (suc n) = negsuc n

-- `strconv.Atoi`: `none` is its error
unfoldable pub atoi : Bytes → Option ℤ
unfolding read_magnitude
atoi [] = none
atoi (c ∷ s) =
    if c == b'-'
    then (do n ← read_magnitude s (2 ^ 63); some (negate n))
    else if c == b'+'
    then (do n ← read_magnitude s max_int; some (pos n))
    else (do n ← read_magnitude (c ∷ s) max_int; some (pos n))

print_1234 : print_nat 1234 ≡ b'1' ∷ b'2' ∷ b'3' ∷ b'4' ∷ []
unfolding print_nat
print_1234 = refl
