-- ===== src/Base/Int.antt =====
-- Signed integers over the native numbers, under the library's names: what the source keeps in an
-- `int` that may be negative.
use Prim.Native.Nat.{ℕ, suc, ◌+◌, ◌-◌, ◌%◌, ◌^◌, ◌≤◌, ◌<◌}
use mathlib.Core.Option.{Option, none, some}
use mathlib.Core.Path.{◌≡◌}
use native.Mathlib.Omega.{arith}
use mathlib.Core.Bool.{Bool}
use yarilo_loadtest.Base.Tests.{ltb, leb, ◌==◌, if◌then◌else◌}

-- `negsuc n` is -(n + 1).
pub data ℤ : Type 0 where
  pos : ℕ → ℤ
  negsuc : ℕ → ℤ

abbrev pub pos_part : ℤ → ℕ
pos_part (pos n) = n
pos_part (negsuc n) = 0

abbrev pub neg_part : ℤ → ℕ
neg_part (pos n) = 0
neg_part (negsuc n) = suc n

-- a - b, as an integer.
abbrev pub sub_ℕ : ℕ → ℕ → ℤ
sub_ℕ a b = if leb b a then pos (a - b) else negsuc (b - a - 1)

abbrev pub ltb_ℤ : ℤ → ℤ → Bool
ltb_ℤ a b = ltb (pos_part a + neg_part b) (pos_part b + neg_part a)

infixl 65 ◌+ℤ◌ ◌-ℤ◌
infix 50 ◌≤ℤ◌
unfoldable pub ◌+ℤ◌ : ℤ → ℤ → ℤ
a +ℤ b = sub_ℕ (pos_part a + pos_part b) (neg_part a + neg_part b)

unfoldable pub ◌-ℤ◌ : ℤ → ℤ → ℤ
a -ℤ b = sub_ℕ (pos_part a + neg_part b) (neg_part a + pos_part b)

abbrev pub ◌≤ℤ◌ : ℤ → ℤ → Type 0
a ≤ℤ b = pos_part a + neg_part b ≤ pos_part b + neg_part a

-- `x <= 0` of the source.
abbrev pub is_nonpos : ℤ → Bool
is_nonpos a = ltb (pos_part a) 1

-- The number of values of a 64-bit word.
abbrev pub word : ℕ
word = 2 ^ 64

-- The `int` that a 64-bit pattern stands for.
abbrev pub signed : ℕ → ℤ
signed w = if ltb w (2 ^ 63) then pos w else negsuc (2 ^ 64 - w - 1)

-- The 64-bit pattern of an integer, with what does not fit cut off.
abbrev pub pattern : ℤ → ℕ
pattern (pos n) = n % word
pattern (negsuc n) = word - 1 - n % word

-- `+` and `-` of Go on `int`, which wrap round.
unfoldable pub add_int : ℤ → ℤ → ℤ
add_int a b = signed (pattern (a +ℤ b))

unfoldable pub sub_int : ℤ → ℤ → ℤ
sub_int a b = signed (pattern (a -ℤ b))

-- Where the sum fits, it is exact.
pub add_int_exact : (a b : ℕ) → a + b < 2 ^ 63 → add_int (pos a) (pos b) ≡ pos (a + b)
unfolding add_int ◌+ℤ◌
add_int_exact a b h = ground (arith, h)

pub sub_int_exact : (a b : ℕ) → b ≤ a → a < 2 ^ 63 → sub_int (pos a) (pos b) ≡ pos (a - b)
unfolding sub_int ◌-ℤ◌
sub_int_exact a b h k = ground (arith, h, k)

-- A counter that began at zero, one step on.
pub count_up : (n : ℕ) → add_int (signed (n % word)) (pos 1) ≡ signed ((n + 1) % word)
unfolding add_int ◌+ℤ◌
count_up n = ground arith

-- `n % len` of Go as an index: a negative remainder is out of range, and panics.
unfoldable pub index_of : ℤ → (len : ℕ) → Option ℕ
index_of (pos n) len = some (n % len)
index_of (negsuc n) len = if suc n % len == 0 then some 0 else none

pub index_of-counter : (n len : ℕ) → n < 2 ^ 63 → index_of (signed n) len ≡ some (n % len)
unfolding index_of
index_of-counter n len h = ground (arith, h)

pub sub_ℕ_parts : (a b : ℕ) → pos_part (sub_ℕ a b) + b ≡ neg_part (sub_ℕ a b) + a
sub_ℕ_parts a b = ground arith

pub sub_ℕ_eq : (a b c d : ℕ) → a + d ≡ c + b → sub_ℕ a b ≡ sub_ℕ c d
sub_ℕ_eq a b c d h = ground (arith, h)

pub add_nothing : (x : ℤ) → x +ℤ sub_ℕ 0 0 ≡ x
unfolding ◌+ℤ◌
add_nothing (pos n) = ground arith
add_nothing (negsuc n) = ground arith

-- Two differences are added one by one or together.
pub add_differences :
    (x : ℤ) (a b c d : ℕ) → (x +ℤ sub_ℕ a b) +ℤ sub_ℕ c d ≡ x +ℤ sub_ℕ (a + c) (b + d)
unfolding ◌+ℤ◌
add_differences x a b c d =
    let one = sub_ℕ a b in
    let p = pos_part x + pos_part one in
    let n = neg_part x + neg_part one in
    let two = sub_ℕ c d in
    let both = sub_ℕ (a + c) (b + d) in
    sub_ℕ_eq (pos_part (sub_ℕ p n) + pos_part two) (neg_part (sub_ℕ p n) + neg_part two)
      (pos_part x + pos_part both) (neg_part x + neg_part both)
      (omega
        (arith, sub_ℕ_parts a b, sub_ℕ_parts c d, sub_ℕ_parts (a + c) (b + d), sub_ℕ_parts p n))
