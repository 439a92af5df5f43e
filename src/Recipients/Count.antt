-- ===== src/Recipients/Count.antt =====
-- What `splitCount` reads, wrap-around included.
use yarilo_loadtest.Base.{
  ℕ, ◌+◌, ◌-◌, ◌*◌, ◌%◌, ◌≡◌, refl, subst, true, false, [], ◌∷◌, ◌++◌, Option, none, some, arith,
  Bytes, All, ◌==◌, if◌then◌else◌, word, signed,
}
use yarilo_loadtest.Text.Laws.{Lacks, cut_last-append}
use yarilo_loadtest.Text.Number.{is_digit, print_nat, read_digits}
use yarilo_loadtest.Text.Decimal.{IsDigit, read_digits-print_nat, print_nat-IsDigit}
use yarilo_loadtest.Recipients.{count_loop, count_suffix, split_count}

-- a number that was read, reduced to 64 bits
abbrev reduced : Option ℕ → Option ℕ
reduced none = none
reduced (some n) = some (n % word)

-- the loop of `splitCount` is the reading of digits, reduced to 64 bits
count_loop-read_digits :
    (s : Bytes) (n m : ℕ) → m ≡ n % word → count_loop s m ≡ reduced (read_digits s n)
unfolding count_loop read_digits
count_loop-read_digits [] n m e = rw e
count_loop-read_digits (c ∷ s) n m e =
    ground (arith, count_loop-read_digits s (n * 10 + (c - b'0')) ((m * 10 + (c - b'0')) % word))

-- Digits lack every byte that is no digit.
pub IsDigit-Lacks : (b : ℕ) → is_digit b ≡ false → (s : Bytes) → All IsDigit s → Lacks b s
IsDigit-Lacks b h [] d = tt
IsDigit-Lacks b h (c ∷ s) d =
    (λ e. cc (subst (λ x. is_digit x ≡ true) e d.0), IsDigit-Lacks b h s d.1)

-- For every address and every number behind its last colon, `splitCount` returns the address and
-- the number reduced to a signed 64-bit count, and refuses exactly when that count is zero.
pub split_count-print_nat :
    (addr : Bytes) (m : ℕ)
    → split_count (addr ++ b':' ∷ print_nat m)
      ≡ (if m % word == 0 then none else some (addr, signed (m % word)))
unfolding split_count count_suffix
split_count-print_nat addr m =
    let digits = print_nat m in
    rw (cut_last-append addr digits b':' (IsDigit-Lacks b':' refl _ (print_nat-IsDigit m)))
      (ground (arith, count_loop-read_digits digits 0 0 refl, read_digits-print_nat m))
