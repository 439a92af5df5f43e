-- ===== src/Imap/Step/Window.antt =====
-- The messages that a range command names (internal/imapdrv/driver.go: rangeCmd).
use yarilo_loadtest.Base.{
  ℕ, ◌+◌, ◌-◌, ◌≤◌, ◌≡◌, ◌∷◌, ◌++◌, arith, Bytes, if◌then◌else◌, leb, ltb, pos, add_int, sub_int,
  ◌+ℤ◌, ◌-ℤ◌,
}
use yarilo_loadtest.Text.Number.{print_nat, print_int, max_int}
use yarilo_loadtest.Imap.View.{View}
use yarilo_loadtest.Imap.Step.{at_least_one, range_cmd}

-- how many messages a window has
abbrev pub window_size : ℕ → ℕ
window_size n = if ltb n 20 then n else 20

-- The first number of a range.
abbrev pub window_start : ℕ → ℕ
window_start n = if leb n 20 then 1 else n - 19

from_exact :
    (n : ℕ)
    → n ≤ max_int
    → at_least_one (add_int (sub_int (pos n) (pos 20)) (pos 1)) ≡ pos (window_start n)
unfolding at_least_one add_int sub_int ◌-ℤ◌ ◌+ℤ◌
from_exact n h = ground (arith, h)

to_exact : (n : ℕ) → 1 ≤ n → at_least_one (pos n) ≡ pos n
unfolding at_least_one
to_exact n h = ground (arith, h)

-- In a mailbox that is not empty, of n messages, a range command names the newest: it is written with two
-- numbers, the second is n, both are numbers of messages that there are, and from the first to the second
-- there are 20 messages, or all n where there are fewer.
pub range_cmd-window :
    (v : View) (verb args : Bytes) (n : ℕ)
    → v.exists ≡ pos n
    → 1 ≤ n
    → n ≤ max_int
    → (range_cmd v verb args
        ≡ verb ++ 32 ∷ (print_nat (window_start n) ++ 58 ∷ (print_nat n ++ 32 ∷ args)))
      × (1 ≤ window_start n)
      × (window_start n ≤ n)
      × (n + 1 ≡ window_start n + window_size n)
unfolding range_cmd print_int
range_cmd-window v verb args n h k l =
    (rw (h, from_exact n l, to_exact n k), ground (arith, k), ground (arith, k), ground (arith, k))
