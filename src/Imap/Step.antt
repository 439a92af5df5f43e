-- ===== src/Imap/Step.antt =====
-- What a session does next (internal/imapdrv/driver.go: step, rangeCmd).
pub mod Filling
pub mod Window
mod Tests
use yarilo_loadtest.Base.{
  ℕ, zero, suc, ◌+◌, ◌%◌, Bool, true, false, ◌||◌, not, List, [], ◌∷◌, ◌++◌, Bytes, length,
  if◌then◌else◌, ℤ, pos, ltb_ℤ, add_int, sub_int, word, is_nonpos,
}
use yarilo_loadtest.Text.Number.{print_int}
use yarilo_loadtest.Imap.Profile.{Command, noop, append, expunge, Weighted, pick}
use yarilo_loadtest.Imap.View.{State, View, is_selected, legal}

pub data Choice : Type 0 where
  open_mailbox : Choice
  issue : Command → Choice

-- `for i := 0; !s.legal(cmd) && i < len(d.weights); i++`, with the rounds left
pub retry_loop : ℕ → ℕ → State → List Weighted → ℕ → Command → Command
retry_loop zero i s ws n cmd = cmd
retry_loop (suc rounds) i s ws n cmd =
    let again = retry_loop rounds (i + 1) s ws n (pick ws ((n + i + 1) % word)) in
    if legal s cmd then cmd else again

-- the choice by the profile, and NOOP where it finds nothing that the state allows
pub by_profile : State → List Weighted → ℕ → Command
by_profile s ws n =
    let cmd = retry_loop (length ws) 0 s ws n (pick ws n) in if legal s cmd then cmd else noop

-- the messages that the session counts on
pub held : View → ℤ
held v = add_int v.exists v.appended

-- the choice of `step`: to select a mailbox, or a command; `n` is the counter of the steps
pub choose : (target : ℤ) → List Weighted → State → View → ℕ → Choice
choose target ws s v n =
    let picked = issue (by_profile s ws n) in
    if not (is_selected s)
    then open_mailbox
    else if is_nonpos target
    then picked
    else if ltb_ℤ (held v) target
    then issue append
    else if ltb_ℤ (add_int target target) (held v)
    then issue expunge
    else picked

-- `if x < 1 { x = 1 }`
pub at_least_one : ℤ → ℤ
at_least_one x = if ltb_ℤ x (pos 1) then pos 1 else x

-- `rangeCmd`
pub range_cmd : View → (verb args : Bytes) → Bytes
range_cmd v verb args =
    verb
    ++ 32
      ∷ (print_int (at_least_one (add_int (sub_int v.exists (pos 20)) (pos 1)))
          ++ 58 ∷ (print_int (at_least_one v.exists) ++ 32 ∷ args))
