-- ===== src/Imap/View.antt =====
-- A session's protocol state and its view of the mailbox (internal/imapdrv/session.go). The counts
-- are `int`s, whose sums wrap round.
pub mod Server
pub mod Floor
mod Tests
use yarilo_loadtest.Base.{
  ℕ, ◌+◌, ◌-◌, Bool, true, false, List, [], ◌∷◌, Option, none, some, Bytes, codes, ltb, leb, ◌==◌,
  if◌then◌else◌, ℤ, pos, negsuc, ltb_ℤ, add_int, sub_int,
}
use yarilo_loadtest.Text.{has_prefix, cut}
use yarilo_loadtest.Text.Number.{atoi}
use yarilo_loadtest.Imap.Profile.{
  Command, list, status, select, fetch, fetch2, store, delete, expunge, search_text, noop, append,
  logout,
}

pub data State : Type 0 where
  disconnected authenticated selected : State

-- the contradiction that `report` found: what the server said, and what it was held against
pub record Mismatch : Type 0 where
  pub reported : ℤ
  pub added : ℤ
  pub last_seen : ℤ

pub record View : Type 0 where
  pub mailbox : Bytes
  pub exists : ℤ
  pub baseline : ℤ
  pub appended : ℤ
  pub mismatch : Option Mismatch

abbrev pub empty_view : Bytes → View
empty_view mailbox = record {
  mailbox = mailbox;
  exists = pos 0;
  baseline = pos 0;
  appended = pos 0;
  mismatch = none;
}

-- `report`
unfoldable pub report : ℤ → View → View
report n v = record v {
  exists = n;
  baseline = n;
  appended = pos 0;
  mismatch =
      if ltb_ℤ n (add_int v.baseline v.appended)
      then some (record { reported = n; added = v.appended; last_seen = v.baseline })
      else v.mismatch;
}

-- `if v.x > 0 { v.x-- }`
pub drop_one : ℤ → ℤ
drop_one x = if ltb_ℤ (pos 0) x then sub_int x (pos 1) else x

pub on_expunge : View → View
on_expunge v = record v { exists = drop_one v.exists; baseline = drop_one v.baseline }

-- `splitNum`: "12 EXISTS" is (12, "EXISTS")
pub split_num : Bytes → Option (ℤ × Bytes)
split_num line = elim (cut line 32) [
  | none ↦ none
  | some (num, rest) ↦ elim (atoi num) [ none ↦ none | some n ↦ some (n, rest) ]
]

-- the body of the loop of `applyUntagged`
pub apply_line : Bytes → View → View
apply_line line v = elim (split_num line) [
  | none ↦ v
  | some (n, rest) ↦
      if has_prefix rest (codes "EXISTS")
      then report n v
      else if has_prefix rest (codes "EXPUNGE")
      then on_expunge v
      else v
]

-- `applyUntagged`
unfoldable pub apply_untagged : List Bytes → View → View
apply_untagged [] v = v
apply_untagged (line ∷ lines) v = apply_untagged lines (apply_line line v)

-- `s.view.appended++` behind an APPEND that was acknowledged
unfoldable pub note_append : View → View
note_append v = record v { appended = add_int v.appended (pos 1) }

-- `checkMismatch`: the contradiction, and the view without it
pub check_mismatch : View → Option Mismatch × View
check_mismatch v = (v.mismatch, record v { mismatch = none })

unfoldable pub is_selected : State → Bool
is_selected selected = true
is_selected _ = false

unfoldable pub is_logged_in : State → Bool
is_logged_in disconnected = false
is_logged_in _ = true

-- `legal`
unfoldable pub legal : State → Command → Bool
legal s list = is_logged_in s
legal s status = is_logged_in s
legal s select = is_logged_in s
legal s logout = is_logged_in s
legal s fetch = is_selected s
legal s fetch2 = is_selected s
legal s store = is_selected s
legal s delete = is_selected s
legal s expunge = is_selected s
legal s search_text = is_selected s
legal s noop = is_selected s
legal s append = is_selected s
