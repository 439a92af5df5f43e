-- ===== src/Imap/View/Server.antt =====
-- A model of the mailbox on the server, and of what it tells a client (internal/imapdrv/session.go).
use yarilo_loadtest.Base.{
  ℕ, ◌+◌, ◌-◌, ◌≤◌, ◌<◌, ◌≡◌, refl, [], ◌∷◌, ◌++◌, some, arith, Bytes, codes, pos,
}
use yarilo_loadtest.Text.{has_prefix}
use yarilo_loadtest.Text.Laws.{cut-append}
use yarilo_loadtest.Text.Number.{print_nat, max_int}
use yarilo_loadtest.Text.Decimal.{atoi-print_nat, print_nat-IsDigit}
use yarilo_loadtest.Recipients.Count.{IsDigit-Lacks}
use yarilo_loadtest.Imap.View.{
  View, empty_view, report, on_expunge, split_num, apply_line, apply_untagged, note_append,
}

-- The lines by which a server tells of its mailbox.
abbrev pub exists_line : ℕ → Bytes
exists_line n = print_nat n ++ 32 ∷ codes "EXISTS"

abbrev pub expunge_line : ℕ → Bytes
expunge_line n = print_nat n ++ 32 ∷ codes "EXPUNGE"

split_num-print_nat :
    (n : ℕ) (rest : Bytes) → n ≤ max_int → split_num (print_nat n ++ 32 ∷ rest) ≡ some (pos n, rest)
unfolding split_num
split_num-print_nat n rest h = ground (
  arith,
  cut-append (print_nat n) rest 32 (IsDigit-Lacks 32 refl _ (print_nat-IsDigit n)),
  atoi-print_nat n h,
)

pub apply-exists_line :
    (n : ℕ) (v : View) → n ≤ max_int → apply_line (exists_line n) v ≡ report (pos n) v
unfolding apply_line has_prefix
apply-exists_line n v h = rw (split_num-print_nat n (codes "EXISTS") h, apply_line)

pub apply-expunge_line :
    (n : ℕ) (v : View) → n ≤ max_int → apply_line (expunge_line n) v ≡ on_expunge v
unfolding apply_line has_prefix
apply-expunge_line n v h = rw (split_num-print_nat n (codes "EXPUNGE") h, apply_line)

-- The mailbox on the server: its messages, and how many of them this session has been told of.
pub record Server : Type 0 where
  pub count : ℕ
  pub told : ℕ

pub record World : Type 0 where
  pub server : Server
  pub view : View

-- What can happen to a mailbox that keeps its messages: this client or another adds one, the server
-- reports the count, or announces that a message it had told of is gone. Sequence numbers and counts
-- are `int`s.
pub data Event : World → World → Type 0 where
  own_append :
      (m t : ℕ) (v : View)
      → Event
          (record { server = record { count = m; told = t }; view = v })
          (record { server = record { count = m + 1; told = t }; view = note_append v })
  other_append :
      (m t : ℕ) (v : View)
      → Event
          (record { server = record { count = m; told = t }; view = v })
          (record { server = record { count = m + 1; told = t }; view = v })
  reported :
      (m t : ℕ) (v : View)
      → m ≤ max_int
      → Event
          (record { server = record { count = m; told = t }; view = v })
          (record {
            server = record { count = m; told = m };
            view = apply_untagged (exists_line m ∷ []) v;
          })
  expunged :
      (m t seq : ℕ) (v : View)
      → seq < t
      → t ≤ m
      → t ≤ max_int
      → Event
          (record { server = record { count = m; told = t }; view = v })
          (record {
            server = record { count = m - 1; told = t - 1 };
            view = apply_untagged (expunge_line (seq + 1) ∷ []) v;
          })

pub data Reach (w : World) : World → Type 0 where
  here : Reach w w
  next : {u x : World} → Reach w u → Event u x → Reach w x

-- The world right after SELECT was sent: nothing is known of the mailbox yet.
abbrev pub opened : Bytes → ℕ → World
opened mailbox count = record {
  server = record { count = count; told = 0 };
  view = empty_view mailbox;
}
