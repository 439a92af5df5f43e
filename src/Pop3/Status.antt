-- ===== src/Pop3/Status.antt =====
-- The one-line replies of a POP3 server (internal/pop3drv/pop3.go: readStatus, stat).
use yarilo_loadtest.Base.{
  ℕ, ◌≤◌, ◌≡◌, refl, ap, sym, ◌∙◌, true, false, List, [], ◌∷◌, ◌++◌, some, append_assoc, append-nil,
  ◌<◌, length, arith, Bytes, codes, drop, pos,
}
use yarilo_loadtest.Base.Result.{ok}
use yarilo_loadtest.Text.{
  crlf, has_prefix, is_space, trim_cons, trim_left, trim_right, trim_crlf, trim_space,
}
use yarilo_loadtest.Text.Laws.{Lacks, Solid}
use yarilo_loadtest.Text.Number.{print_nat, max_int, atoi}
use yarilo_loadtest.Text.Decimal.{
  IsDigit-Solid, atoi-print_nat, print_nat-IsDigit, length-print_nat-pos,
}
use yarilo_loadtest.Net.{Session}
use yarilo_loadtest.Net.Lines.{read_line-append, trim_crlf-append}
use yarilo_loadtest.Pop3.{Error, judge, fields_loop, fields, count_of, read_status}

-- A positive reply, without its line end, and the text that it carries.
abbrev pub IsStatus : Bytes → Type 0
IsStatus line = Lacks 10 line × (trim_crlf line ≡ line) × (has_prefix line (codes "+OK") ≡ true)

abbrev pub text_of : Bytes → Bytes
text_of line = trim_space (drop 3 line)

-- The reply to STAT: how many messages there are, and what follows.
abbrev pub stat_line : ℕ → Bytes → Bytes
stat_line n octets = codes "+OK " ++ (print_nat n ++ 32 ∷ octets)

judge-IsStatus : (line : Bytes) → IsStatus line → judge line ≡ ok (text_of line)
unfolding judge
judge-IsStatus line h = ground arith

module _ {D : Type 0} where
  pub read_status-line :
      (line rest : Bytes) (s : Session Error D)
      → IsStatus line
      → s.conn.incoming ≡ (line ++ crlf) ++ rest
      → read_status s ≡ (ok (text_of line), record s { conn = record s.conn { incoming = rest } })
  unfolding read_status
  read_status-line line rest s h e = ground (
    arith,
    read_line-append s.conn line rest h.0 (e ∙ append_assoc line crlf rest),
    trim_crlf-append line h.1,
    judge-IsStatus line h,
  )

trim_cons-solid : (c : ℕ) (s : Bytes) → is_space c ≡ false → trim_cons is_space c s ≡ c ∷ s
trim_cons-solid c [] h = rw h
trim_cons-solid c (d ∷ s) h = refl

trim_left-Solid : (d s : Bytes) → Solid d → 0 < length d → trim_left is_space (d ++ s) ≡ d ++ s
unfolding trim_left
trim_left-Solid [] s h l = absurd (omega arith)
trim_left-Solid (c ∷ d) s h l = rw (h.0, trim_left)

trim_right-Solid :
    (d s : Bytes) → Solid d → trim_right is_space (d ++ s) ≡ d ++ trim_right is_space s
unfolding trim_right
trim_right-Solid [] s h = refl
trim_right-Solid (c ∷ d) s h = trim_cons-solid c _ h.0 ∙ ap (◌∷◌ c) (trim_right-Solid d s h.1)

fields_loop-Solid : (w d s : Bytes) → Solid d → fields_loop w (d ++ s) ≡ fields_loop (w ++ d) s
unfolding fields_loop
fields_loop-Solid w [] s h = ap (λ v. fields_loop v s) (sym (append-nil w))
fields_loop-Solid w (c ∷ d) s h = rw h.0 (
    fields_loop-Solid (w ++ c ∷ []) d s h.1 ∙ ap (λ v. fields_loop v s) (append_assoc w (c ∷ []) d))

-- a word ends at white space, or at the end
fields_loop-word :
    (c : ℕ) (w u : Bytes)
    → (more : List Bytes) × (fields_loop (c ∷ w) (trim_cons is_space 32 u) ≡ (c ∷ w) ∷ more)
unfolding fields_loop
fields_loop-word c w [] = ([], refl)
fields_loop-word c w (x ∷ u) = (fields_loop [] (x ∷ u), refl)

print_nat-Solid : (n : ℕ) → Solid (print_nat n)
print_nat-Solid n = IsDigit-Solid (print_nat n) (print_nat-IsDigit n)

count_of-word :
    (w u : Bytes) (n : ℕ)
    → Solid w
    → 0 < length w
    → atoi w ≡ some (pos n)
    → count_of (w ++ trim_cons is_space 32 u) ≡ ok (pos n)
unfolding count_of fields
count_of-word [] u n h l e = absurd (omega arith)
count_of-word (c ∷ w) u n h l e =
    let (more, first) = fields_loop-word c w u in
    rw (fields_loop-Solid [] (c ∷ w) (trim_cons is_space 32 u) h ∙ first, e, count_of) refl

text_of-stat_line :
    (n : ℕ) (octets : Bytes)
    → text_of (stat_line n octets)
      ≡ print_nat n ++ trim_cons is_space 32 (trim_right is_space octets)
unfolding trim_space trim_left trim_right
text_of-stat_line n octets =
    ap (trim_right is_space)
      (trim_left-Solid (print_nat n) (32 ∷ octets) (print_nat-Solid n) (length-print_nat-pos n))
    ∙ trim_right-Solid (print_nat n) (32 ∷ octets) (print_nat-Solid n)

-- The number of messages is read back from the reply to STAT, whatever follows it.
pub count_of-stat_line :
    (n : ℕ) (octets : Bytes) → n ≤ max_int → count_of (text_of (stat_line n octets)) ≡ ok (pos n)
count_of-stat_line n octets h =
    ap count_of (text_of-stat_line n octets)
    ∙ count_of-word (print_nat n) (trim_right is_space octets) n (print_nat-Solid n)
        (length-print_nat-pos n) (atoi-print_nat n h)
