-- ===== src/Pop3/Multiline.antt =====
-- What the POP3 driver reads of a reply of several lines (internal/pop3drv/pop3.go).
use yarilo_loadtest.Base.{
  ℕ, zero, suc, ◌+◌, ◌<◌, ◌≡◌, refl, ◌∙◌, true, false, List, [], ◌∷◌, ◌++◌, append_assoc, All,
  arith, Bytes, codes, length, length-append, ◌==◌, if◌then◌else◌, Bool-cases, inl, inr,
}
use yarilo_loadtest.Base.Result.{ok}
use yarilo_loadtest.Text.{crlf, bytes_eq, is_crlf, trim_cons, trim_right, trim_crlf}
use yarilo_loadtest.Text.Laws.{Lacks}
use yarilo_loadtest.Net.{Session}
use yarilo_loadtest.Net.Lines.{read_line-append}
use yarilo_loadtest.Pop3.{Error, multiline_loop, read_multiline}

-- A line as the server sends it: one that starts with a dot has another put before it (RFC 1939 §3).
abbrev pub stuffed : Bytes → Bytes
stuffed [] = []
stuffed (c ∷ s) = if c == 46 then 46 ∷ c ∷ s else c ∷ s

-- The lines of a reply and the dot that ends it.
abbrev pub reply_wire : List Bytes → Bytes
reply_wire [] = 46 ∷ crlf
reply_wire (l ∷ ls) = stuffed l ++ (crlf ++ reply_wire ls)

stuffed-Lacks : (line : Bytes) → Lacks 10 line → Lacks 10 (stuffed line)
stuffed-Lacks [] h = h
stuffed-Lacks (c ∷ s) h = ground (arith, h)

two_dots :
    (t : Bytes) → bytes_eq (trim_cons is_crlf 46 (trim_cons is_crlf 46 t)) (codes ".") ≡ false
unfolding bytes_eq
two_dots [] = refl
two_dots (c ∷ t) = refl

other_start :
    (c : ℕ) (t : Bytes) → (c == 46) ≡ false → bytes_eq (trim_cons is_crlf c t) (codes ".") ≡ false
unfolding bytes_eq
other_start c [] h = ground (arith, h)
other_start c (d ∷ t) h = ground (arith, h)

stuffed_is_no_dot : (line : Bytes) → bytes_eq (trim_crlf (stuffed line ++ crlf)) (codes ".") ≡ false
unfolding trim_crlf trim_right bytes_eq
stuffed_is_no_dot [] = refl
stuffed_is_no_dot (c ∷ s) = elim (Bool-cases (c == 46)) [
  | inl is_dot ↦
      let e : c ≡ 46 = ground (arith, is_dot) in rw (e) (two_dots (trim_right is_crlf (s ++ crlf)))
  | inr no_dot ↦ rw (no_dot) (other_start c (trim_right is_crlf (s ++ crlf)) no_dot)
]

dot_line : bytes_eq (trim_crlf (46 ∷ crlf)) (codes ".") ≡ true
unfolding trim_crlf trim_right trim_cons bytes_eq is_crlf
dot_line = refl

length-reply_wire : (ls : List Bytes) (rest : Bytes) → length ls < length (reply_wire ls ++ rest)
length-reply_wire [] rest = omega arith
length-reply_wire (l ∷ ls) rest = rw (append_assoc (stuffed l) (crlf ++ reply_wire ls) rest) (
    omega (
      arith,
      length-append {0} (stuffed l) (crlf ++ (reply_wire ls ++ rest)),
      length-reply_wire ls rest,
    ))

module _ {D : Type 0} where
  -- the session behind a read
  abbrev pub left_with : Session Error D → Bytes → Session Error D
  left_with s rest = record s { conn = record s.conn { incoming = rest } }

  multiline_loop-wire :
      (ls : List Bytes) (n k : ℕ) (rest : Bytes) (fuel : ℕ) (s : Session Error D)
      → All (Lacks 10) ls
      → length ls < fuel
      → s.conn.incoming ≡ reply_wire ls ++ rest
      → k ≡ n + length ls
      → multiline_loop fuel n s ≡ (ok k, left_with s rest)
  unfolding multiline_loop
  multiline_loop-wire ls n k rest zero s h f e q = elim f [ ]
  multiline_loop-wire [] n k rest (suc fuel) s h f e q =
      ground (arith, read_line-append s.conn (46 ∷ []) rest (omega arith) e, dot_line)
  multiline_loop-wire (l ∷ ls) n k rest (suc fuel) s h f e q =
      let behind = reply_wire ls ++ rest in
      ground (
        arith,
        read_line-append s.conn (stuffed l) behind (stuffed-Lacks l h.0)
            (e ∙ append_assoc (stuffed l) (crlf ++ reply_wire ls) rest),
        stuffed_is_no_dot l,
        multiline_loop-wire ls (n + 1) k rest fuel (left_with s behind) h.1 (omega arith) refl
            (omega (arith, q)),
      )

  -- A reply whose lines are dot-stuffed as the protocol says is read up to the dot that ends it, and
  -- counted, whatever its lines hold: not even a line that starts with a dot ends it early, and what
  -- stands behind the dot is left for the next read.
  pub read_multiline-wire :
      (ls : List Bytes) (rest : Bytes) (s : Session Error D)
      → All (Lacks 10) ls
      → s.conn.incoming ≡ reply_wire ls ++ rest
      → read_multiline s ≡ (ok (length ls), left_with s rest)
  unfolding read_multiline
  read_multiline-wire ls rest s h e =
      multiline_loop-wire ls 0 (length ls) rest (suc (length s.conn.incoming)) s h
        (rw e (omega (arith, length-reply_wire ls rest))) e (omega arith)
