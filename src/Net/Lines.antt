-- ===== src/Net/Lines.antt =====
-- Reading lines that a server wrote.
use yarilo_loadtest.Base.{
  ◌<◌, ◌≡◌, refl, sym, ap, ◌∙◌, [], ◌∷◌, ◌++◌, some, append_assoc, All-append, arith, Bytes, length,
  inl, inr, Option-cases,
}
use yarilo_loadtest.Base.Result.{ok}
use yarilo_loadtest.Text.{crlf, is_crlf, trim_crlf}
use yarilo_loadtest.Text.Laws.{Lacks, trim_right-append}
use yarilo_loadtest.Net.{Conn, read_string, read_line}

read_string-append :
    (line rest : Bytes)
    → Lacks 10 line
    → read_string (line ++ 10 ∷ rest) ≡ some (line ++ 10 ∷ [], rest)
unfolding read_string
read_string-append [] rest h = refl
read_string-append (c ∷ line) rest h = ground (arith, read_string-append line rest h.1)

-- A line is read up to its end, and what follows stays to be read.
pub read_line-append :
    (c : Conn) (line rest : Bytes)
    → Lacks 10 line
    → c.incoming ≡ line ++ (crlf ++ rest)
    → read_line c ≡ (ok (line ++ crlf), record c { incoming = rest })
unfolding read_line
read_line-append c line rest h e = ground (arith, found)
  where
    found : read_string c.incoming ≡ some (line ++ crlf, rest)
    found =
        ap read_string (e ∙ sym (append_assoc line (13 ∷ []) (10 ∷ rest)))
        ∙ read_string-append (line ++ 13 ∷ []) rest (All-append _ line _ h (omega arith))
        ∙ ap (λ l. some (l, rest)) (append_assoc line (13 ∷ []) (10 ∷ []))

-- A line with no line end of its own is what is left when its line end is trimmed.
pub trim_crlf-append : (line : Bytes) → trim_crlf line ≡ line → trim_crlf (line ++ crlf) ≡ line
unfolding trim_crlf
trim_crlf-append line h = trim_right-append is_crlf line crlf (refl, (refl, tt)) ∙ h

read_string_shorter :
    (s line after : Bytes) → read_string s ≡ some (line, after) → length after < length s
unfolding read_string
read_string_shorter [] line after e = cc
read_string_shorter (c ∷ s) line after e = elim (Option-cases (read_string s)) [
  | inl none_left ↦ ground arith
  | inr ((l, r), found) ↦ ground (arith, read_string_shorter s l r found)
]

-- A line that was read makes what is left to read shorter.
pub read_line_shorter :
    (c : Conn) (line : Bytes)
    → (read_line c).0 ≡ ok line
    → length (read_line c).1.incoming < length c.incoming
unfolding read_line
read_line_shorter c line e = elim (Option-cases (read_string c.incoming)) [
  | inl none_left ↦ ground arith
  | inr ((l, r), found) ↦ ground (arith, read_string_shorter c.incoming l r found)
]
