-- ===== src/Corpus/Mbox/Lines.antt =====
-- The line lengths that `checkLineLengths` (internal/corpus/mbox.go) accepts.
use yarilo_loadtest.Base.{
  ℕ, suc, ◌+◌, ◌≤◌, ◌<◌, ◌≡◌, refl, true, false, Bool, ◌&&◌, List, [], ◌∷◌, none, some, arith,
  Bytes, ◌==◌, All, length, ltb, if◌then◌else◌, Option, lt→ltb, ◌↔◌, Bool-cases, inl, inr,
}
use yarilo_loadtest.Text.{push_first}
use yarilo_loadtest.Corpus.Mbox.{
  lf, lines_of, max_line_octets, LoadError, check_lines, check_messages,
}

-- Whether the lines of a text fit, when `n` octets of the first line stand before it.
fits : ℕ → Bytes → Bool
fits n [] = ltb n max_line_octets
fits n (c ∷ s) =
    let first = ltb n max_line_octets && fits 0 s in
    let longer = fits (suc n) s in if c == lf then first else longer

abbrev is_none : Option LoadError → Bool
is_none none = true
is_none (some e) = false

-- the loop over a message accepts it exactly when its lines fit
check_lines-fits :
    (i : ℕ) (msg rest : Bytes) (j start line n : ℕ)
    → j ≡ start + n
    → is_none (check_lines i msg rest j start line) ≡ fits n rest
unfolding check_lines fits
check_lines-fits i msg [] j start line n e = ground arith
check_lines-fits i msg (c ∷ rest) j start line n e = ground (
  arith,
  check_lines-fits i msg rest (j + 1) (j + 1) (line + 1) 0,
  check_lines-fits i msg rest (j + 1) start line (suc n),
)

-- A line, its line feed included, that SMTP carries.
abbrev pub IsShort : Bytes → Type 0
IsShort l = length l ≤ max_line_octets

-- The lines of a text, with `n` octets before the first.
abbrev LinesFit : ℕ → List Bytes → Type 0
LinesFit n [] = Unit {0}
LinesFit n (l ∷ ls) = (n + length l ≤ max_line_octets) × All IsShort ls

LinesFit-push :
    (n c : ℕ) (ls : List Bytes)
    → n < max_line_octets
    → LinesFit (suc n) ls
    → LinesFit n (push_first c ls)
LinesFit-push n c [] h hs = (omega arith, tt)
LinesFit-push n c (l ∷ ls) h hs = (omega arith, hs.1)

LinesFit-All : (ls : List Bytes) → LinesFit 0 ls → All IsShort ls
LinesFit-All [] h = tt
LinesFit-All (l ∷ ls) h = (omega arith, h.1)

fits-lt : (n : ℕ) (s : Bytes) → fits n s ≡ true → n < max_line_octets
unfolding fits
fits-lt n [] h = ground arith
fits-lt n (c ∷ s) h = ground (arith, fits-lt (suc n) s)

LinesFit-fits : (n : ℕ) (s : Bytes) → fits n s ≡ true → LinesFit n (lines_of s)
unfolding fits lines_of
LinesFit-fits n [] h = tt
LinesFit-fits n (c ∷ s) h = elim (Bool-cases (c == lf)) [
  | inl at_end ↦
      rw at_end (ground (arith, LinesFit-All (lines_of s) (LinesFit-fits 0 s (ground arith))))
  | inr inside ↦ rw inside (
      LinesFit-push n c (lines_of s) (ground (arith, fits-lt (suc n) s))
        (LinesFit-fits (suc n) s (ground arith)))
]

-- Whether the last byte is a line feed; `d` stands for the byte before the text.
abbrev pub ends_lf : Bool → Bytes → Bool
ends_lf d [] = d
ends_lf d (c ∷ s) = ends_lf (c == lf) s

LinesFit-pop : (n c : ℕ) (ls : List Bytes) → LinesFit n (push_first c ls) → LinesFit (suc n) ls
LinesFit-pop n c [] h = tt
LinesFit-pop n c (l ∷ ls) h = (omega arith, h.1)

LinesFit-zero : (ls : List Bytes) → All IsShort ls → LinesFit 0 ls
LinesFit-zero [] h = tt
LinesFit-zero (l ∷ ls) h = (omega arith, h.1)

fits-LinesFit :
    (d : Bool) (n : ℕ) (s : Bytes)
    → (d ≡ true → n < max_line_octets)
    → ends_lf d s ≡ true
    → LinesFit n (lines_of s)
    → fits n s ≡ true
unfolding fits lines_of
fits-LinesFit d n [] k e h = lt→ltb n max_line_octets (k e)
fits-LinesFit d n (c ∷ s) k e h = elim (Bool-cases (c == lf)) [
  | inl at_end ↦
      let fit : LinesFit n ((c ∷ []) ∷ lines_of s) = rw at_end at h in
      rw at_end (
        ground (
          arith,
          fits-LinesFit true 0 s (λ _. omega arith) (rw at_end at e) (LinesFit-zero _ fit.1),
          fit.0,
        ))
  | inr inside ↦
      let fit : LinesFit n (push_first c (lines_of s)) = rw inside at h in
      rw inside (fits-LinesFit false (suc n) s (λ x. cc) (rw inside at e) (LinesFit-pop n c _ fit))
]

check_message_iff : (i : ℕ) (m : Bytes) → is_none (check_lines i m m 0 0 1) ≡ fits 0 m
check_message_iff i m = check_lines-fits i m m 0 0 1 0 (omega arith)

check_messages_sound :
    (i : ℕ) (msgs : List Bytes)
    → check_messages i msgs ≡ none
    → All (λ m. All IsShort (lines_of m)) msgs
unfolding check_messages
check_messages_sound i [] h = tt
check_messages_sound i (m ∷ msgs) h = (
  LinesFit-All _ (LinesFit-fits 0 m (ground (arith, check_message_iff i m))),
  check_messages_sound (i + 1) msgs (ground arith),
)

check_messages_complete :
    (i : ℕ) (msgs : List Bytes)
    → All (λ m. ends_lf false m ≡ true) msgs
    → All (λ m. All IsShort (lines_of m)) msgs
    → check_messages i msgs ≡ none
unfolding check_messages
check_messages_complete i [] e h = refl
check_messages_complete i (m ∷ msgs) e h = ground (
  arith,
  check_message_iff i m,
  fits-LinesFit false 0 m (λ x. cc) e.0 (LinesFit-zero _ h.0),
  check_messages_complete (i + 1) msgs e.1 h.1,
)

-- For messages that end in a line feed `checkLineLengths` finds nothing to refuse exactly when
-- every line of every message has 1000 octets at most, its line feed included.
pub check_messages_iff :
    (i : ℕ) (msgs : List Bytes)
    → All (λ m. ends_lf false m ≡ true) msgs
    → (check_messages i msgs ≡ none) ↔ All (λ m. All IsShort (lines_of m)) msgs
check_messages_iff i msgs e = (check_messages_sound i msgs, check_messages_complete i msgs e)
