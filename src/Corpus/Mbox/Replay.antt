-- ===== src/Corpus/Mbox/Replay.antt =====
-- How an mbox file is written, against how internal/corpus/mbox.go reads it.
use yarilo_loadtest.Base.{
  ◌<◌, ◌≡◌, refl, sym, ap, ap₂, ◌∙◌, true, false, List, [], ◌∷◌, ◌++◌, map, arith, append_assoc,
  append-nil, Bytes, codes, All, length, length-append, length-map, if◌then◌else◌, Bool-cases, inl,
  inr,
}
use yarilo_loadtest.Text.{has_prefix}
use yarilo_loadtest.Text.Laws.{Lacks, has_suffix-append}
use yarilo_loadtest.Corpus.Mbox.{
  lf, wire_form, lines_of, Scan, start, add, flush, take_line, scan_loop, from_line, quoted_from,
  readable, load,
}
use yarilo_loadtest.Base.Result.{ok}
use yarilo_loadtest.Corpus.Mbox.Lines.{IsShort}
use yarilo_loadtest.Corpus.Mbox.Load.{messages_of, load_complete}

-- A message is its lines, without their line feeds. A line that would pass for a separator is quoted.
pub quote_line : Bytes → Bytes
quote_line l = if has_prefix l from_line then b'>' ∷ l else l

abbrev end_line : Bytes → Bytes
end_line l = l ++ lf ∷ []

-- The lines of a message in the file, and the separator before them.
abbrev pub body : List Bytes → Bytes
body [] = []
body (l ∷ ls) = end_line l ++ body ls

abbrev file_lines : List Bytes → List Bytes
file_lines [] = []
file_lines (l ∷ ls) = end_line (quote_line l) ∷ file_lines ls

abbrev separator : Bytes
separator = codes "From loadtest"

abbrev box_lines : List (List Bytes) → List Bytes
box_lines [] = []
box_lines (m ∷ ms) = end_line separator ∷ (file_lines m ++ box_lines ms)

abbrev pub concat : List Bytes → Bytes
concat [] = []
concat (l ∷ ls) = l ++ concat ls

abbrev pub write_mbox : List (List Bytes) → Bytes
write_mbox ms = concat (box_lines ms)

-- No line holds a line feed, or starts with the quotation of a separator.
abbrev pub IsLine : Bytes → Type 0
IsLine l = Lacks lf l × (has_prefix l quoted_from ≡ false)

abbrev pub IsMessage : List Bytes → Type 0
IsMessage m = All IsLine m × (0 < length m)

lines_of-append : (l s : Bytes) → Lacks lf l → lines_of (end_line l ++ s) ≡ end_line l ∷ lines_of s
unfolding lines_of
lines_of-append [] s h = refl
lines_of-append (c ∷ l) s h = ground (arith, lines_of-append l s h.1)

has_prefix-end_line : (l p : Bytes) → Lacks lf p → has_prefix (end_line l) p ≡ has_prefix l p
unfolding has_prefix
has_prefix-end_line [] [] h = refl
has_prefix-end_line [] (d ∷ p) h = ground arith
has_prefix-end_line (c ∷ l) [] h = refl
has_prefix-end_line (c ∷ l) (d ∷ p) h = ground (arith, has_prefix-end_line l p h.1)

has_prefix_unquoted : (l : Bytes) → has_prefix (b'>' ∷ l) from_line ≡ false
unfolding has_prefix
has_prefix_unquoted l = refl

has_prefix_quoted : (l : Bytes) → has_prefix (b'>' ∷ l) quoted_from ≡ has_prefix l from_line
unfolding has_prefix
has_prefix_quoted l = refl

-- a line of a message goes into the buffer as it was before it was quoted
take_line-quote_line :
    (s : Scan) (l : Bytes)
    → IsLine l
    → s.at_start ≡ true
    → take_line s (end_line (quote_line l)) ≡ record s { cur = s.cur ++ end_line l }
unfolding take_line quote_line
take_line-quote_line s l h e = ground (
  arith,
  has_prefix_unquoted (end_line l),
  has_prefix_quoted (end_line l),
  has_prefix-end_line l from_line (omega arith),
  has_prefix-end_line l quoted_from (omega arith),
)

after_separator : (s : Scan) → s.at_start ≡ true → take_line s (end_line separator) ≡ flush s
unfolding take_line has_prefix
after_separator s e = ground arith

-- one round of the loop, at a line that ends in a line feed
scan_loop-cons :
    (s t : Scan) (line : Bytes) (lines : List Bytes)
    → take_line s (end_line line) ≡ t
    → scan_loop s (end_line line ∷ lines) ≡ scan_loop (record t { at_start = true }) lines
unfolding scan_loop
scan_loop-cons s t line lines e =
    ap₂ (λ x b. scan_loop (record x { at_start = b }) lines) e (has_suffix-append line (lf ∷ []))

-- the lines of a message, behind its separator
scan_loop-file_lines :
    (m : List Bytes) (s : Scan) (rest : List Bytes)
    → All IsLine m
    → s.at_start ≡ true
    → scan_loop s (file_lines m ++ rest) ≡ scan_loop (record s { cur = s.cur ++ body m }) rest
unfolding scan_loop
scan_loop-file_lines [] s rest h e =
    ap (λ c. scan_loop (record s { cur = c }) rest) (sym (append-nil s.cur))
scan_loop-file_lines (l ∷ m) s rest h e =
    scan_loop-cons s _ (quote_line l) (file_lines m ++ rest) (take_line-quote_line s l h.0 e)
    ∙ scan_loop-file_lines m (record s { cur = s.cur ++ end_line l; at_start = true }) rest h.1 refl
    ∙ ap₂ (λ c a. scan_loop (record s { cur = c; at_start = a }) rest)
        (append_assoc s.cur (end_line l) (body m)) (sym e)

flush-cur : (s : Scan) → (flush s).cur ≡ []
unfolding flush add
flush-cur s = ground arith

flush_full :
    (s : Scan) (c : Bytes)
    → s.cur ≡ c
    → 0 < length c
    → (flush s).messages ≡ s.messages ++ wire_form c ∷ []
unfolding flush add
flush_full s [] e h = absurd (omega arith)
flush_full s (b ∷ c) e h = ground arith

length-body-pos : (m : List Bytes) → 0 < length m → 0 < length (body m)
length-body-pos [] h = h
length-body-pos (l ∷ m) h =
    omega (arith, length-append {0} (end_line l) (body m), length-append {0} l (lf ∷ []))

quote_line-Lacks : (l : Bytes) → Lacks lf l → Lacks lf (quote_line l)
unfolding quote_line
quote_line-Lacks l h = elim (Bool-cases (has_prefix l from_line)) [
  | inl from ↦ rw from (omega arith, h)
  | inr other ↦ rw other h
]

lines_of-file_lines :
    (m rest : List Bytes)
    → All IsLine m
    → lines_of (concat rest) ≡ rest
    → lines_of (concat (file_lines m ++ rest)) ≡ file_lines m ++ rest
lines_of-file_lines [] rest h e = e
lines_of-file_lines (l ∷ m) rest h e =
    lines_of-append (quote_line l) _ (quote_line-Lacks l h.0.0)
    ∙ ap (◌∷◌ (end_line (quote_line l))) (lines_of-file_lines m rest h.1 e)

lines_of-write_mbox :
    (ms : List (List Bytes)) → All IsMessage ms → lines_of (write_mbox ms) ≡ box_lines ms
lines_of-write_mbox [] h = unfold lines_of in refl
lines_of-write_mbox (m ∷ ms) h =
    lines_of-append separator _ (omega arith)
    ∙ ap (◌∷◌ (end_line separator))
        (lines_of-file_lines m (box_lines ms) h.0.0 (lines_of-write_mbox ms h.1))

scan_loop-box_lines :
    (ms : List (List Bytes)) (s : Scan)
    → All IsMessage ms
    → s.at_start ≡ true
    → (flush (scan_loop s (box_lines ms))).messages
      ≡ (flush s).messages ++ map (λ m. wire_form (body m)) ms
unfolding scan_loop
scan_loop-box_lines [] s h e = sym (append-nil _)
scan_loop-box_lines (m ∷ ms) s h e =
    let opened = record (flush s) { at_start = true } in
    let filled = record (flush s) { cur = (flush s).cur ++ body m; at_start = true } in
    ap (λ t. (flush t).messages)
      (scan_loop-cons s (flush s) separator (file_lines m ++ box_lines ms) (after_separator s e)
        ∙ scan_loop-file_lines m opened (box_lines ms) h.0.0 refl)
    ∙ scan_loop-box_lines ms filled h.1 refl
    ∙ ap (λ x. x ++ map (λ m. wire_form (body m)) ms)
        (flush_full filled (body m) (rw (flush-cur s)) (length-body-pos m h.0.1))
    ∙ append_assoc (flush s).messages (wire_form (body m) ∷ []) (map (λ m. wire_form (body m)) ms)

-- Messages written to an mbox, with separators before them and their own "From " lines quoted, are
-- the messages that are loaded from it, in order and in the form of the wire. Each has a line, and
-- no line of them is quoted already.
pub messages_of-write_mbox :
    (ms : List (List Bytes))
    → All IsMessage ms
    → messages_of (write_mbox ms) ≡ map (λ m. wire_form (body m)) ms
unfolding messages_of start flush
messages_of-write_mbox ms h =
    ap (λ lines. (flush (scan_loop start lines)).messages) (lines_of-write_mbox ms h)
    ∙ scan_loop-box_lines ms start h refl

-- A file written from messages, each with a separator before it and every line that starts like one
-- quoted, loads as those messages in their order, each in its wire form, if there is a message, no
-- message is empty, no line holds a line feed or starts with a quoted separator, and every line of a
-- wire form has 1000 octets at most.
pub load-write_mbox :
    (ms : List (List Bytes))
    → All IsMessage ms
    → 0 < length ms
    → All (λ m. All IsShort (lines_of m)) (map (λ m. wire_form (body m)) ms)
    → load (readable (write_mbox ms) false)
      ≡ ok (record { messages = map (λ m. wire_form (body m)) ms; seq = 0 })
load-write_mbox ms h n k =
    let same = messages_of-write_mbox ms h in
    load_complete (write_mbox ms) (rw (same, length-map ms (λ m. wire_form (body m))) n) (rw same k)
    ∙ ap (λ l. ok (record { messages = l; seq = 0 })) same
