-- ===== src/Corpus/Mbox/Load.antt =====
-- What `LoadMbox` accepts, and what it makes of a file.
use yarilo_loadtest.Base.{
  ◌<◌, ◌≡◌, ◌⊎◌, refl, true, false, Bool, List, [], ◌∷◌, ◌++◌, none, arith, Bytes, ◌==◌, All,
  All-append, length, inl, inr,
}
use yarilo_loadtest.Base.Result.{ok}
use yarilo_loadtest.Text.{has_suffix, trim_crlf}
use yarilo_loadtest.Corpus.Mbox.{
  lf, crlf, normalise, wire_form, lines_of, Mbox, Scan, start, add, flush, take_line, scan_loop,
  check_messages, accept, File, missing, readable, load,
}
use yarilo_loadtest.Corpus.Mbox.Wire.{IsWire, wire_form-IsWire, wire_form_ends}
use yarilo_loadtest.Corpus.Mbox.Lines.{IsShort, ends_lf, check_messages_iff}

-- A message that the wire carries: its line feeds stand behind carriage returns, it ends in a line
-- end, and no line is longer than SMTP allows.
abbrev pub IsDeliverable : Bytes → Type 0
IsDeliverable m = IsWire true m × (has_suffix m crlf ≡ true) × All IsShort (lines_of m)

ends_lf-append-crlf : (d : Bool) (s : Bytes) → ends_lf d (s ++ crlf) ≡ true
ends_lf-append-crlf d [] = refl
ends_lf-append-crlf d (c ∷ s) = ends_lf-append-crlf (c == lf) s

wire_form-ends_lf : (s : Bytes) → ends_lf false (wire_form s) ≡ true
unfolding wire_form
wire_form-ends_lf s = ends_lf-append-crlf false (trim_crlf (normalise true s))

abbrev IsForm : Bytes → Type 0
IsForm m = IsWire true m × (has_suffix m crlf ≡ true) × (ends_lf false m ≡ true)

add-IsForm : (s : Scan) → All IsForm s.messages → All IsForm (add s).messages
unfolding add
add-IsForm s h =
    All-append IsForm s.messages _ h
      ((wire_form-IsWire s.cur, wire_form_ends s.cur, wire_form-ends_lf s.cur), tt)

flush_either :
    (s : Scan) → ((flush s).messages ≡ s.messages) ⊎ ((flush s).messages ≡ (add s).messages)
unfolding flush
flush_either s = ground arith

flush-IsForm : (s : Scan) → All IsForm s.messages → All IsForm (flush s).messages
flush-IsForm s h = elim (flush_either s) [
  | inl same ↦ rw same h
  | inr added ↦ rw added (add-IsForm s h)
]

take_line_either :
    (s : Scan) (line : Bytes)
    → ((take_line s line).messages ≡ s.messages)
      ⊎ ((take_line s line).messages ≡ (flush s).messages)
unfolding take_line
take_line_either s line = ground arith

take_line-IsForm :
    (s : Scan) (line : Bytes) → All IsForm s.messages → All IsForm (take_line s line).messages
take_line-IsForm s line h = elim (take_line_either s line) [
  | inl same ↦ rw same h
  | inr flushed ↦ rw flushed (flush-IsForm s h)
]

-- the scan after one line, as the loop goes on with it
abbrev after_line : Scan → Bytes → Scan
after_line s line = record (take_line s line) { at_start = has_suffix line (lf ∷ []) }

scan_loop-IsForm :
    (lines : List Bytes) (s : Scan)
    → All IsForm s.messages
    → All IsForm (scan_loop s lines).messages
unfolding scan_loop
scan_loop-IsForm [] s h = h
scan_loop-IsForm (line ∷ lines) s h =
    scan_loop-IsForm lines (after_line s line) (take_line-IsForm s line h)

-- The messages that a file holds, before they are checked.
unfoldable pub messages_of : Bytes → List Bytes
messages_of content = (flush (scan_loop start (lines_of content))).messages

messages_of-IsForm : (content : Bytes) → All IsForm (messages_of content)
unfolding messages_of start
messages_of-IsForm content = flush-IsForm _ (scan_loop-IsForm (lines_of content) start tt)

IsForm-ends : (ms : List Bytes) → All IsForm ms → All (λ m. ends_lf false m ≡ true) ms
IsForm-ends [] h = tt
IsForm-ends (m ∷ ms) h = (h.0.2, IsForm-ends ms h.1)

IsForm-IsDeliverable :
    (ms : List Bytes)
    → All IsForm ms
    → All (λ m. All IsShort (lines_of m)) ms
    → All IsDeliverable ms
IsForm-IsDeliverable [] h k = tt
IsForm-IsDeliverable (m ∷ ms) h k = ((h.0.0, h.0.1, k.0), IsForm-IsDeliverable ms h.1 k.1)

accept_inv :
    (ms : List Bytes) (b : Mbox)
    → accept ms ≡ ok b
    → (b.messages ≡ ms) × (b.seq ≡ 0) × (0 < length ms) × (check_messages 0 ms ≡ none)
unfolding accept
accept_inv [] b h = cc
accept_inv (m ∷ ms) b h = ground arith

-- A corpus that loads is not empty, starts at its first message, and holds only messages that the
-- wire carries: no bare line feed, a CRLF at the end, and no line over 1000 octets.
pub load-IsDeliverable :
    (f : File) (b : Mbox)
    → load f ≡ ok b
    → All IsDeliverable b.messages × (0 < length b.messages) × (b.seq ≡ 0)
unfolding load messages_of
load-IsDeliverable missing b h = cc
load-IsDeliverable (readable content true) b h = cc
load-IsDeliverable (readable content false) b h =
    let (same, first, some_left, checked) = accept_inv _ b h in
    let forms = messages_of-IsForm content in
    rw same (
      IsForm-IsDeliverable _ forms ((check_messages_iff 0 _ (IsForm-ends _ forms)).0 checked),
      some_left,
      first,
    )

accept-ok :
    (ms : List Bytes)
    → 0 < length ms
    → check_messages 0 ms ≡ none
    → accept ms ≡ ok (record { messages = ms; seq = 0 })
unfolding accept
accept-ok [] h e = absurd (omega arith)
accept-ok (m ∷ ms) h e = ground arith

-- Nothing else is refused: a readable file whose messages are one or more, with short lines, loads.
pub load_complete :
    (content : Bytes)
    → 0 < length (messages_of content)
    → All (λ m. All IsShort (lines_of m)) (messages_of content)
    → load (readable content false) ≡ ok (record { messages = messages_of content; seq = 0 })
unfolding load messages_of
load_complete content h k =
    accept-ok _ h ((check_messages_iff 0 _ (IsForm-ends _ (messages_of-IsForm content))).1 k)
