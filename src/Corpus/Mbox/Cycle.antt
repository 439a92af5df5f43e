-- ===== src/Corpus/Mbox/Cycle.antt =====
-- The order in which `Next` (internal/corpus/mbox.go) draws the messages.
use yarilo_loadtest.Base.{
  ℕ, zero, suc, ◌+◌, ◌-◌, ◌%◌, ◌^◌, ◌<◌, ◌≡◌, refl, ap, ◌∙◌, List, [], ◌∷◌, Option, arith, Bytes,
  length, get_elem?, word, signed, pos,
}
use yarilo_loadtest.Corpus.Mbox.{Mbox, message_at, next}

-- What the call number k + 1 of `Next` returns.
pub draw : ℕ → Mbox → Option Bytes
draw zero b = (next b).0
draw (suc k) b = draw k (next b).1

message_at-pos :
    (ms : List Bytes) (n : ℕ) → 0 < length ms → message_at ms (pos n) ≡ get_elem? ms (n % length ms)
unfolding message_at
message_at-pos [] n h = absurd (omega arith)
message_at-pos (m ∷ ms) n h = refl

next_message :
    (b : Mbox)
    → 0 < length b.messages
    → b.seq < 2 ^ 63
    → (next b).0 ≡ get_elem? b.messages (b.seq % length b.messages)
unfolding next
next_message b l h = ap (message_at b.messages) number ∙ message_at-pos b.messages b.seq l
  where
    number : signed (((b.seq + 1) % word + word - 1) % word) ≡ pos b.seq
    number = ground arith

next_seq : (b : Mbox) → b.seq < 2 ^ 63 → (next b).1 ≡ record b { seq = b.seq + 1 }
unfolding next
next_seq b h = ground arith

-- As long as fewer than 2 ^ 63 messages have been drawn, the calls of `Next` return the messages in
-- order, and begin again behind the last.
pub draw-cycles :
    (k : ℕ) (b : Mbox)
    → 0 < length b.messages
    → b.seq + k < 2 ^ 63
    → draw k b ≡ get_elem? b.messages ((b.seq + k) % length b.messages)
unfolding draw
draw-cycles zero b l h =
    next_message b l (omega arith)
    ∙ ap (λ (i : ℕ). get_elem? b.messages (i % length b.messages)) (omega arith)
draw-cycles (suc k) b l h = rw (next_seq b (omega arith)) (
    draw-cycles k (record b { seq = b.seq + 1 }) l (omega arith)
    ∙ ap (λ (i : ℕ). get_elem? b.messages (i % length b.messages)) (omega arith))
