-- ===== src/Corpus/Generator/Filler.antt =====
-- How much `writeFiller` and `writeBase64Filler` write.
use yarilo_loadtest.Base.{
  ℕ, zero, suc, ◌+◌, ◌-◌, ◌*◌, ◌/◌, ◌%◌, ◌≤◌, ◌<◌, ◌≡◌, [], ◌∷◌, ◌++◌, arith, Bytes, length,
  length-append, ltb, get_or, ◌==◌, if◌then◌else◌, Bool-cases, inl, inr, All-get_or, lt→ltb, le→ltb,
}
use yarilo_loadtest.Corpus.Generator.{
  crlf, alphabet, words, filler_word, filler_loop, write_filler, base64_line, base64_loop,
  write_base64,
}

word_lengths :
    (i : ℕ) → i < 10 → (5 ≤ length (get_or words i [])) × (length (get_or words i []) ≤ 10)
word_lengths i h = All-get_or (λ w. (5 ≤ length w) × (length w ≤ 10)) words i [] (omega arith) h

filler_word-length : (line : ℕ) → (6 ≤ length (filler_word line)) × (length (filler_word line) ≤ 13)
unfolding filler_word
filler_word-length line = elim (Bool-cases ((line + 1) % 10 == 0)) [
  | inl tenth ↦
      rw tenth (omega (arith, lengths, length-append {0} (get_or words (line % 10) []) (32 ∷ crlf)))
  | inr other ↦
      rw other (omega (arith, lengths, length-append {0} (get_or words (line % 10) []) (32 ∷ [])))
]
  where
    lengths :
        (5 ≤ length (get_or words (line % 10) [])) × (length (get_or words (line % 10) []) ≤ 10)
    lengths = word_lengths (line % 10) (omega arith)

-- With fuel for the bytes that are missing the loop reaches its target, and passes it by 12 at most.
filler_loop-reaches :
    (fuel target line : ℕ) (b : Bytes)
    → target ≤ length b + fuel
    → length b ≤ target + 12
    → (target ≤ length (filler_loop fuel target line b))
      × (length (filler_loop fuel target line b) ≤ target + 12)
unfolding filler_loop
filler_loop-reaches zero target line b h k = (omega arith, omega arith)
filler_loop-reaches (suc fuel) target line b h k = ground (
  arith,
  filler_word-length line,
  length-append b (filler_word line),
  filler_loop-reaches fuel target (line + 1) (b ++ filler_word line),
)

-- A buffer that is short of the target is filled up to it, and passed by 2 to 14 bytes; any other
-- buffer stays as it is.
pub write_filler-length :
    (b : Bytes) (target : ℕ)
    → length b < target
    → (target + 2 ≤ length (write_filler b target)) × (length (write_filler b target) ≤ target + 14)
unfolding write_filler
write_filler-length b target h =
    let reached = filler_loop-reaches target target 0 b (omega arith) (omega arith) in
    let loop = filler_loop target target 0 b in
    rw (lt→ltb _ _ h) (omega (arith, reached, length-append {0} loop crlf))

pub write_filler_full : (b : Bytes) (target : ℕ) → target ≤ length b → write_filler b target ≡ b
unfolding write_filler
write_filler_full b target h = rw (le→ltb _ _ h)

-- A line of base64 takes what is left of 76 places, or of the bytes that are still to be written.
length-base64_line :
    (left i n written : ℕ) (line : Bytes)
    → written ≤ n
    → length (base64_line left i n written line).0 + written
      ≡ length line + (base64_line left i n written line).1
unfolding base64_line
length-base64_line zero i n written line h = omega arith
length-base64_line (suc left) i n written line h =
    let c = get_or alphabet ((written + i) % 64) 0 in
    ground (
      arith,
      length-append {0} line (c ∷ []),
      length-base64_line left (i + 1) n (written + 1) (line ++ c ∷ []),
    )

base64_line_written :
    (left i n written : ℕ) (line : Bytes)
    → written ≤ n
    → (base64_line left i n written line).1 ≡ (if ltb (n - written) left then n else written + left)
unfolding base64_line
base64_line_written zero i n written line h = ground arith
base64_line_written (suc left) i n written line h = ground (
  arith,
  base64_line_written left (i + 1) n (written + 1)
      (line ++ get_or alphabet ((written + i) % 64) 0 ∷ []),
)

length-base64_loop :
    (fuel n written : ℕ) (b : Bytes)
    → written ≤ n
    → n ≤ written + fuel
    → length (base64_loop fuel n written b)
      ≡ length b + (n - written) + 2 * ((n - written + 75) / 76)
unfolding base64_loop
length-base64_loop zero n written b h k = omega arith
length-base64_loop (suc fuel) n written b h k =
    let round = base64_line 76 0 n written [] in
    ground (
      arith,
      length-base64_line 76 0 n written [] h,
      base64_line_written 76 0 n written [] h,
      length-append {0} b (round.0 ++ crlf),
      length-append {0} round.0 crlf,
      length-base64_loop fuel n round.1 (b ++ (round.0 ++ crlf)),
    )

-- `writeBase64Filler` adds n bytes of payload, and a CRLF for each 76 of them or part of it.
pub length-write_base64 :
    (b : Bytes) (n : ℕ) → length (write_base64 b n) ≡ length b + n + 2 * ((n + 75) / 76)
unfolding write_base64
length-write_base64 b n = omega (arith, length-base64_loop n n 0 b (omega arith) (omega arith))
