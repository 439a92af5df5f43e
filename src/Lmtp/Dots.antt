-- ===== src/Lmtp/Dots.antt =====
-- Dot-stuffing (internal/lmtp/lmtp.go) against a receiver that follows RFC 5321 §2.3.8
-- and §4.5.2.
use yarilo_loadtest.Base.{
  ℕ, ◌≡◌, refl, sym, subst, ap, ◌∙◌, Bool, true, false, not, ◌&&◌, ◌||◌, [], ◌∷◌, ◌++◌, Option,
  none, some, append-nil, arith, Bytes, ◌==◌, if◌then◌else◌, Bool-cases, inl, inr,
}
use yarilo_loadtest.Text.{crlf, has_prefix, has_suffix, contains, bytes_eq}
use yarilo_loadtest.Text.Laws.{bytes_eq_iff}
use yarilo_loadtest.Lmtp.{dot, needs_stuffing, stuff_loop, stuff_dots, terminator}

-- A place in the text: at the start of a line, inside one, or behind a carriage return in one. A line
-- ends with a carriage return and a line feed, and with nothing else (RFC 5321 §2.3.8).
pub data Place : Type 0 where
  at_start inside after_cr : Place

-- Where the receiver stands: in the text, behind a dot that began a line, or behind such a dot and a
-- carriage return.
pub data Mode : Type 0 where
  standing : Place → Mode
  dotted dotted_cr : Mode

abbrev pub emit : ℕ → Option (Bytes × Bytes) → Option (Bytes × Bytes)
emit c none = none
emit c (some (msg, rest)) = some (c ∷ msg, rest)

-- the place behind a byte of the text
abbrev in_line : ℕ → Place
in_line c = if c == 13 then after_cr else inside

abbrev behind : Place → ℕ → Place
behind after_cr c = if c == 10 then at_start else in_line c
behind p c = in_line c

-- The receiver: the message, and the bytes behind its end, which are the next command; `none` as
-- long as the message has not ended.
pub receive : Mode → Bytes → Option (Bytes × Bytes)
receive m [] = none
receive (standing at_start) (c ∷ s) =
    let plain = emit c (receive (standing (in_line c)) s) in
    let quoted = receive dotted s in if c == dot then quoted else plain
receive (standing inside) (c ∷ s) = emit c (receive (standing (in_line c)) s)
receive (standing after_cr) (c ∷ s) = emit c (receive (standing (behind after_cr c)) s)
receive dotted (c ∷ s) =
    let plain = emit c (receive (standing (in_line c)) s) in
    let ending = receive dotted_cr s in if c == 13 then ending else plain
receive dotted_cr (c ∷ s) =
    let plain = emit 13 (emit c (receive (standing (in_line c)) s)) in
    if c == 10 then some ([], s) else plain

abbrev is_start : Place → Bool
is_start at_start = true
is_start _ = false

abbrev is_after_cr : Place → Bool
is_after_cr after_cr = true
is_after_cr _ = false

-- Whether each line feed follows a carriage return; `cr` says that one stands before the text.
abbrev pub feeds_follow : (cr : Bool) → Bytes → Bool
feeds_follow cr [] = true
feeds_follow cr (c ∷ s) = (cr || not (c == 10)) && feeds_follow (c == 13) s

abbrev prepend : Bytes → Option (Bytes × Bytes) → Option (Bytes × Bytes)
prepend msg none = none
prepend msg (some (more, rest)) = some (msg ++ more, rest)

-- The place behind a text.
abbrev place_behind : Place → Bytes → Place
place_behind p [] = p
place_behind p (c ∷ s) = place_behind (behind p c) s

emit-prepend :
    (c : ℕ) (msg : Bytes) (o : Option (Bytes × Bytes))
    → emit c (prepend msg o) ≡ prepend (c ∷ msg) o
emit-prepend c msg none = refl
emit-prepend c msg (some r) = refl

and-true-left : (a b : Bool) → (a && b) ≡ true → a ≡ true
and-true-left a b h = ground (arith, h)

and-true : (a b : Bool) → (a && b) ≡ true → b ≡ true
and-true a b h = ground (arith, h)

prepend-nil : (o : Option (Bytes × Bytes)) → o ≡ prepend [] o
prepend-nil none = refl
prepend-nil (some r) = refl

-- where the next byte stands, as the source sees it and as the receiver does
behind-start :
    (p : Place) (c : ℕ)
    → (is_after_cr p || not (c == 10)) ≡ true
    → (c == 10) ≡ is_start (behind p c)
behind-start at_start c h = ground (arith, h)
behind-start inside c h = ground (arith, h)
behind-start after_cr c h = ground arith

behind-cr : (p : Place) (c : ℕ) → (c == 13) ≡ is_after_cr (behind p c)
behind-cr at_start c = ground arith
behind-cr inside c = ground arith
behind-cr after_cr c = ground arith

-- a byte arrives as it is, but for a dot at the start of a line, which arrives doubled
receive-byte :
    (p : Place) (c : ℕ) (msg tail : Bytes)
    → receive (standing p) (stuff_loop (is_start p) (c ∷ msg) ++ tail)
      ≡ emit c (receive (standing (behind p c)) (stuff_loop (c == 10) msg ++ tail))
unfolding receive stuff_loop
receive-byte at_start c msg tail = elim (Bool-cases (c == dot)) [
  | inl is_dot ↦ rw is_dot (ground arith)
  | inr other ↦ rw other (ground arith)
]
receive-byte inside c msg tail = refl
receive-byte after_cr c msg tail = refl

receive-stuff_loop :
    (p : Place) (msg tail : Bytes)
    → feeds_follow (is_after_cr p) msg ≡ true
    → receive (standing p) (stuff_loop (is_start p) msg ++ tail)
      ≡ prepend msg (receive (standing (place_behind p msg)) tail)
unfolding stuff_loop
receive-stuff_loop p [] tail h = prepend-nil (receive (standing p) tail)
receive-stuff_loop p (c ∷ msg) tail h =
    let here = behind-start p c (and-true-left (is_after_cr p || not (c == 10)) _ h) in
    let later =
      ap (λ b. feeds_follow b msg) (sym (behind-cr p c))
      ∙ and-true (is_after_cr p || not (c == 10)) _ h in
    receive-byte p c msg tail
    ∙ ap (λ b. emit c (receive (standing (behind p c)) (stuff_loop b msg ++ tail))) here
    ∙ ap (emit c) (receive-stuff_loop (behind p c) msg tail later)
    ∙ emit-prepend c msg _

-- where `needsStuffing` finds nothing the loop changes nothing
stuff_loop-id :
    (b : Bool) (s : Bytes)
    → contains s (10 ∷ dot ∷ []) ≡ false
    → (b && has_prefix s (dot ∷ [])) ≡ false
    → stuff_loop b s ≡ s
unfolding stuff_loop contains has_prefix
stuff_loop-id b [] h k = refl
stuff_loop-id b (c ∷ s) h k = ground (arith, stuff_loop-id (c == 10) s)

or-false : (a b : Bool) → (a || b) ≡ false → b ≡ false
or-false a b h = ground arith

or-false-left : (a b : Bool) → (a || b) ≡ false → a ≡ false
or-false-left a b h = ground arith

first_byte :
    (c : ℕ) (s : Bytes) → (c == dot) ≡ false → (true && has_prefix (c ∷ s) (dot ∷ [])) ≡ false
unfolding has_prefix
first_byte c s h = ground arith

stuff_dots-loop : (msg : Bytes) → stuff_dots msg ≡ stuff_loop true msg
unfolding stuff_dots needs_stuffing
stuff_dots-loop [] = unfold stuff_loop contains in refl
stuff_dots-loop (c ∷ s) = elim (Bool-cases ((c == dot) || contains (c ∷ s) (10 ∷ dot ∷ []))) [
  | inl needed ↦ rw needed
  | inr spared ↦ rw spared (
      sym (
        stuff_loop-id true (c ∷ s) (or-false (c == dot) _ spared)
          (first_byte c s (or-false-left (c == dot) _ spared))))
]

-- behind a line end a line starts
place_behind-crlf : (p : Place) (s : Bytes) → has_suffix s crlf ≡ true → place_behind p s ≡ at_start
unfolding has_suffix
place_behind-crlf p [] h = cc
place_behind-crlf p (c ∷ s) h = elim (Bool-cases (bytes_eq (c ∷ s) crlf)) [
  | inl whole ↦
      subst (λ m. place_behind p m ≡ at_start) (sym ((bytes_eq_iff (c ∷ s) crlf).0 whole))
        (crlf_starts p)
  | inr longer ↦ place_behind-crlf (behind p c) s (rw longer at h)
]
  where
    crlf_starts : (q : Place) → place_behind q crlf ≡ at_start
    crlf_starts at_start = refl
    crlf_starts inside = refl
    crlf_starts after_cr = refl

-- the end of the data, at the start of a line
receive-dot : (rest : Bytes) → receive (standing at_start) ((dot ∷ crlf) ++ rest) ≡ some ([], rest)
unfolding receive
receive-dot rest = refl

receive-crlf-dot :
    (p : Place) (rest : Bytes)
    → receive (standing p) ((crlf ++ (dot ∷ crlf)) ++ rest) ≡ some (crlf, rest)
unfolding receive
receive-crlf-dot at_start rest = refl
receive-crlf-dot inside rest = refl
receive-crlf-dot after_cr rest = refl

-- The message that arrives: the one that was sent, with the line end that it may lack.
abbrev pub ended : Bytes → Bytes
ended msg = if has_suffix msg crlf then msg else msg ++ crlf

-- Where each line feed of a message follows a carriage return, a receiver that follows RFC 5321, for
-- which nothing but the two of them ends a line, gets back the whole message, with the line end that it
-- may lack, and stops exactly behind the terminator: nothing of the message is read as a command, and
-- nothing of what follows as message.
pub receive-stuff_dots :
    (msg rest : Bytes)
    → feeds_follow false msg ≡ true
    → receive (standing at_start) (stuff_dots msg ++ (terminator msg ++ rest))
      ≡ some (ended msg, rest)
unfolding terminator
receive-stuff_dots msg rest h =
    ap (λ sent. receive (standing at_start) (sent ++ (terminator msg ++ rest)))
      (stuff_dots-loop msg)
    ∙ receive-stuff_loop at_start msg (terminator msg ++ rest) h
    ∙ elim (Bool-cases (has_suffix msg crlf)) [
      | inl closed ↦
          rw (closed, place_behind-crlf at_start msg closed, receive-dot rest, append-nil)
      | inr open_line ↦ rw (open_line, receive-crlf-dot (place_behind at_start msg) rest)
    ]
