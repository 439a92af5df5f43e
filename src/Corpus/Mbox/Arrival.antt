-- ===== src/Corpus/Mbox/Arrival.antt =====
-- The messages of a replayed corpus (internal/corpus/mbox.go) as they are delivered
-- (internal/lmtp/lmtp.go: stuffDots, terminator).
use yarilo_loadtest.Base.{
  ◌≡◌, refl, sym, ap, ◌∙◌, Bool, true, false, not, ◌&&◌, ◌||◌, List, [], ◌∷◌, ◌++◌, some, arith,
  Bytes, All, ◌==◌,
}
use yarilo_loadtest.Base.Result.{ok}
use yarilo_loadtest.Lmtp.{stuff_dots, terminator}
use yarilo_loadtest.Lmtp.Dots.{receive, standing, at_start, feeds_follow, receive-stuff_dots}
use yarilo_loadtest.Corpus.Mbox.{lf, cr, Mbox, File, load}
use yarilo_loadtest.Corpus.Mbox.Wire.{IsWire}
use yarilo_loadtest.Corpus.Mbox.Load.{IsDeliverable, load-IsDeliverable}

not-not : (b : Bool) → not (not b) ≡ b
not-not true = refl
not-not false = refl

-- a test behind which a line feed is refused, met in the form of the other test
feeds_checked :
    (feed bare rest : Bool)
    → feed && bare ≡ false
    → rest ≡ true
    → (not bare || not feed) && rest ≡ true
feeds_checked feed bare rest h r = ground (arith, h, r)

feeds_follow-IsWire : (bare : Bool) (s : Bytes) → IsWire bare s → feeds_follow (not bare) s ≡ true
feeds_follow-IsWire bare [] h = refl
feeds_follow-IsWire bare (c ∷ s) h = feeds_checked (c == lf) bare (feeds_follow (c == cr) s) h.0 (
    ap (λ b. feeds_follow b s) ((sym (not-not (c == cr))))
    ∙ feeds_follow-IsWire (not (c == cr)) s h.1)

-- What a receiver makes of a message that is sent.
abbrev pub Arrives : (rest m : Bytes) → Type 0
Arrives rest m =
    receive (standing at_start) (stuff_dots m ++ (terminator m ++ rest)) ≡ some (m, rest)

deliverable-Arrives : (rest m : Bytes) → IsDeliverable m → Arrives rest m
deliverable-Arrives rest m h =
    receive-stuff_dots m rest (feeds_follow-IsWire true m h.0)
    ∙ ap (λ k. some (k, rest)) (ground (arith, h.1))

each-Arrives : (rest : Bytes) (ms : List Bytes) → All IsDeliverable ms → All (Arrives rest) ms
each-Arrives rest [] h = tt
each-Arrives rest (m ∷ ms) h = (deliverable-Arrives rest m h.0, each-Arrives rest ms h.1)

-- Each message of a corpus that loads, as LMTP sends it, reaches a receiver that follows RFC 5321 byte for
-- byte as it was loaded, and the receiver stops exactly behind its terminator, whatever follows.
pub load-Arrives :
    (f : File) (b : Mbox) (rest : Bytes) → load f ≡ ok b → All (Arrives rest) b.messages
load-Arrives f b rest h = each-Arrives rest b.messages (load-IsDeliverable f b h).0
