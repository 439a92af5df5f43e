-- ===== src/Text/Joined.antt =====
-- Fields joined by commas, as the lists of the command line are written.
use yarilo_loadtest.Base.{
  ◌<◌, ◌≡◌, refl, ap, ◌∙◌, List, [], ◌∷◌, ◌++◌, arith, Bytes, All, All-append, length,
  length-append,
}
use yarilo_loadtest.Text.{split}
use yarilo_loadtest.Text.Laws.{Lacks, Solid, split-append, split-Lacks}

-- A field holds neither a comma nor white space, and is not empty.
abbrev pub IsField : Bytes → Type 0
IsField s = Solid s × Lacks b',' s × (0 < length s)

abbrev pub join_commas : List Bytes → Bytes
join_commas [] = []
join_commas (p ∷ []) = p
join_commas (p ∷ q ∷ ps) = p ++ b',' ∷ join_commas (q ∷ ps)

pub split-join_commas :
    (p : Bytes) (ps : List Bytes)
    → All IsField (p ∷ ps)
    → split (join_commas (p ∷ ps)) b',' ≡ p ∷ ps
split-join_commas p [] h = split-Lacks p b',' h.0.1
split-join_commas p (q ∷ ps) h =
    split-append p _ b',' h.0.1 ∙ ap (◌∷◌ p) (split-join_commas q ps h.1)

pub join_commas-Solid :
    (p : Bytes) (ps : List Bytes) → All IsField (p ∷ ps) → Solid (join_commas (p ∷ ps))
join_commas-Solid p [] h = h.0.0
join_commas-Solid p (q ∷ ps) h = All-append _ p _ h.0.0 (refl, join_commas-Solid q ps h.1)

pub join_commas-pos :
    (p : Bytes) (ps : List Bytes) → All IsField (p ∷ ps) → 0 < length (join_commas (p ∷ ps))
join_commas-pos p [] h = h.0.2
join_commas-pos p (q ∷ ps) h =
    omega (arith, length-append {0} p (b',' ∷ join_commas (q ∷ ps)), h.0.2)
