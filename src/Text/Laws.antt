-- ===== src/Text/Laws.antt =====
-- Laws of the text functions that the components share.
use yarilo_loadtest.Base.{
  ℕ, ◌≡◌, ◌≢◌, ◌↔◌, refl, sym, ◌∙◌, Bool-cases, inl, inr, true, false, Bool, [], ◌∷◌, ◌++◌, none,
  some, arith, Bytes, All, ap, subst,
}
use yarilo_loadtest.Text.{
  bytes_eq, has_prefix, has_suffix, trim_left, trim_right, trim_cons, is_space, trim_space, split,
  cut, cut_last,
}

-- No byte of the text is `b`.
abbrev pub Lacks : ℕ → Bytes → Type 0
Lacks b = All (λ c. c ≢ b)

eq-of-bytes_eq : (s t : Bytes) → bytes_eq s t ≡ true → s ≡ t
unfolding bytes_eq
eq-of-bytes_eq [] [] h = refl
eq-of-bytes_eq [] (d ∷ t) h = cc
eq-of-bytes_eq (c ∷ s) [] h = cc
eq-of-bytes_eq (c ∷ s) (d ∷ t) h = ground (arith, eq-of-bytes_eq s t)

pub bytes_eq_refl : (s : Bytes) → bytes_eq s s ≡ true
unfolding bytes_eq
bytes_eq_refl [] = refl
bytes_eq_refl (c ∷ s) = ground (arith, bytes_eq_refl s)

pub bytes_eq_iff : (s t : Bytes) → (bytes_eq s t ≡ true) ↔ (s ≡ t)
bytes_eq_iff s t = (eq-of-bytes_eq s t, λ e. subst (λ u. bytes_eq s u ≡ true) e (bytes_eq_refl s))

pub bytes_eq_other : (s t : Bytes) → bytes_eq s t ≡ false → bytes_eq t s ≡ false
bytes_eq_other s t h = elim (Bool-cases (bytes_eq t s)) [
  | inl same ↦ ground (arith, h, eq-of-bytes_eq t s same, bytes_eq_refl t)
  | inr other ↦ other
]

pub bytes_eq_sym : (s t : Bytes) → bytes_eq s t ≡ bytes_eq t s
bytes_eq_sym s t = elim (Bool-cases (bytes_eq s t)) [
  | inl same ↦ ground (arith, same, eq-of-bytes_eq s t same, bytes_eq_refl s)
  | inr other ↦ other ∙ sym (bytes_eq_other s t other)
]

pub has_prefix-append : (p s : Bytes) → has_prefix (p ++ s) p ≡ true
unfolding has_prefix
has_prefix-append [] [] = refl
has_prefix-append [] (c ∷ s) = refl
has_prefix-append (c ∷ p) s = ground (arith, has_prefix-append p s)

pub cut-append :
    (before after : Bytes) (sep : ℕ)
    → Lacks sep before
    → cut (before ++ sep ∷ after) sep ≡ some (before, after)
unfolding cut
cut-append [] after sep h = ground arith
cut-append (c ∷ s) after sep h = ground (arith, cut-append s after sep)

pub cut_last-Lacks : (s : Bytes) (sep : ℕ) → Lacks sep s → cut_last s sep ≡ none
unfolding cut_last
cut_last-Lacks [] sep h = refl
cut_last-Lacks (c ∷ s) sep h = ground (arith, cut_last-Lacks s sep)

pub cut_last-append :
    (before after : Bytes) (sep : ℕ)
    → Lacks sep after
    → cut_last (before ++ sep ∷ after) sep ≡ some (before, after)
unfolding cut_last
cut_last-append [] after sep h = ground (arith, cut_last-Lacks after sep)
cut_last-append (c ∷ s) after sep h = ground (arith, cut_last-append s after sep)

pub cut-Lacks : (s : Bytes) (sep : ℕ) → Lacks sep s → cut s sep ≡ none
unfolding cut
cut-Lacks [] sep h = refl
cut-Lacks (c ∷ s) sep h = ground (arith, cut-Lacks s sep)

pub split-Lacks : (s : Bytes) (sep : ℕ) → Lacks sep s → split s sep ≡ s ∷ []
unfolding split
split-Lacks [] sep h = refl
split-Lacks (c ∷ s) sep h = ground (arith, split-Lacks s sep)

-- A part that lacks the separator is the first part of a split.
pub split-append :
    (p s : Bytes) (sep : ℕ) → Lacks sep p → split (p ++ sep ∷ s) sep ≡ p ∷ split s sep
unfolding split
split-append [] s sep h = ground arith
split-append (c ∷ p) s sep h = ground (arith, split-append p s sep)

-- No byte of the text is white space.
abbrev pub Solid : Bytes → Type 0
Solid = All (λ c. is_space c ≡ false)

trim_right-Solid : (s : Bytes) → Solid s → trim_right is_space s ≡ s
unfolding trim_right
trim_right-Solid [] h = refl
trim_right-Solid (c ∷ []) h = ground arith
trim_right-Solid (c ∷ d ∷ s) h = rw (trim_right-Solid (d ∷ s) h.1)

pub trim_space-Solid : (s : Bytes) → Solid s → trim_space s ≡ s
unfolding trim_space trim_left
trim_space-Solid [] h = refl
trim_space-Solid (c ∷ s) h = ground (arith, trim_right-Solid (c ∷ s) h)

pub has_suffix-append : (s p : Bytes) → has_suffix (s ++ p) p ≡ true
unfolding has_suffix
has_suffix-append [] [] = refl
has_suffix-append [] (c ∷ p) = ground (arith, bytes_eq_refl (c ∷ p))
has_suffix-append (c ∷ s) p = ground (arith, has_suffix-append s p)

pub trim_right-append :
    (p : ℕ → Bool) (s q : Bytes) → All (λ c. p c ≡ true) q → trim_right p (s ++ q) ≡ trim_right p s
unfolding trim_right
trim_right-append p [] [] h = refl
trim_right-append p [] (c ∷ q) h = ground (arith, trim_right-append p [] q h.1)
trim_right-append p (c ∷ s) q h = ap (trim_cons p c) (trim_right-append p s q h)
