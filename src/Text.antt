-- ===== src/Text.antt =====
-- What the source uses of Go's `strings` and `bytes`, over byte lists.
pub mod Laws
pub mod Joined
pub mod Number
pub mod Decimal
use yarilo_loadtest.Base.{
  ℕ, ◌+◌, ◌-◌, Bool, true, false, ◌&&◌, ◌||◌, List, [], ◌∷◌, map, Option, none, some, Bytes, leb,
  ltb, ◌==◌, if◌then◌else◌,
}

-- the end of a line on the wire
abbrev pub crlf : Bytes
crlf = 13 ∷ 10 ∷ []

-- `bytes.Equal`
unfoldable pub bytes_eq : Bytes → Bytes → Bool
bytes_eq [] [] = true
bytes_eq [] (d ∷ t) = false
bytes_eq (c ∷ s) [] = false
bytes_eq (c ∷ s) (d ∷ t) = (c == d) && bytes_eq s t

-- `HasPrefix(s, p)`
unfoldable pub has_prefix : Bytes → Bytes → Bool
has_prefix s [] = true
has_prefix [] (d ∷ p) = false
has_prefix (c ∷ s) (d ∷ p) = (c == d) && has_prefix s p

-- `HasSuffix(s, p)`
unfoldable pub has_suffix : Bytes → Bytes → Bool
unfolding bytes_eq
has_suffix [] p = bytes_eq [] p
has_suffix (c ∷ s) p = bytes_eq (c ∷ s) p || has_suffix s p

-- `Contains(s, p)`
unfoldable pub contains : Bytes → Bytes → Bool
unfolding has_prefix
contains [] p = has_prefix [] p
contains (c ∷ s) p = has_prefix (c ∷ s) p || contains s p

-- `TrimLeft` with a test in place of the cut set
unfoldable pub trim_left : (ℕ → Bool) → Bytes → Bytes
trim_left p [] = []
trim_left p (c ∷ s) = elim (p c) [ true ↦ trim_left p s | false ↦ c ∷ s ]

-- one step of `trim_right`: what stands before an already trimmed rest
abbrev pub trim_cons : (ℕ → Bool) → ℕ → Bytes → Bytes
trim_cons p c [] = if p c then [] else c ∷ []
trim_cons p c (d ∷ s) = c ∷ d ∷ s

-- `TrimRight` with a test in place of the cut set
unfoldable pub trim_right : (ℕ → Bool) → Bytes → Bytes
trim_right p [] = []
trim_right p (c ∷ s) = trim_cons p c (trim_right p s)

-- the ASCII white space of `TrimSpace` and `Fields`
abbrev pub is_space : ℕ → Bool
is_space c = (c == 32) || (leb 9 c && leb c 13)

abbrev pub is_crlf : ℕ → Bool
is_crlf c = (c == 13) || (c == 10)

-- `TrimSpace`
unfoldable pub trim_space : Bytes → Bytes
unfolding trim_left trim_right
trim_space s = trim_right is_space (trim_left is_space s)

-- `TrimRight(s, "\r\n")`
unfoldable pub trim_crlf : Bytes → Bytes
unfolding trim_right
trim_crlf s = trim_right is_crlf s

abbrev pub push_first : ℕ → List Bytes → List Bytes
push_first c [] = (c ∷ []) ∷ []
push_first c (p ∷ ps) = (c ∷ p) ∷ ps

-- `Split(s, sep)` with a separator of one byte
unfoldable pub split : Bytes → ℕ → List Bytes
split [] sep = [] ∷ []
split (c ∷ s) sep =
    let rest = split s sep in elim (c == sep) [ true ↦ [] ∷ rest | false ↦ push_first c rest ]

abbrev cut_cons : ℕ → Option (Bytes × Bytes) → Option (Bytes × Bytes)
cut_cons c none = none
cut_cons c (some (before, after)) = some (c ∷ before, after)

-- `Cut(s, sep)` with a separator of one byte
unfoldable pub cut : Bytes → ℕ → Option (Bytes × Bytes)
cut [] sep = none
cut (c ∷ s) sep =
    let rest = cut_cons c (cut s sep) in elim (c == sep) [ true ↦ some ([], s) | false ↦ rest ]

abbrev last_cons : Bool → ℕ → Bytes → Option (Bytes × Bytes) → Option (Bytes × Bytes)
last_cons here c s (some (before, after)) = some (c ∷ before, after)
last_cons true c s none = some ([], s)
last_cons false c s none = none

-- the text before and after `LastIndex(s, sep)`
unfoldable pub cut_last : Bytes → ℕ → Option (Bytes × Bytes)
cut_last [] sep = none
cut_last (c ∷ s) sep = last_cons (c == sep) c s (cut_last s sep)

abbrev pub lower : ℕ → ℕ
lower c = if leb b'A' c && leb c b'Z' then c + 32 else c

abbrev pub upper : ℕ → ℕ
upper c = if leb b'a' c && leb c b'z' then c - 32 else c

-- `ToLower` and `ToUpper` on ASCII
abbrev pub to_lower : Bytes → Bytes
to_lower = map lower

abbrev pub to_upper : Bytes → Bytes
to_upper = map upper

-- `EqualFold` on ASCII
unfoldable pub equal_fold : Bytes → Bytes → Bool
unfolding bytes_eq
equal_fold s t = bytes_eq (to_lower s) (to_lower t)

-- `<` on Go strings
unfoldable pub less : Bytes → Bytes → Bool
less s [] = false
less [] (d ∷ t) = true
less (c ∷ s) (d ∷ t) = let rest = less s t in ltb c d || ((c == d) && rest)
