-- ===== src/Recipients/Expand.antt =====
-- The address list as a grammar: what `expandRecipients` does to a list of named addresses and
-- numbered runs, written out and separated by commas.
use yarilo_loadtest.Base.{
  ℕ, zero, suc, ◌+◌, ◌%◌, ◌^◌, ◌≤◌, ◌<◌, ◌≡◌, refl, sym, ap, ◌∙◌, List, [], ◌∷◌, ◌++◌, map, some,
  arith, append_assoc, append-nil, Bytes, All, All-append, All-map, length, length-append, pos,
  word, signed,
}
use yarilo_loadtest.Base.Result.{ok, ◌>>=◌}
use yarilo_loadtest.Text.{trim_space, split, cut}
use yarilo_loadtest.Text.Laws.{Lacks, Solid, trim_space-Solid, cut-append, cut_last-Lacks}
use yarilo_loadtest.Text.Joined.{
  IsField, join_commas, split-join_commas, join_commas-Solid, join_commas-pos,
}
use yarilo_loadtest.Text.Number.{print_nat, print_int}
use yarilo_loadtest.Text.Decimal.{IsDigit-Solid, IsDigit, print_nat-IsDigit}
use yarilo_loadtest.Recipients.{
  address, number_loop, count_suffix, split_count, expand_part, expand_loop, expand_recipients,
}
use yarilo_loadtest.Recipients.Count.{IsDigit-Lacks, split_count-print_nat}
use yarilo_loadtest.Recipients.Trailing.{EndsPlain, split_trailing_number-print_nat}

-- An entry of the list: an address written out, or the run of `count` addresses from `first` on.
pub data Entry : Type 0 where
  named : Bytes → Entry
  numbered : (prefix : Bytes) (first : ℕ) (domain : Bytes) (count : ℕ) → Entry

abbrev pub user : Bytes → ℕ → Bytes → Bytes
user prefix n domain = prefix ++ (print_nat n ++ b'@' ∷ domain)

abbrev pub users : Bytes → ℕ → Bytes → ℕ → List Bytes
users prefix n domain zero = []
users prefix n domain (suc count) = user prefix n domain ∷ users prefix (n + 1) domain count

-- How an entry is written, and the addresses that it stands for.
abbrev pub render : Entry → Bytes
render (named a) = a
render (numbered prefix first domain count) = user prefix first domain ++ b':' ∷ print_nat count

abbrev pub meaning : Entry → List Bytes
meaning (named a) = a ∷ []
meaning (numbered prefix first domain count) = users prefix first domain count

abbrev pub meanings : List Entry → List Bytes
meanings [] = []
meanings (e ∷ es) = meaning e ++ meanings es

-- White space and commas separate entries, and a colon announces a count.
abbrev pub IsWellFormed : Entry → Type 0
IsWellFormed (named a) = Solid a × Lacks b',' a × Lacks b':' a × (0 < length a)
IsWellFormed (numbered prefix first domain count) =
    (Solid prefix × Lacks b',' prefix × Lacks b'@' prefix × EndsPlain prefix)
    × (Solid domain × Lacks b',' domain)
    × ((0 < first) × (0 < count) × (first + count ≤ 2 ^ 63))

address-user :
    (p d : Bytes) (n i m : ℕ) → m ≡ n + i → m < 2 ^ 63 → address p (pos n) d i ≡ user p m d
unfolding address print_int
address-user p d n i m e h =
    let word_exact : signed ((n % word + i) % word) ≡ pos m = ground arith in rw word_exact

number_loop-users :
    (k i n m : ℕ) (p d : Bytes) (out : List Bytes)
    → m ≡ n + i
    → m + k ≤ 2 ^ 63
    → number_loop k i p (pos n) d out ≡ out ++ users p m d k
unfolding number_loop
number_loop-users zero i n m p d out e h = sym (append-nil out)
number_loop-users (suc k) i n m p d out e h =
    rw
      (
        address-user p d n i m e (omega arith),
        number_loop-users k (i + 1) n (m + 1) p d (out ++ user p m d ∷ []) (omega arith)
            (omega arith),
      )
      (append_assoc out (user p m d ∷ []) (users p (m + 1) d k))

expand_part_named :
    (flag a : Bytes) (out : List Bytes) → Lacks b':' a → expand_part flag a out ≡ ok (out ++ a ∷ [])
unfolding expand_part split_count count_suffix
expand_part_named flag a out h = rw (cut_last-Lacks a b':' h, expand_part)

user-cut : (p d : Bytes) (n : ℕ) → Lacks b'@' p → cut (user p n d) b'@' ≡ some (p ++ print_nat n, d)
user-cut p d n h = rw (← append_assoc p (print_nat n) (b'@' ∷ d)) (
    cut-append (p ++ print_nat n) d b'@'
      (All-append _ p (print_nat n) h (IsDigit-Lacks b'@' refl _ (print_nat-IsDigit n))))

split_count-user :
    (addr : Bytes) (k : ℕ)
    → 0 < k
    → k < 2 ^ 63
    → split_count (addr ++ b':' ∷ print_nat k) ≡ some (addr, pos k)
split_count-user addr k l h = ground (arith, split_count-print_nat addr k)

expand_part-numbered :
    (flag p d : Bytes) (n k : ℕ) (out : List Bytes)
    → IsWellFormed (numbered p n d k)
    → expand_part flag (render (numbered p n d k)) out ≡ ok (out ++ users p n d k)
unfolding expand_part
expand_part-numbered flag p d n k out (hp, hd, hn) =
    rw
      (
        split_count-user (user p n d) k hn.1 (omega arith),
        user-cut p d n hp.2,
        split_trailing_number-print_nat p n hp.3 hn.0 (omega arith),
        expand_part,
      )
      (ap ok (number_loop-users k 0 n n p d out (omega arith) hn.2))

expand_part-render :
    (flag : Bytes) (e : Entry) (out : List Bytes)
    → IsWellFormed e
    → expand_part flag (render e) out ≡ ok (out ++ meaning e)
expand_part-render flag (named a) out h = expand_part_named flag a out h.2
expand_part-render flag (numbered p n d k) out h = expand_part-numbered flag p d n k out h

-- What a rendered text lacks, byte by byte: no digit, at sign or colon is such a byte.
module _ (P : ℕ → Type 0) (digits : (s : Bytes) → All IsDigit s → All P s) where
  user-All : (p d : Bytes) (n : ℕ) → P b'@' → All P p → All P d → All P (user p n d)
  user-All p d n at hp hd =
      All-append P p _ hp (All-append P (print_nat n) _ (digits _ (print_nat-IsDigit n)) (at, hd))

  numbered-All :
      (p d : Bytes) (n k : ℕ)
      → P b'@'
      → P b':'
      → All P p
      → All P d
      → All P (render (numbered p n d k))
  numbered-All p d n k at colon hp hd =
      All-append P (user p n d) _ (user-All p d n at hp hd) (colon, digits _ (print_nat-IsDigit k))

render-Solid : (e : Entry) → IsWellFormed e → Solid (render e)
render-Solid (named a) h = h.0
render-Solid (numbered p n d k) (hp, hd, hn) =
    numbered-All _ IsDigit-Solid p d n k refl refl hp.0 hd.0

render-Lacks : (e : Entry) → IsWellFormed e → Lacks b',' (render e)
render-Lacks (named a) h = h.1
render-Lacks (numbered p n d k) (hp, hd, hn) =
    numbered-All _ (IsDigit-Lacks b',' refl) p d n k (omega arith) (omega arith) hp.1 hd.1

render-pos : (e : Entry) → IsWellFormed e → 0 < length (render e)
render-pos (named a) h = h.3
render-pos (numbered p n d k) h = omega (arith, length-append {0} (user p n d) (b':' ∷ print_nat k))

-- one round of the loop, at a part that is not empty once trimmed
expand_loop-round :
    (flag raw part : Bytes) (parts out : List Bytes)
    → trim_space raw ≡ part
    → 0 < length part
    → expand_loop flag (raw ∷ parts) out
      ≡ (expand_part flag part out >>= λ next. expand_loop flag parts next)
unfolding expand_loop
expand_loop-round flag raw [] parts out e h = absurd (omega arith)
expand_loop-round flag raw (c ∷ part) parts out e h = rw (e, expand_loop)

expand_loop-render :
    (flag : Bytes) (es : List Entry) (out : List Bytes)
    → All IsWellFormed es
    → expand_loop flag (map render es) out ≡ ok (out ++ meanings es)
expand_loop-render flag [] out h = unfold expand_loop in rw append-nil
expand_loop-render flag (e ∷ es) out (he, hes) =
    rw
      (
        expand_loop-round flag (render e) (render e) (map render es) out
            (trim_space-Solid _ (render-Solid e he)) (render-pos e he),
        expand_part-render flag e out he,
      )
      (expand_loop-render flag es (out ++ meaning e) hes
        ∙ ap ok (append_assoc out (meaning e) (meanings es)))

render-IsField : (e : Entry) → IsWellFormed e → IsField (render e)
render-IsField e h = (render-Solid e h, render-Lacks e h, render-pos e h)

-- the list is split where `expandRecipients` finds a text that is not empty
expand_recipients-split :
    (flag spec : Bytes)
    → trim_space spec ≡ spec
    → 0 < length spec
    → expand_recipients flag spec ≡ expand_loop flag (split spec b',') []
unfolding expand_recipients
expand_recipients-split flag [] e h = absurd (omega arith)
expand_recipients-split flag (c ∷ s) e h = rw (e, expand_recipients)

-- A list of one or more well-formed entries, joined by commas, expands to the addresses that the
-- entries stand for, in order: a named address to itself, and a run of k from n to n, …, n + k - 1.
pub expand_recipients-render :
    (flag : Bytes) (e : Entry) (es : List Entry)
    → IsWellFormed e
    → All IsWellFormed es
    → expand_recipients flag (join_commas (map render (e ∷ es))) ≡ ok (meanings (e ∷ es))
expand_recipients-render flag e es h hs =
    let fields = All-map IsWellFormed IsField render render-IsField (e ∷ es) (h, hs) in
    let spec = join_commas (map render (e ∷ es)) in
    expand_recipients-split flag spec
      (trim_space-Solid spec (join_commas-Solid (render e) (map render es) fields))
      (join_commas-pos (render e) (map render es) fields)
    ∙ ap (λ parts. expand_loop flag parts []) (split-join_commas (render e) (map render es) fields)
    ∙ expand_loop-render flag (e ∷ es) [] (h, hs)
