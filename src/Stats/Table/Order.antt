-- ===== src/Stats/Table/Order.antt =====
-- Sorting texts (internal/stats/stats.go: sort.Strings) forgets the order in which they came.
use yarilo_loadtest.Base.{
  ◌≡◌, refl, sym, ap, ◌∙◌, true, false, List, [], ◌∷◌, arith, Bytes, Bool-cases, inl, inr,
}
use mathlib.Core.List.{Perm, foldr}
use mathlib.Core.List.Perm
use yarilo_loadtest.Text.{less}
use yarilo_loadtest.Stats.Live.{insert, sort}

-- The order of texts is total and strict.
less_asym : (s t : Bytes) → less s t ≡ true → less t s ≡ false
unfolding less
less_asym s [] h = absurd (cc h)
less_asym [] (d ∷ t) h = refl
less_asym (c ∷ s) (d ∷ t) h = ground (arith, h, less_asym s t)

less_total : (s t : Bytes) → less s t ≡ false → less t s ≡ false → s ≡ t
unfolding less
less_total [] [] h k = refl
less_total [] (d ∷ t) h k = absurd (cc h)
less_total (c ∷ s) [] h k = absurd (cc k)
less_total (c ∷ s) (d ∷ t) h k = ground (arith, h, k, less_total s t)

less_trans : (s t u : Bytes) → less s t ≡ true → less t u ≡ true → less s u ≡ true
unfolding less
less_trans s t [] h k = absurd (cc k)
less_trans s [] (e ∷ u) h k = absurd (cc h)
less_trans [] (d ∷ t) (e ∷ u) h k = refl
less_trans (c ∷ s) (d ∷ t) (e ∷ u) h k = ground (arith, h, k, less_trans s t u)

less-le_trans : (s t u : Bytes) → less t s ≡ false → less t u ≡ true → less s u ≡ true
less-le_trans s t u h k = elim (Bool-cases (less s t)) [
  | inl below ↦ less_trans s t u below k
  | inr same ↦ ap (λ x. less x u) (less_total s t same h) ∙ k
]

insert_comm : (a b : Bytes) (l : List Bytes) → insert a (insert b l) ≡ insert b (insert a l)
unfolding insert
insert_comm a b [] = ground (arith, less_asym a b, less_asym b a, less_total a b)
insert_comm a b (t ∷ ts) = ground (
  arith,
  less_asym a b,
  less_asym b a,
  less_total a b,
  less-le_trans a t b,
  less-le_trans b t a,
  insert_comm a b ts,
)

sort-foldr : (l : List Bytes) → sort l ≡ foldr insert [] l
unfolding sort
sort-foldr [] = refl
sort-foldr (s ∷ ss) = ap (insert s) (sort-foldr ss)

-- Texts in another order are sorted to the same list.
pub sort-perm : (l m : List Bytes) → Perm l m → sort l ≡ sort m
sort-perm l m p = sort-foldr l ∙ Perm.foldr-eq (hlevel) insert insert_comm p [] ∙ sym (sort-foldr m)
