-- ===== src/Stats/Percentiles.antt =====
-- The percentiles of the summary.
use yarilo_loadtest.Base.{
  ℕ, zero, suc, ◌≤◌, ◌<◌, List, [], ◌∷◌, arith, All, All-get_or, length, get_or, leb, leb→le,
  Bool-cases, inl, inr,
}
use mathlib.Core.List.{Perm}
use mathlib.Core.List.Perm
use yarilo_loadtest.Stats.{
  Command, Floats, Fraction, rank, none_of, half, most, nearly_all, all_of, insert, sort,
  percentile, cmd_stat,
}

-- Every item is at most those behind it.
abbrev pub IsSorted : List ℕ → Type 0
IsSorted [] = Unit {0}
IsSorted (d ∷ ds) = All (λ e. d ≤ e) ds × IsSorted ds

All-insert : (b d : ℕ) (ds : List ℕ) → b ≤ d → All (λ e. b ≤ e) ds → All (λ e. b ≤ e) (insert d ds)
unfolding insert
All-insert b d [] h hs = (h, tt)
All-insert b d (e ∷ es) h hs = ground (arith, All-insert b d es h hs.1)

All-le : (a b : ℕ) (ds : List ℕ) → a ≤ b → All (λ e. b ≤ e) ds → All (λ e. a ≤ e) ds
All-le a b [] h hs = tt
All-le a b (d ∷ ds) h hs = (omega arith, All-le a b ds h hs.1)

insert-IsSorted : (d : ℕ) (ds : List ℕ) → IsSorted ds → IsSorted (insert d ds)
unfolding insert
insert-IsSorted d [] h = (tt, tt)
insert-IsSorted d (e ∷ es) h = elim (Bool-cases (leb d e)) [
  | inl first ↦ rw first ((leb→le d e first, All-le d e es (leb→le d e first) h.0), h)
  | inr later ↦ rw later (All-insert e d es (ground arith) h.0, insert-IsSorted d es h.1)
]

sort-IsSorted : (ds : List ℕ) → IsSorted (sort ds)
unfolding sort
sort-IsSorted [] = tt
sort-IsSorted (d ∷ ds) = insert-IsSorted d (sort ds) (sort-IsSorted ds)

insert-perm : (d : ℕ) (ds : List ℕ) → Perm (insert d ds) (d ∷ ds)
unfolding insert
insert-perm d [] = Perm.refl (d ∷ [])
insert-perm d (e ∷ es) = elim (Bool-cases (leb d e)) [
  | inl first ↦ rw first (Perm.refl (d ∷ e ∷ es))
  | inr later ↦ rw later (Perm.trans (Perm.cons e (insert-perm d es)) (Perm.swap d e es))
]

-- The summary's sort returns the same durations, in order.
pub sort-perm : (ds : List ℕ) → Perm (sort ds) ds
unfolding sort
sort-perm [] = Perm.refl []
sort-perm (d ∷ ds) = Perm.trans (insert-perm d (sort ds)) (Perm.cons d (sort-perm ds))

get_or_mono :
    (ds : List ℕ) (i j : ℕ) → IsSorted ds → i ≤ j → j < length ds → get_or ds i 0 ≤ get_or ds j 0
get_or_mono [] i j h k l = elim l [ ]
get_or_mono (d ∷ ds) zero zero h k l = omega arith
get_or_mono (d ∷ ds) zero (suc j) h k l = All-get_or (λ e. d ≤ e) ds j 0 h.0 (omega arith)
get_or_mono (d ∷ ds) (suc i) zero h k l = absurd (omega arith)
get_or_mono (d ∷ ds) (suc i) (suc j) h k l = get_or_mono ds i j h.1 (omega arith) (omega arith)

module _ (f : Floats) where
  scale-le : (p : Fraction) (n : ℕ) → rank p ≤ 100 → f.scale p n ≤ n
  scale-le p n h = omega (arith, f.scale_mono p all_of n h, f.scale_all n)

  percentile_mono :
      (ds : List ℕ) (p q : Fraction)
      → IsSorted ds
      → rank p ≤ rank q
      → rank q ≤ 100
      → percentile f ds p ≤ percentile f ds q
  unfolding percentile
  percentile_mono [] p q h k l = omega arith
  percentile_mono (d ∷ ds) p q h k l =
      get_or_mono (d ∷ ds) (f.scale p (length ds)) (f.scale q (length ds)) h
        (f.scale_mono p q (length ds) k) (omega (arith, scale-le q (length ds) l))

  -- What the summary shows of any command is in order: the least duration, the median, the 95th and the 99th
  -- percentile, and the greatest.
  pub cmd_stat_ordered :
      (cmd : Command)
      → ((cmd_stat f cmd).least ≤ (cmd_stat f cmd).median)
        × ((cmd_stat f cmd).median ≤ (cmd_stat f cmd).p95)
        × ((cmd_stat f cmd).p95 ≤ (cmd_stat f cmd).p99)
        × ((cmd_stat f cmd).p99 ≤ (cmd_stat f cmd).greatest)
  unfolding cmd_stat
  cmd_stat_ordered cmd =
      let ds = sort cmd.samples in
      let h = sort-IsSorted cmd.samples in
      (
        percentile_mono ds none_of half h (omega arith) (omega arith),
        percentile_mono ds half most h (omega arith) (omega arith),
        percentile_mono ds most nearly_all h (omega arith) (omega arith),
        percentile_mono ds nearly_all all_of h (omega arith) (omega arith),
      )
