-- ===== src/Stats/Table/Names.antt =====
-- How often a name is met among commands (internal/stats/stats.go), in whatever order they stand.
use yarilo_loadtest.Base.{
  ℕ, ◌+◌, ◌≤◌, ◌<◌, subst, ◌≡◌, refl, sym, ap, ◌∙◌, false, [], ◌∷◌, arith, Bytes, Bool-cases, inl,
  inr, if◌then◌else◌,
}
use mathlib.Core.List.{Perm, foldr, Mem, mem-cons, mem-cons_self, mem-cons_of_mem, not-mem-nil}
use mathlib.Core.Logic.Or
use native.Mathlib.Bridge.{le_prop}
use native.Mathlib.Nat.{ℕ_set}
use mathlib.Core.List.Perm
use yarilo_loadtest.Text.{bytes_eq}
use yarilo_loadtest.Text.Laws.{bytes_eq_iff}
use yarilo_loadtest.Stats.{Command, Commands}
use yarilo_loadtest.Stats.Totals.{total}
use yarilo_loadtest.Stats.Live.Names.{has, Distinct}

-- how many commands have a name
abbrev pub occurrences : Bytes → Commands → ℕ
occurrences k [] = 0
occurrences k ((j, c) ∷ cmds) = (if bytes_eq j k then 1 else 0) + occurrences k cmds

abbrev counting : (Bytes × Command → ℕ) → Bytes × Command → ℕ → ℕ
counting f p n = f p + n

counting_comm :
    (f : Bytes × Command → ℕ) (p q : Bytes × Command) (n : ℕ)
    → counting f p (counting f q n) ≡ counting f q (counting f p n)
counting_comm f p q n = omega arith

-- a sum over the commands is the same in any order
sum-perm :
    (f : Bytes × Command → ℕ) {xs ys : Commands}
    → Perm xs ys
    → foldr (counting f) 0 xs ≡ foldr (counting f) 0 ys
sum-perm f p = Perm.foldr-eq ℕ_set (counting f) (counting_comm f) p 0

occurrences-foldr :
    (k : Bytes) (cmds : Commands)
    → occurrences k cmds ≡ foldr (counting (λ p. if bytes_eq p.0 k then 1 else 0)) 0 cmds
occurrences-foldr k [] = refl
occurrences-foldr k ((j, c) ∷ cmds) = omega (arith, occurrences-foldr k cmds)

total-foldr :
    (f : Command → ℕ) (cmds : Commands) → total f cmds ≡ foldr (counting (λ p. f p.1)) 0 cmds
total-foldr f [] = refl
total-foldr f ((k, c) ∷ cmds) = omega (arith, total-foldr f cmds)

pub occurrences-perm :
    (k : Bytes) {xs ys : Commands} → Perm xs ys → occurrences k xs ≡ occurrences k ys
occurrences-perm k {xs} {ys} p =
    occurrences-foldr k xs
    ∙ sum-perm (λ p. if bytes_eq p.0 k then 1 else 0) p
    ∙ sym (occurrences-foldr k ys)

pub total-perm : (f : Command → ℕ) {xs ys : Commands} → Perm xs ys → total f xs ≡ total f ys
total-perm f {xs} {ys} p = total-foldr f xs ∙ sum-perm (λ p. f p.1) p ∙ sym (total-foldr f ys)

occurrences_absent : (k : Bytes) (cmds : Commands) → has k cmds ≡ false → occurrences k cmds ≡ 0
occurrences_absent k [] h = refl
occurrences_absent k ((j, c) ∷ cmds) h = ground (arith, h, occurrences_absent k cmds)

pub occurrences-Distinct : (k : Bytes) (cmds : Commands) → Distinct cmds → occurrences k cmds ≤ 1
occurrences-Distinct k [] h = omega arith
occurrences-Distinct k ((j, c) ∷ cmds) h = elim (Bool-cases (bytes_eq j k)) [
  | inl same ↦
      let gone =
        occurrences_absent k cmds (ap (λ n. has n cmds) (sym ((bytes_eq_iff j k).0 same)) ∙ h.0) in
      rw same (omega (arith, gone))
  | inr other ↦ rw other (omega (arith, occurrences-Distinct k cmds h.1))
]

-- where a name is met at all, and what is met
pub find : (k : Bytes) (cmds : Commands) → 0 < occurrences k cmds → (c : Command) × Mem (k, c) cmds
find k [] h = absurd (omega arith)
find k ((j, c) ∷ cmds) h = elim (Bool-cases (bytes_eq j k)) [
  | inl same ↦
      (c, subst (λ n. Mem (n, c) ((j, c) ∷ cmds)) ((bytes_eq_iff j k).0 same) mem-cons_self)
  | inr other ↦ let (d, m) = find k cmds (ground (arith, h, other)) in (d, mem-cons_of_mem (j, c) m)
]

pub occurrences-Mem :
    (k : Bytes) (c : Command) (cmds : Commands) → Mem (k, c) cmds → 0 < occurrences k cmds
occurrences-Mem k c [] m = absurd (not-mem-nil m)
occurrences-Mem k c ((j, d) ∷ cmds) m =
    Or.elim le_prop (mem-cons.0 m)
      (λ e. rw ((bytes_eq_iff j k).1 (sym (ap (λ p. p.0) e))) (omega arith))
      (λ n. omega (arith, occurrences-Mem k c cmds n))
