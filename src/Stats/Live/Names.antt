-- ===== src/Stats/Live/Names.antt =====
-- The names of a collector's commands (internal/stats/stats.go), as the live table meets them.
use yarilo_loadtest.Base.{
  ℕ, ◌+◌, ◌≡◌, refl, ap, ap₂, ◌∙◌, Bool, false, ◌||◌, List, [], ◌∷◌, arith, Bytes, Bool-cases, inl,
  inr,
}
use yarilo_loadtest.Text.{bytes_eq}
use yarilo_loadtest.Text.Laws.{bytes_eq_other, bytes_eq_iff}
use yarilo_loadtest.Stats.{Command, Commands, change, Floats, CmdStat, cmd_stat}
use yarilo_loadtest.Stats.Totals.{total}
use yarilo_loadtest.Stats.Live.{put}

-- whether there is a command of a name
abbrev pub has : Bytes → Commands → Bool
has k [] = false
has k ((j, c) ∷ cmds) = bytes_eq j k || has k cmds

-- No two commands have the same name.
abbrev pub Distinct : Commands → Type 0
Distinct [] = Unit
Distinct ((j, c) ∷ cmds) = (has j cmds ≡ false) × Distinct cmds

pub has-change :
    (k name : Bytes) (g : Command → Command) (cmds : Commands)
    → has k (change name g cmds) ≡ bytes_eq name k || has k cmds
unfolding change
has-change k name g [] = refl
has-change k name g ((j, c) ∷ cmds) = elim (Bool-cases (bytes_eq j name)) [
  | inl same ↦ ground (arith, same, ap (λ (s : Bytes). bytes_eq s k) ((bytes_eq_iff j name).0 same))
  | inr other ↦ ground (arith, other, has-change k name g cmds)
]

pub change-Distinct :
    (name : Bytes) (g : Command → Command) (cmds : Commands)
    → Distinct cmds
    → Distinct (change name g cmds)
unfolding change
change-Distinct name g [] h = (refl, tt)
change-Distinct name g ((j, c) ∷ cmds) h = elim (Bool-cases (bytes_eq j name)) [
  | inl same ↦ rw (change, same) h
  | inr other ↦
      let absent =
        has-change j name g cmds ∙ ap (λ b. b || has j cmds) (bytes_eq_other j name other) ∙ h.0 in
      rw (change, other) (absent, change-Distinct name g cmds h.1)
]

-- what a map keeps of the names of the commands, summed
abbrev pub kept : (Bytes → ℕ) → Commands → ℕ
kept p [] = 0
kept p ((k, c) ∷ cmds) = p k + kept p cmds

pub kept-change :
    (p : Bytes → ℕ) (name : Bytes) (g : Command → Command) (cmds : Commands)
    → (has name cmds ≡ false → p name ≡ 0)
    → kept p (change name g cmds) ≡ kept p cmds
unfolding change
kept-change p name g [] h = omega (arith, h refl)
kept-change p name g ((j, c) ∷ cmds) h = elim (Bool-cases (bytes_eq j name)) [
  | inl same ↦ ground (arith, same)
  | inr other ↦
      let rest : has name cmds ≡ false → p name ≡ 0 =
        λ absent. h (ap₂ (λ (a : Bool) (b : Bool). a || b) other absent) in
      ground (arith, other, kept-change p name g cmds rest)
]

pub kept-put :
    (p : Bytes → ℕ) (name : Bytes) (n : ℕ) (cmds : Commands)
    → has name cmds ≡ false
    → kept (put name n p) cmds ≡ kept p cmds
kept-put p name n [] h = refl
kept-put p name n ((j, c) ∷ cmds) h = elim (Bool-cases (bytes_eq j name)) [
  | inl same ↦ ground (arith, h, same)
  | inr other ↦ ground (arith, h, other, kept-put p name n cmds)
]

-- what the summary shows of the commands
abbrev pub shown : Floats → Commands → List (Bytes × CmdStat)
shown f [] = []
shown f ((k, c) ∷ cmds) = (k, cmd_stat f c) ∷ shown f cmds

abbrev pub errors_of : Commands → ℕ
errors_of = total (λ cmd. cmd.errors)
