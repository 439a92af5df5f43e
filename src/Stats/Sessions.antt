-- ===== src/Stats/Sessions.antt =====
-- What the summary (internal/stats/stats.go) shows of the reports of a session.
use yarilo_loadtest.Base.{
  ℕ, ◌+◌, ◌≡◌, refl, sym, ap, ◌∙◌, Bool, List, [], ◌∷◌, ◌++◌, none, some, arith, Bytes, length, map,
  ◌&&◌, Bool-cases, inl, inr, if◌then◌else◌,
}
use yarilo_loadtest.Text.{bytes_eq}
use yarilo_loadtest.Text.Laws.{bytes_eq_other, bytes_eq_iff}
use yarilo_loadtest.Net.{Sample}
use yarilo_loadtest.Net.Script.{success}
use yarilo_loadtest.Stats.{
  Command, Commands, fresh, change, Collector, new, bind_run, Observation, observe, observe_all,
  count_outcome, record_sample, cancelling, Floats, CmdStat, cmd_stat, summary,
}
use yarilo_loadtest.Stats.Totals.{outcome_count, length-sort, one_if, failed, tally}
use yarilo_loadtest.Stats.Table.{stat_of}
use yarilo_loadtest.Stats.Live.Names.{shown}
use yarilo_loadtest.Stats.Live.Summed.{summary-shown}

-- The reports of a session as the collector gets them: the i-th took `clock i`, and the run was over
-- by then or not. `text` is the text of an error.
abbrev pub observations :
    {E : Type 0}
    → (text : E → Bytes) → (clock : ℕ → ℕ) → (over : ℕ → Bool) → ℕ
    → List (Sample E)
    → List Observation
observations text clock over i [] = []
observations text clock over i (s ∷ ss) =
    record {
      name = s.name;
      duration = clock i;
      error = elim s.failure [ none ↦ none | some e ↦ some (text e) ];
      run_done = over i;
    }
    ∷ observations text clock over (i + 1) ss

-- how many samples the map has under a name
abbrev count_named : Bytes → Commands → ℕ
count_named k [] = 0
count_named k ((j, c) ∷ cmds) =
    let rest = count_named k cmds in if bytes_eq j k then length c.samples else rest

count_named-change :
    (k name : Bytes) (g : Command → Command) (cmds : Commands)
    → ((cmd : Command) → length (g cmd).samples ≡ length cmd.samples + 1)
    → count_named k (change name g cmds) ≡ count_named k cmds + one_if (bytes_eq name k)
unfolding change
count_named-change k name g [] step = ground (arith, step fresh)
count_named-change k name g ((j, c) ∷ cmds) step = elim (Bool-cases (bytes_eq j name)) [
  | inl same ↦ ground (
    arith,
    same,
    step c,
    ap (λ (s : Bytes). bytes_eq s k) ((bytes_eq_iff j name).0 same),
    count_named-change k name g cmds step,
  )
  | inr other ↦ elim (Bool-cases (bytes_eq j k)) [
    | inl here ↦
        let apart =
          ap (bytes_eq name) (sym ((bytes_eq_iff j k).0 here)) ∙ bytes_eq_other j name other in
        ground (arith, other, here, apart)
    | inr there ↦ ground (arith, other, there, count_named-change k name g cmds step)
  ]
]

count_named-observe_all :
    (k : Bytes) (c : Collector) (os : List Observation)
    → count_named k (observe_all c os).cmds
      ≡ count_named k c.cmds + tally (λ o. bytes_eq o.name k) os
unfolding observe_all observe
count_named-observe_all k c [] = omega arith
count_named-observe_all k c (o ∷ os) =
    let now =
      count_named-change k o.name
        (λ cmd. count_outcome o.error (cancelling c o) (record_sample o.duration cmd)) c.cmds
        (outcome_count o (cancelling c o)) in
    omega (arith, now, count_named-observe_all k (observe c o) os)

stat_of-count :
    (f : Floats) (k : Bytes) (cmds : Commands)
    → (stat_of (shown f cmds) k).count ≡ count_named k cmds
unfolding stat_of cmd_stat
stat_of-count f k [] = refl
stat_of-count f k ((j, c) ∷ cmds) = ground (arith, length-sort c.samples, stat_of-count f k cmds)

-- The summary counts under a name what was observed under it.
pub summary-count :
    (f : Floats) (k : Bytes) (os : List Observation)
    → (stat_of (summary f (observe_all (bind_run new) os)).commands k).count
      ≡ tally (λ o. bytes_eq o.name k) os
unfolding bind_run
summary-count f k os =
    let c = observe_all (bind_run new) os in
    let listed = ap (λ (l : List (Bytes × CmdStat)). (stat_of l k).count) (summary-shown f c) in
    let met = count_named-observe_all k (bind_run new) os in
    omega (arith, listed, stat_of-count f k c.cmds, met)

-- how often a name is in a list
abbrev pub mentions : Bytes → List Bytes → ℕ
mentions k [] = 0
mentions k (name ∷ names) = one_if (bytes_eq name k) + mentions k names

pub mentions-append :
    (k : Bytes) (xs ys : List Bytes) → mentions k (xs ++ ys) ≡ mentions k xs + mentions k ys
mentions-append k [] ys = omega arith
mentions-append k (x ∷ xs) ys = omega (arith, mentions-append k xs ys)

-- Reports of no failure.
module _ {E : Type 0} (text : E → Bytes) (clock : ℕ → ℕ) (over : ℕ → Bool) where
  pub tally-observations :
      (k : Bytes) (i : ℕ) (names : List Bytes)
      → tally (λ o. bytes_eq o.name k) (observations text clock over i (map success names))
        ≡ mentions k names
  tally-observations k i [] = refl
  tally-observations k i (name ∷ names) =
      ap (λ (n : ℕ). one_if (bytes_eq name k) + n) (tally-observations k (i + 1) names)

  pub tally_unfailed :
      (p : Observation → Bool) (i : ℕ) (names : List Bytes)
      → tally (λ o. failed o && p o) (observations text clock over i (map success names)) ≡ 0
  tally_unfailed p i [] = refl
  tally_unfailed p i (name ∷ names) = omega (arith, tally_unfailed p (i + 1) names)
