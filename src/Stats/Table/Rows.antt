-- ===== src/Stats/Table/Rows.antt =====
-- The table does not depend on the order in which Go runs through a map (internal/stats/stats.go).
use yarilo_loadtest.Base.{
  ◌≤◌, ◌≡◌, refl, sym, ap, ap₂, ◌∙◌, List, [], ◌∷◌, ◌++◌, map, arith, Bytes, ltb, Bool-cases, inl,
  inr,
}
use mathlib.Core.List.{Perm, Mem, mem-cons, not-mem-nil}
use mathlib.Core.Logic.Or
use mathlib.Core.List.Perm
use yarilo_loadtest.Text.{bytes_eq}
use yarilo_loadtest.Text.Laws.{bytes_eq_iff}
use yarilo_loadtest.Stats.{
  Command, Commands, Collector, Observation, Floats, CmdStat, cmd_stat, Summary, summary,
  observe_all, observe, new, bind_run,
}
use yarilo_loadtest.Stats.Live.{sort}
use yarilo_loadtest.Stats.Live.Names.{Distinct, change-Distinct, shown}
use yarilo_loadtest.Stats.Live.Summed.{summary-shown, summary-errors, summary-cancelled}
use yarilo_loadtest.Stats.Table.Order.{sort-perm}
use yarilo_loadtest.Stats.Table.Names.{
  occurrences, occurrences-perm, total-perm, occurrences-Distinct, find, occurrences-Mem,
}
use yarilo_loadtest.Stats.Table.{zero_stat, Format, stat_of, rows, row, write_table}

CmdStat-set : IsSet CmdStat
CmdStat-set = hlevel

module _ (f : Floats) where
  stat_of-Mem :
      (k : Bytes) (c : Command) (cmds : Commands)
      → occurrences k cmds ≤ 1
      → Mem (k, c) cmds
      → stat_of (shown f cmds) k ≡ cmd_stat f c
  unfolding stat_of
  stat_of-Mem k c [] h m = absurd (not-mem-nil m)
  stat_of-Mem k c ((j, d) ∷ cmds) h m = elim (Bool-cases (bytes_eq j k)) [
    | inl same ↦
        rw (same, stat_of)
          (Or.elim (CmdStat-set _ _) (mem-cons.0 m)
            (λ e. ap (λ (p : Bytes × Command). cmd_stat f p.1) (sym e))
            (λ n. absurd (ground (arith, h, same, occurrences-Mem k c cmds n))))
    | inr other ↦
        rw (other, stat_of)
          (Or.elim (CmdStat-set _ _) (mem-cons.0 m)
            (λ e. absurd (cc (other, (bytes_eq_iff j k).1 (sym (ap (λ p. p.0) e)))))
            (λ n. stat_of-Mem k c cmds (ground (arith, h, other)) n))
  ]

  stat_of_absent :
      (k : Bytes) (cmds : Commands) → occurrences k cmds ≡ 0 → stat_of (shown f cmds) k ≡ zero_stat
  unfolding stat_of
  stat_of_absent k [] h = refl
  stat_of_absent k ((j, c) ∷ cmds) h = ground (arith, h, stat_of_absent k cmds)

  stat_of-perm :
      (k : Bytes) {xs ys : Commands}
      → Distinct xs
      → Perm xs ys
      → stat_of (shown f xs) k ≡ stat_of (shown f ys) k
  stat_of-perm k {xs} {ys} h p = elim (Bool-cases (ltb 0 (occurrences k xs))) [
    | inl met ↦
        let (c, m) = find k xs (ground (arith, met)) in
        let once = occurrences-Distinct k xs h in
        stat_of-Mem k c xs once m
        ∙ sym
            (stat_of-Mem k c ys (omega (arith, once, occurrences-perm k p)) ((Perm.mem_iff p).0 m))
    | inr unmet ↦
        let none_here : occurrences k xs ≡ 0 = ground (arith, unmet) in
        stat_of_absent k xs none_here
        ∙ sym (stat_of_absent k ys (omega (arith, none_here, occurrences-perm k p)))
  ]

  names-shown :
      (cmds : Commands)
      → map (λ (p : Bytes × CmdStat). p.0) (shown f cmds) ≡ map (λ (p : Bytes × Command). p.0) cmds
  names-shown [] = refl
  names-shown ((k, c) ∷ cmds) = ap (◌∷◌ k) (names-shown cmds)

  names-perm :
      {xs ys : Commands}
      → Perm xs ys
      → sort (map (λ (p : Bytes × CmdStat). p.0) (shown f xs))
        ≡ sort (map (λ (p : Bytes × CmdStat). p.0) (shown f ys))
  names-perm {xs} {ys} p =
      ap sort (names-shown xs)
      ∙ sort-perm _ _ (Perm.map (λ (p : Bytes × Command). p.0) p)
      ∙ ap sort (sym (names-shown ys))

module _ (fmt : Format) where
  rows-alike :
      (names : List Bytes) (xs ys : List (Bytes × CmdStat))
      → ((k : Bytes) → stat_of xs k ≡ stat_of ys k)
      → rows fmt names xs ≡ rows fmt names ys
  unfolding rows
  rows-alike [] xs ys h = refl
  rows-alike (k ∷ names) xs ys h = ap₂ (λ s b. row fmt k s ++ b) (h k) (rows-alike names xs ys h)

  write_table-alike :
      (s t : Summary)
      → sort (map (λ (p : Bytes × CmdStat). p.0) s.commands)
        ≡ sort (map (λ (p : Bytes × CmdStat). p.0) t.commands)
      → ((k : Bytes) → stat_of s.commands k ≡ stat_of t.commands k)
      → s.errors ≡ t.errors
      → s.cancelled ≡ t.cancelled
      → write_table fmt s ≡ write_table fmt t
  unfolding write_table
  write_table-alike s t names stats errors cancelled =
      cc (names, rows-alike _ s.commands t.commands stats, errors, cancelled)

observe_all-Distinct :
    (c : Collector) (os : List Observation) → Distinct c.cmds → Distinct (observe_all c os).cmds
unfolding observe_all observe
observe_all-Distinct c [] h = h
observe_all-Distinct c (o ∷ os) h =
    observe_all-Distinct (observe c o) os (change-Distinct o.name _ c.cmds h)

-- Whatever was observed, and in whatever order Go runs through the commands and through the summary of
-- them, the same table is written, so that two runs can be compared line by line.
pub write_table-perm :
    (f : Floats) (fmt : Format) (os : List Observation) (cmds : Commands)
    → Perm (observe_all (bind_run new) os).cmds cmds
    → write_table fmt (summary f (observe_all (bind_run new) os))
      ≡ write_table fmt (summary f (record (observe_all (bind_run new) os) { cmds = cmds }))
unfolding bind_run
write_table-perm f fmt os cmds p =
    let c = observe_all (bind_run new) os in
    let d : Collector = record c { cmds = cmds } in
    let distinct = observe_all-Distinct (bind_run new) os tt in
    write_table-alike fmt (summary f c) (summary f d)
      (rw (summary-shown f c, summary-shown f d) (names-perm f p))
      (λ k. rw (summary-shown f c, summary-shown f d) (stat_of-perm f k distinct p))
      (summary-errors f c ∙ total-perm (λ cmd. cmd.errors) p ∙ sym (summary-errors f d))
      (summary-cancelled f c ∙ total-perm (λ cmd. cmd.cancelled) p ∙ sym (summary-cancelled f d))
