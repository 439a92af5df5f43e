-- ===== src/Stats/Live/Errors.antt =====
-- The errors column of the live table (internal/stats/live.go) against the summary.
use yarilo_loadtest.Base.{
  ℕ, ◌≡◌, refl, sym, ap, ap₂, ◌∙◌, Bool, true, false, List, [], ◌∷◌, ◌++◌, if◌then◌else◌, arith,
  Bytes, add_nothing, add_differences, ℤ, pos, sub_ℕ, ◌+ℤ◌,
}
use yarilo_loadtest.Text.Laws.{bytes_eq_refl}
use yarilo_loadtest.Stats.{
  Command, Commands, Collector, Observation, observe, observe_all, count_outcome, cancelling,
  record_sample, Floats, cmd_stat, summary,
}
use yarilo_loadtest.Stats.Live.{
  Printed, heading, row, Live, new_live, put, errors_loop, print_row, print_some, tick, watch,
}
use yarilo_loadtest.Stats.Live.Summed.{summary-shown, summary-errors}
use yarilo_loadtest.Stats.Live.Names.{
  has, Distinct, has-change, change-Distinct, kept, kept-change, kept-put, shown, errors_of,
}
use yarilo_loadtest.Text.Laws.{bytes_eq_other}

module _ (f : Floats) where
  errors_loop-errs :
      (cmds : Commands) (errs : ℤ) (p : Bytes → ℕ)
      → Distinct cmds
      → (errors_loop (shown f cmds) errs p).0 ≡ errs +ℤ sub_ℕ (errors_of cmds) (kept p cmds)
  unfolding errors_loop cmd_stat
  errors_loop-errs [] errs p h = sym (add_nothing errs)
  errors_loop-errs ((k, c) ∷ cmds) errs p h =
      errors_loop-errs cmds (errs +ℤ sub_ℕ c.errors (p k)) (put k c.errors p) h.1
      ∙ ap (λ (n : ℕ). (errs +ℤ sub_ℕ c.errors (p k)) +ℤ sub_ℕ (errors_of cmds) n)
          (kept-put p k c.errors cmds h.0)
      ∙ add_differences errs c.errors (p k) (errors_of cmds) (kept p cmds)

  errors_loop-other :
      (cmds : Commands) (errs : ℤ) (p : Bytes → ℕ) (name : Bytes)
      → has name cmds ≡ false
      → (errors_loop (shown f cmds) errs p).1 name ≡ p name
  unfolding errors_loop cmd_stat
  errors_loop-other [] errs p name h = refl
  errors_loop-other ((k, c) ∷ cmds) errs p name h = ground (
    arith,
    h,
    bytes_eq_other k name,
    errors_loop-other cmds (errs +ℤ sub_ℕ c.errors (p k)) (put k c.errors p) name,
  )

  errors_loop-kept :
      (cmds : Commands) (errs : ℤ) (p : Bytes → ℕ)
      → Distinct cmds
      → kept (errors_loop (shown f cmds) errs p).1 cmds ≡ errors_of cmds
  unfolding errors_loop cmd_stat
  errors_loop-kept [] errs p h = refl
  errors_loop-kept ((k, c) ∷ cmds) errs p h =
      let errs' = errs +ℤ sub_ℕ c.errors (p k) in
      let p' = put k c.errors p in
      ground (
        arith,
        errors_loop-other cmds errs' p' k h.0,
        bytes_eq_refl k,
        errors_loop-kept cmds errs' p' h.1,
      )

-- What the rows show of errors, summed from a number on.
abbrev errors_from : ℤ → List Printed → ℤ
errors_from n [] = n
errors_from n (heading names ∷ out) = errors_from n out
errors_from n (row clock deltas errors ∷ out) = errors_from (n +ℤ errors) out

abbrev pub errors_shown : List Printed → ℤ
errors_shown out = errors_from (pos 0) out

errors_from-append :
    (n : ℤ) (xs ys : List Printed) → errors_from n (xs ++ ys) ≡ errors_from (errors_from n xs) ys
errors_from-append n [] ys = refl
errors_from-append n (heading names ∷ xs) ys = errors_from-append n xs ys
errors_from-append n (row clock deltas errors ∷ xs) ys = errors_from-append (n +ℤ errors) xs ys

-- a tick prints at most a header, a row and a header again
errors_from-row :
    (n : ℤ) (first again : Bool) (names : List Bytes) (clock : Bytes) (deltas : List ℤ) (errors : ℤ)
    → errors_from n (
        (if first then heading names ∷ [] else [])
        ++ row clock deltas errors ∷ (if again then heading names ∷ [] else []))
      ≡ n +ℤ errors
errors_from-row n true true names clock deltas errors = refl
errors_from-row n true false names clock deltas errors = refl
errors_from-row n false true names clock deltas errors = refl
errors_from-row n false false names clock deltas errors = refl

-- Between two ticks: what the rows show is what the map keeps of the commands there are.
record IsCounted (cmds : Commands) (l : Live) : Type 0 where
  distinct : Distinct cmds
  shown_so_far : errors_shown l.out ≡ pos (kept l.prev_errors cmds)
  absent : (name : Bytes) → has name cmds ≡ false → l.prev_errors name ≡ 0

observe-IsCounted :
    (c : Collector) (o : Observation) (l : Live)
    → IsCounted c.cmds l
    → IsCounted (observe c o).cmds l
unfolding observe
observe-IsCounted c o l h =
    let g =
      λ (cmd : Command). count_outcome o.error (cancelling c o) (record_sample o.duration cmd) in
    record {
      distinct = change-Distinct o.name g c.cmds h.distinct;
      shown_so_far =
          h.shown_so_far
          ∙ ap pos (sym (kept-change l.prev_errors o.name g c.cmds (h.absent o.name)));
      absent =
          λ name missing. h.absent name (ground (arith, missing, has-change name o.name g c.cmds));
    }

observe_all-IsCounted :
    (c : Collector) (os : List Observation) (l : Live)
    → IsCounted c.cmds l
    → IsCounted (observe_all c os).cmds l
unfolding observe_all
observe_all-IsCounted c [] l h = h
observe_all-IsCounted c (o ∷ os) l h =
    observe_all-IsCounted (observe c o) os l (observe-IsCounted c o l h)

balance : (e k : ℕ) → pos k +ℤ (pos 0 +ℤ sub_ℕ e k) ≡ pos e
unfolding ◌+ℤ◌
balance e k = ground arith

module _ (f : Floats) where
  print_row-errors :
      (clock : Bytes) (cmds : Commands) (l : Live)
      → IsCounted cmds l
      → errors_shown (print_row clock (shown f cmds) l).out ≡ pos (errors_of cmds)
  unfolding print_row
  print_row-errors clock cmds l h =
      let old = kept l.prev_errors cmds in
      errors_from-append (pos 0) l.out _
      ∙ errors_from-row (errors_shown l.out) _ _ _ clock _ _
      ∙ ap₂ (λ (a : ℤ) (b : ℤ). a +ℤ b) h.shown_so_far
          (errors_loop-errs f cmds (pos 0) l.prev_errors h.distinct)
      ∙ balance (errors_of cmds) old

  print_row-IsCounted :
      (clock : Bytes) (cmds : Commands) (l : Live)
      → IsCounted cmds l
      → IsCounted cmds (print_row clock (shown f cmds) l)
  unfolding print_row
  print_row-IsCounted clock cmds l h = record {
    distinct = h.distinct;
    shown_so_far =
        print_row-errors clock cmds l h
        ∙ ap pos (sym (errors_loop-kept f cmds (pos 0) l.prev_errors h.distinct));
    absent = λ name missing.
        errors_loop-other f cmds (pos 0) l.prev_errors name missing ∙ h.absent name missing;
  }

  -- a tick that saw these commands
  record IsTicked (cmds : Commands) (l : Live) : Type 0 where
    counted : IsCounted cmds l
    all_shown : errors_shown l.out ≡ pos (errors_of cmds)

  print_some-IsTicked :
      (clock : Bytes) (cmds : Commands) (l : Live)
      → IsCounted cmds l
      → IsTicked cmds (print_some clock (shown f cmds) l)
  unfolding print_some
  print_some-IsTicked clock [] l h = record { counted = h; all_shown = h.shown_so_far }
  print_some-IsTicked clock ((k, cmd) ∷ cmds) l h = record {
    counted = print_row-IsCounted clock ((k, cmd) ∷ cmds) l h;
    all_shown = print_row-errors clock ((k, cmd) ∷ cmds) l h;
  }

  tick-IsTicked :
      (clock : Bytes) (c : Collector) (l : Live)
      → IsCounted c.cmds l
      → IsTicked c.cmds (tick f clock c l)
  unfolding tick
  tick-IsTicked clock c l h = rw (summary-shown f c) (print_some-IsTicked clock c.cmds l h)

  watch-IsTicked :
      (batches : List (Bytes × List Observation)) (c : Collector) (l : Live)
      → IsTicked c.cmds l
      → IsTicked (watch f batches c l).0.cmds (watch f batches c l).1
  unfolding watch
  watch-IsTicked [] c l h = h
  watch-IsTicked ((clock, os) ∷ batches) c l h =
      let now = observe_all c os in
      watch-IsTicked batches now (tick f clock now l)
        (tick-IsTicked clock now l (observe_all-IsCounted c os l h.counted))

  -- Over a run whose collector is bound to it or not, whatever is observed between the ticks: when the
  -- last tick has printed, the errors column of all rows adds up to the errors of the summary.
  pub errors_shown-watch :
      (bound : Bool) (batches : List (Bytes × List Observation))
      → errors_shown (watch f batches (record { cmds = []; bound = bound }) new_live).1.out
        ≡ pos (summary f (watch f batches (record { cmds = []; bound = bound }) new_live).0).errors
  errors_shown-watch bound batches =
      let start : Collector = record { cmds = []; bound = bound } in
      let none_yet : IsTicked [] new_live = record {
        counted = record { distinct = tt; shown_so_far = refl; absent = λ name h. refl };
        all_shown = refl;
      } in
      (watch-IsTicked batches start new_live none_yet).all_shown
      ∙ ap pos (sym (summary-errors f (watch f batches start new_live).0))
