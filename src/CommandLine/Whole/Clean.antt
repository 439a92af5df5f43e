-- ===== src/CommandLine/Whole/Clean.antt =====
-- How the run of the workers (main.go: main, internal/driver/driver.go: Run) comes to a good end.
use yarilo_loadtest.Base.{
  inl, inr, Bool-cases, ℕ, ◌+◌, ◌≡◌, ◌↔◌, refl, ap, ◌∙◌, sym, subst, Bool, true, false, ◌&&◌, not,
  List, [], ◌∷◌, Option, none, some, Bytes, length, ltb, arith, if◌then◌else◌, is_nonpos,
}
use yarilo_loadtest.Base.Result.{ok, err}
use yarilo_loadtest.Corpus.Generator.{Platform}
use yarilo_loadtest.Driver.{
  Options, Run, Event, unbounded, start, step, steps, run, outcome, all_finished,
}
use yarilo_loadtest.Stats.{Collector, Summary, Observation, new, bind_run, observe_all, summary}
use yarilo_loadtest.Stats.Totals.{failed, one_if, tally, summary_counts}
use yarilo_loadtest.CommandLine.{Flags}
use yarilo_loadtest.CommandLine.Exit.{exit_status-none, exit_status-good}
use yarilo_loadtest.CommandLine.Whole.{
  Happening, stepped, reported, World, Failure, not_served, not_bounded, Course, died, waiting,
  back, happen, happen_all, drive, wait, conduct, printed, close, report, status,
}

run-bounded :
    {E : Type 0} (opts : Options)
    → (is_nonpos opts.duration && is_nonpos opts.iterations) ≡ false
    → run {E = E} opts [] ≡ ok (start opts)
unfolding run steps
run-bounded opts h = rw (h, run) refl

run-unbounded :
    {E : Type 0} (opts : Options)
    → (is_nonpos opts.duration && is_nonpos opts.iterations) ≡ true
    → run {E = E} opts [] ≡ err unbounded
unfolding run
run-unbounded opts h = rw (h, run) refl

module _ {E : Type 0} where
  -- the steps of the workers
  abbrev pub steps_of : List (Happening E) → List (Event E)
  steps_of [] = []
  steps_of (stepped e ∷ hs) = e ∷ steps_of hs
  steps_of (reported n d x ∷ hs) = steps_of hs

  module _ (opts : Options) where
    -- the reports, each with whether the run had ended
    abbrev pub reports_of : Run E → List (Happening E) → List Observation
    reports_of r [] = []
    reports_of r (stepped e ∷ hs) = reports_of (step opts e r) hs
    reports_of r (reported n d x ∷ hs) =
        record { name = n; duration = d; error = x; run_done = r.shared.ended } ∷ reports_of r hs

    -- how many operations fail before the run has ended
    abbrev pub failures : Run E → List (Happening E) → ℕ
    failures r [] = 0
    failures r (stepped e ∷ hs) = failures (step opts e r) hs
    failures r (reported n d none ∷ hs) = failures r hs
    failures r (reported n d (some x) ∷ hs) = one_if (not r.shared.ended) + failures r hs

    happen_all-split :
        (hs : List (Happening E)) (r : Run E) (c : Collector)
        → happen_all opts hs (record { run = r; collector = c })
          ≡ record { run = steps opts (steps_of hs) r; collector = observe_all c (reports_of r hs) }
    unfolding happen_all happen steps observe_all
    happen_all-split [] r c = refl
    happen_all-split (stepped e ∷ hs) r c = happen_all-split hs (step opts e r) c
    happen_all-split (reported n d x ∷ hs) r c = happen_all-split hs r _

    failures-tally :
        (hs : List (Happening E)) (r : Run E)
        → tally (λ o. failed o && not o.run_done) (reports_of r hs) ≡ failures r hs
    failures-tally [] r = refl
    failures-tally (stepped e ∷ hs) r = failures-tally hs (step opts e r)
    failures-tally (reported n d none ∷ hs) r = omega (arith, failures-tally hs r)
    failures-tally (reported n d (some x) ∷ hs) r =
        ap (λ (n : ℕ). one_if (not r.shared.ended) + n) (failures-tally hs r)

    -- what the steps leave of the run, and the reports of the collector
    abbrev pub left : List (Happening E) → Run E
    left hs = steps opts (steps_of hs) (start opts)

    abbrev pub collected : List (Happening E) → Collector
    collected hs = observe_all (bind_run new) (reports_of (start opts) hs)

    -- A run that is bounded, in which no call of a worker panics, whose workers all come to their end, that
    -- returns no error, and in which no operation fails before it has ended.
    pub record IsClean (no_client : Bool) (hs : List (Happening E)) : Type 0 where
      pub bounded : (is_nonpos opts.duration && is_nonpos opts.iterations) ≡ false
      pub served : (no_client && ltb 0 (length (left hs).shared.calls)) ≡ false
      pub finished : all_finished (left hs).phases ≡ true
      pub returned : outcome opts (left hs) ≡ none
      pub unfailing : failures (start opts) hs ≡ 0

  module _ {p : Platform} (f : Flags p) (w : World E) where
    abbrev pub ends : Course E → Option ℕ
    ends c = status (report f w c)

    -- whether what a collector holds can be printed
    abbrev pub IsPrinted : Collector → Type 0
    IsPrinted c = (output : Bytes) × (printed f w (summary w.floats c) ≡ some output)

    abbrev IsGood : Option (Failure E) → Collector → Type 0
    IsGood e c = (e ≡ none) × ((summary w.floats c).errors ≡ 0) × IsPrinted c

    close-good :
        (e : Option (Failure E)) (s : Summary) (o : Option Bytes)
        → (status (close e s o) ≡ some 0)
          ↔ ((e ≡ none) × (s.errors ≡ 0) × ((output : Bytes) × (o ≡ some output)))
    unfolding close status
    close-good e s none = (λ h. cc, λ (x, y, (t, z)). cc)
    close-good e s (some t) = (
      λ h.
          let fine = exit_status-none e s.errors (ground (arith, h)) in (fine.0, fine.1, (t, refl)),
      λ (x, y, z). ap some (exit_status-good e s.errors x y),
    )

    pub back-IsGood :
        (e : Option (Failure E)) (c : Collector) → (ends (back e c) ≡ some 0) ↔ IsGood e c
    unfolding report
    back-IsGood e c = close-good e (summary w.floats c) (printed f w (summary w.floats c))

    wait-good :
        (panics finished : Bool) (e : Option E) (c : Collector)
        → (ends (
              if panics
              then died
              else if finished
              then back (elim e [ none ↦ none | some x ↦ some (not_served x) ]) c
              else waiting)
            ≡ some 0)
          ↔ ((panics ≡ false)
              × (finished ≡ true)
              × (e ≡ none)
              × ((summary w.floats c).errors ≡ 0)
              × IsPrinted c)
    unfolding report status
    wait-good true finished e c = (λ h. cc, λ h. absurd (ground (arith, h.0)))
    wait-good false false e c = (λ h. cc, λ h. absurd (ground (arith, h.1)))
    wait-good false true none c = (
      λ h. let good = (back-IsGood none c).0 h in (refl, refl, refl, good.1, good.2),
      λ h. (back-IsGood none c).1 (refl, h.3, h.4),
    )
    wait-good false true (some x) c = (
      λ h. let impossible = ((back-IsGood (some (not_served x)) c).0 h).0 in cc,
      λ h. let impossible = h.2 in cc,
    )

    errors-failures :
        (opts : Options) (hs : List (Happening E))
        → (summary w.floats (collected opts hs)).errors ≡ failures opts (start opts) hs
    errors-failures opts hs =
        (summary_counts w.floats (reports_of opts (start opts) hs)).0
        ∙ failures-tally opts hs (start opts)

    conduct-bounded :
        (opts : Options) (no_client : Bool) (hs : List (Happening E))
        → (is_nonpos opts.duration && is_nonpos opts.iterations) ≡ false
        → conduct opts no_client hs
          ≡ wait opts no_client (record { run = left opts hs; collector = collected opts hs })
    unfolding conduct drive
    conduct-bounded opts no_client hs h =
        rw (conduct, drive, run-bounded opts h)
          (ap (wait opts no_client) (happen_all-split opts hs (start opts) (bind_run new)))

    conduct-unbounded :
        (opts : Options) (no_client : Bool) (hs : List (Happening E))
        → (is_nonpos opts.duration && is_nonpos opts.iterations) ≡ true
        → conduct {E = E} opts no_client hs ≡ back (some (not_bounded unbounded)) new
    unfolding conduct drive
    conduct-unbounded opts no_client hs h = rw (conduct, drive, run-unbounded opts h) refl

    pub conduct-IsClean :
        (opts : Options) (no_client : Bool) (hs : List (Happening E))
        → (ends (conduct opts no_client hs) ≡ some 0)
          ↔ (IsClean opts no_client hs × IsPrinted (collected opts hs))
    unfolding wait
    conduct-IsClean opts no_client hs =
        let at_end =
          wait-good (no_client && ltb 0 (length (left opts hs).shared.calls))
            (all_finished (left opts hs).phases) (outcome opts (left opts hs))
            (collected opts hs) in
        let counted = errors-failures opts hs in
        (
          λ h. elim (Bool-cases (is_nonpos opts.duration && is_nonpos opts.iterations)) [
            | inl u ↦
                let refused =
                  ((back-IsGood (some (not_bounded unbounded)) new).0 (
                    subst (λ (c : Course E). ends c ≡ some 0)
                      (conduct-unbounded opts no_client hs u) h)).0 in
                cc
            | inr b ↦
                let good = at_end.0 (
                  subst (λ (c : Course E). ends c ≡ some 0) (conduct-bounded opts no_client hs b)
                    h) in
                (
                  record {
                    bounded = b;
                    served = good.0;
                    finished = good.1;
                    returned = good.2;
                    unfailing = sym counted ∙ good.3;
                  },
                  good.4,
                )
          ],
          λ (clean, shown).
              subst (λ (c : Course E). ends c ≡ some 0)
                (sym (conduct-bounded opts no_client hs clean.bounded))
                (at_end.1
                  (clean.served, clean.finished, clean.returned, counted ∙ clean.unfailing, shown)),
        )
