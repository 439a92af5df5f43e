-- ===== src/CommandLine/Whole/Status.antt =====
-- Which courses of the program (main.go: main) end with status 0.
use yarilo_loadtest.Base.{
  ◌≡◌, ◌↔◌, refl, sym, subst, Bool, true, false, List, Option, none, some, Bytes, arith,
  if◌then◌else◌, pos, ltb_ℤ, is_nonpos,
}
use yarilo_loadtest.Base.Result.{Result, ok, err, ok-injective}
use yarilo_loadtest.Corpus.Generator.{Platform}
use yarilo_loadtest.Driver.{Options}
use yarilo_loadtest.Stats.{new}
use yarilo_loadtest.CommandLine.{Flags, Refusal, Plan, lmtp, imap, pop3, jmap, plan, is_stall_watch}
use yarilo_loadtest.CommandLine.Whole.{
  World, not_prepared, died, refused, conduct, execute, prepare_first, make_clients, report, main,
  status,
}
use yarilo_loadtest.CommandLine.Whole.Clean.{
  collected, IsClean, IsPrinted, ends, back-IsGood, conduct-IsClean,
}

module _ {p : Platform} where
  abbrev pub options_of : Plan p → Options
  options_of (lmtp c o opts) = opts
  options_of (imap d o opts) = opts
  options_of (pop3 c opts) = opts
  options_of (jmap c clients opts) = opts

  -- whether there is no client for a worker to pick
  abbrev pub no_client_of : Plan p → Bool
  no_client_of (lmtp c o opts) = false
  no_client_of (imap d o opts) = false
  no_client_of (pop3 c opts) = false
  no_client_of (jmap c clients opts) = is_nonpos clients

module _ {E : Type 0} where
  module _ {p : Platform} where
    -- what a driver's function needs before its workers: mailboxes, or room for its clients
    abbrev pub CanServe : World E → Plan p → Type 0
    CanServe w (lmtp c o opts) = Unit {0}
    CanServe w (imap d o opts) = w.prepared ≡ none
    CanServe w (pop3 c opts) = Unit {0}
    CanServe w (jmap c clients opts) = ltb_ℤ clients (pos 0) ≡ false

    -- a plan that is carried out well
    abbrev pub GoesWell : Flags p → World E → Plan p → Type 0
    GoesWell f w pl =
        CanServe w pl
        × IsClean (options_of pl) (no_client_of pl) w.happenings
        × IsPrinted f w (collected (options_of pl) w.happenings)

  module _ {p : Platform} (f : Flags p) (w : World E) where
    prepare_first-IsClean :
        (opts : Options) (prepared : Option E)
        → (ends f w (prepare_first prepared opts w.happenings) ≡ some 0) ↔ (
            (prepared ≡ none)
            × IsClean opts false w.happenings
            × IsPrinted f w (collected opts w.happenings))
    unfolding prepare_first
    prepare_first-IsClean opts none =
        let clean = conduct-IsClean f w opts false w.happenings in
        (λ h. (refl, (clean.0 h).0, (clean.0 h).1), λ (none_failed, h, shown). clean.1 (h, shown))
    prepare_first-IsClean opts (some e) = (
      λ h. let impossible = ((back-IsGood f w (some (not_prepared e)) new).0 h).0 in cc,
      λ h. let impossible = h.0 in cc,
    )

    make_clients-IsClean :
        (opts : Options) (none_left negative : Bool)
        → (ends f w (if negative then died else conduct opts none_left w.happenings) ≡ some 0) ↔ (
            (negative ≡ false)
            × IsClean opts none_left w.happenings
            × IsPrinted f w (collected opts w.happenings))
    unfolding report status
    make_clients-IsClean opts none_left true = (λ h. cc, λ h. absurd (ground (arith, h.0)))
    make_clients-IsClean opts none_left false =
        let clean = conduct-IsClean f w opts none_left w.happenings in
        (λ h. (refl, (clean.0 h).0, (clean.0 h).1), λ (fits, h, shown). clean.1 (h, shown))

    execute-clean : (pl : Plan p) → (ends f w (execute w pl) ≡ some 0) ↔ GoesWell f w pl
    unfolding execute make_clients
    execute-clean (lmtp c o opts) =
        let clean = conduct-IsClean f w opts false w.happenings in
        (λ h. (tt, (clean.0 h).0, (clean.0 h).1), λ (u, h, shown). clean.1 (h, shown))
    execute-clean (imap d o opts) = prepare_first-IsClean opts w.prepared
    execute-clean (pop3 c opts) =
        let clean = conduct-IsClean f w opts false w.happenings in
        (λ h. (tt, (clean.0 h).0, (clean.0 h).1), λ (u, h, shown). clean.1 (h, shown))
    execute-clean (jmap c clients opts) =
        make_clients-IsClean opts (is_nonpos clients) (ltb_ℤ clients (pos 0))

    planned-clean :
        (r : Result Refusal (Plan p))
        → (status (elim r [ err e ↦ refused e | ok pl ↦ report f w (execute w pl) ]) ≡ some 0)
          ↔ ((pl : Plan p) × (r ≡ ok pl) × GoesWell f w pl)
    unfolding status
    planned-clean (err e) = (λ h. absurd (ground (arith, h)), λ h. let impossible = h.1 in cc)
    planned-clean (ok pl) =
        let clean = execute-clean pl in
        (
          λ h. (pl, refl, clean.0 h),
          λ h. clean.1 (subst (λ q. GoesWell f w q) (sym (ok-injective h.1)) h.2),
        )

    -- The program, where it is not a stall watch, ends with status 0 exactly when its flags make a plan, the
    -- plan can be served (the mailboxes of an IMAP run were prepared, the number of JMAP clients is not
    -- negative), the run is bounded, no worker picks from no clients, every worker comes to its end, the run
    -- returns no error, no operation fails before the run has ended, and the summary can be written.
    pub status-main :
        (args : List Bytes)
        → is_stall_watch args ≡ false
        → (status (main args f w) ≡ some 0)
          ↔ ((pl : Plan p) × (plan w.files f ≡ ok pl) × GoesWell f w pl)
    unfolding main
    status-main args h = rw (h, main) (planned-clean (plan w.files f))
