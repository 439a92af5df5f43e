-- ===== src/Imap/Session/Entering.antt =====
-- How a session enters (internal/imapdrv/driver.go: connect), step by step.
use yarilo_loadtest.Base.{
  ap, ℕ, ◌+◌, ◌≤◌, ◌≡◌, refl, Bool, true, false, List, [], ◌∷◌, Option, none, some, Bytes, codes,
  arith, length,
}
use yarilo_loadtest.Base.Result.{Result, ok, err}
use yarilo_loadtest.Corpus.{Source}
use yarilo_loadtest.Net.{Conn}
use yarilo_loadtest.Net.Monad.{M, follow, ◌>>=◌, observed}
use yarilo_loadtest.Net.Moves.{Moves}
use yarilo_loadtest.Imap.Client.{Error, Linked}
use yarilo_loadtest.Imap.Client.Plain.{greet-IsPlain}
use yarilo_loadtest.Imap.Client.Rest.{greet-rests}
use yarilo_loadtest.Imap.Session.{Local, Code, change, connected, dial, dial_next, wrapped}
use yarilo_loadtest.Imap.Session.Staying.{logouts, logouts-append, credit, Whole, lasting}

abbrev pub is_ok : {A : Type 0} → Result Error A → Bool
is_ok (ok a) = true
is_ok (err e) = false

module _ (src : Source) where
  -- At most one dial is made more than LOGOUT is reported.
  abbrev pub Spends : Whole src → Whole src → ℕ → Type 0
  Spends s t n =
      length s.shared.rest.dials + logouts s.samples
      ≤ length t.shared.rest.dials + logouts t.samples + n

  pub dial_next-Spends :
      (s : Whole src) (ds : List (Option Conn))
      → s.shared.rest.dials ≡ ds
      → Spends s (dial_next src ds s).1 1
  unfolding dial_next connected
  dial_next-Spends s [] e = omega arith
  dial_next-Spends s (none ∷ more) e = omega (arith, ap length e)
  dial_next-Spends s (some c ∷ more) e =
      let u = connected src s c more in
      omega (
        arith,
        ap length e,
        ap logouts (greet-IsPlain.keeps u).0,
        ap (λ (l : Local src). length l.dials) (greet-rests.moves u),
      )

  pub dial-Spends : (s : Whole src) → Spends s (dial src s).1 1
  unfolding dial
  dial-Spends s = dial_next-Spends s s.shared.rest.dials refl

  -- What a round has before its step: the dials, and behind a success the credit as well.
  abbrev pub Entered : {A : Type 0} → Whole src → Result Error A × Whole src → Type 0
  Entered s (r, t) =
      Spends s t (credit s.shared.rest.state)
      × (is_ok r ≡ true
          → length s.shared.rest.dials + logouts s.samples + credit t.shared.rest.state
            ≤ length t.shared.rest.dials + logouts t.samples + credit s.shared.rest.state)

  abbrev pub rewrap :
      {A : Type 0} → (Error → Error) → Result Error A × Whole src → Result Error A × Whole src
  rewrap f (r, t) = elim r [ ok a ↦ (ok a, t) | err e ↦ (err (f e), t) ]

  pub rewrap-lasts :
      {A : Type 0} (f : Error → Error) (s : Whole src) (q : Result Error A × Whole src)
      → (lasting src).Rel s q.1
      → (lasting src).Rel s (rewrap f q).1
  rewrap-lasts f s (ok a, t) h = h
  rewrap-lasts f s (err e, t) h = h

  pub wrapped-lasts :
      {A : Type 0} {m : M Error (Linked (Local src)) A} (f : Error → Error)
      → Moves (lasting src) m
      → Moves (lasting src) (wrapped src f m)
  unfolding wrapped
  wrapped-lasts {m = m} f hm = record { moves = λ s. rewrap-lasts f s (m s) (hm.moves s) }

  pub observed-lasts :
      {A : Type 0} {m : M Error (Linked (Local src)) A} (what : Bytes)
      → Moves (lasting src) m
      → Moves (lasting src) (observed what m)
  observed-lasts {m = m} what hm = record {
    moves = λ s. ((hm.moves s).0, omega (arith, (hm.moves s).1, logouts-append (m s).1.samples _));
  }

  -- Code that makes no dial, and is connected where it succeeds.
  pub record Settles (m : Code src (Unit {0})) : Type 0 where
    pub settles :
        (s : Whole src)
        → (lasting src).Rel s (m s).1
          × (is_ok (m s).0 ≡ true → credit (m s).1.shared.rest.state ≡ 0)

  pub follow-Settles :
      {A : Type 0} (f : A → Code src (Unit {0})) (s : Whole src) (q : Result Error A × Whole src)
      → (lasting src).Rel s q.1
      → ((a : A) → Settles (f a))
      → (lasting src).Rel s (follow f q).1
        × (is_ok (follow f q).0 ≡ true → credit (follow f q).1.shared.rest.state ≡ 0)
  follow-Settles f s (ok a, t) h hf =
      let after = (hf a).settles t in ((lasting src).chain s t (f a t).1 h after.0, after.1)
  follow-Settles f s (err e, t) h hf = (h, λ b. absurd (cc b))

  pub bind-Settles :
      {A : Type 0} {m : Code src A} {f : A → Code src (Unit {0})}
      → Moves (lasting src) m
      → ((a : A) → Settles (f a))
      → Settles (m >>= f)
  bind-Settles {m = m} {f} hm hf = record {
    settles = λ s. follow-Settles f s (m s) (hm.moves s) hf;
  }

  pub follow-Entered :
      (f : Unit {0} → Code src (Unit {0})) (s : Whole src) (q : Result Error (Unit {0}) × Whole src)
      → credit s.shared.rest.state ≡ 1
      → Spends s q.1 1
      → ((a : Unit {0}) → Settles (f a))
      → Entered s (follow f q)
  follow-Entered f s (ok a, t) c h hf =
      let (kept, authenticates) = (hf a).settles t in
      let spent : Spends s (f a t).1 (credit s.shared.rest.state) =
        omega (arith, c, h, ap (λ (l : List (Option Conn)). length l) kept.0, kept.1) in
      (spent, λ b. omega (arith, spent, authenticates b))
  follow-Entered f s (err e, t) c h hf = (omega (arith, c, h), λ b. absurd (cc b))

  -- the dial as it is reported
  pub reported-Spends : (s : Whole src) → Spends s (observed (codes "connect") (dial src) s).1 1
  reported-Spends s = omega (arith, dial-Spends s, logouts-append (dial src s).1.samples _)

  pub authenticate-Settles :
      (f : Local src → Local src)
      → ((l : Local src) → ((f l).dials ≡ l.dials) × (credit (f l).state ≡ 0))
      → Settles (change src f)
  unfolding change
  authenticate-Settles f h = record {
    settles = λ s. (((h s.shared.rest).0, omega arith), λ b. (h s.shared.rest).1);
  }
