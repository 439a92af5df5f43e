-- ===== src/Imap/Session/Dials.antt =====
-- When a session connects (internal/imapdrv/driver.go: RunClient).
use yarilo_loadtest.Base.{
  ap, ℕ, ◌+◌, ◌≤◌, ◌≡◌, refl, Bool, true, false, List, [], ◌∷◌, Option, some, Bytes, codes, arith,
  length, get_or, ◌%◌, if◌then◌else◌,
}
use yarilo_loadtest.Base.Result.{Result, ok, err}
use yarilo_loadtest.Corpus.{Source}
use yarilo_loadtest.Net.{Conn, Session}
use yarilo_loadtest.Net.Monad.{observed}
use yarilo_loadtest.Net.Moves.{Moves}
use yarilo_loadtest.Imap.View.{State, disconnected, authenticated, selected, empty_view}
use yarilo_loadtest.Imap.Client.{Error, Linked, login, login_failed}
use yarilo_loadtest.Imap.Client.Plain.{login-IsPlain}
use yarilo_loadtest.Imap.Client.Rest.{login-rests}
use yarilo_loadtest.Imap.Session.{
  Local, change, look, step, connect, connect_if, dial, is_disconnected, client_loop, run_client,
}
use yarilo_loadtest.Imap.Session.Settings.{Driver}
use yarilo_loadtest.Imap.Session.Staying.{
  logouts, credit, Whole, lasting, client-lasts, step-stays, look-lasts,
}
use yarilo_loadtest.Imap.Session.Entering.{
  Spends, Entered, wrapped-lasts, observed-lasts, bind-Settles, follow-Entered, reported-Spends,
  authenticate-Settles,
}

module _ (src : Source) (d : Driver) where
  login-lasts :
      (user : Bytes) → Moves (lasting src) (observed (codes "LOGIN") (login user d.cfg.password))
  login-lasts user =
      observed-lasts src (codes "LOGIN")
        (client-lasts src (login-IsPlain user d.cfg.password) (login-rests user d.cfg.password))

  abbrev signed_in : Local src → Local src
  signed_in l = record l { state = authenticated; view = empty_view [] }

  connect-Entered :
      (id : ℕ) (s : Whole src) → credit s.shared.rest.state ≡ 1 → Entered src s (connect src d id s)
  unfolding connect change look
  connect-Entered id s c =
      let user = get_or d.cfg.users (id % length d.cfg.users) [] in
      let u : Whole src = record s {
        shared = record s.shared { rest = record s.shared.rest { user = user } };
      } in
      follow-Entered src _ u (observed (codes "connect") (dial src) u) c (reported-Spends src u)
        (λ a. bind-Settles src (look-lasts src (λ l. l.user)) (λ name.
          bind-Settles src (wrapped-lasts src (login_failed name) (login-lasts name))
            (λ lines. authenticate-Settles src signed_in (λ l. (refl, refl)))))

  connect_if-Entered :
      (id : ℕ) (s : Whole src) (state : State)
      → s.shared.rest.state ≡ state
      → Entered src s (connect_if src d id (is_disconnected src d state) s)
  unfolding connect_if is_disconnected
  connect_if-Entered id s disconnected e = connect-Entered id s (ap credit e)
  connect_if-Entered id s authenticated e = (omega arith, λ b. omega arith)
  connect_if-Entered id s selected e = (omega arith, λ b. omega arith)

  -- the loop of `RunClient` behind its step, and behind its connection
  abbrev stepped :
      ℕ
      → Bool
      → List Bool
      → Result Error (Unit {0}) × Whole src
      → Option (Result Error (Unit {0})) × Whole src
  stepped id ended rounds (q, s2) = elim q [
    | err e ↦ (
      some (if ended then ok tt else err e),
      record s2 {
        shared = record s2.shared { rest = record s2.shared.rest { state = disconnected } };
      },
    )
    | ok b ↦ if ended then (some (ok tt), s2) else client_loop src d id rounds s2
  ]

  abbrev joined :
      ℕ
      → Bool
      → List Bool
      → Result Error (Unit {0}) × Whole src
      → Option (Result Error (Unit {0})) × Whole src
  joined id ended rounds (r, s1) = elim r [
    | err e ↦ (some (err e), s1)
    | ok a ↦ stepped id ended rounds (step src d s1)
  ]

  stepped-Spends :
      (id n : ℕ) (ended : Bool) (rounds : List Bool) (q : Result Error (Unit {0}) × Whole src)
      (s : Whole src)
      → Spends src s q.1 n
      → Spends src s (client_loop src d id rounds q.1).1 n
      → Spends src s (stepped id ended rounds q).1 n
  stepped-Spends id n ended rounds (err e, s2) s h loop = h
  stepped-Spends id n true rounds (ok b, s2) s h loop = h
  stepped-Spends id n false rounds (ok b, s2) s h loop = loop

  joined-Spends :
      (id : ℕ) (ended : Bool) (rounds : List Bool) (s : Whole src)
      (q : Result Error (Unit {0}) × Whole src)
      → ((t : Whole src)
          → Spends src t (client_loop src d id rounds t).1 (credit t.shared.rest.state))
      → Entered src s q
      → Spends src s (joined id ended rounds q).1 (credit s.shared.rest.state)
  joined-Spends id ended rounds s (err e, s1) loop h = h.0
  joined-Spends id ended rounds s (ok a, s1) loop h =
      let s2 = (step src d s1).1 in
      let stayed = (step-stays src d).moves s1 in
      let kept = ap (λ (l : List (Option Conn)). length l) stayed.0 in
      stepped-Spends id (credit s.shared.rest.state) ended rounds (step src d s1) s
        (omega (arith, h.1 refl, stayed.1, kept)) (omega (arith, h.1 refl, stayed.1, kept, loop s2))

  client_loop-dials :
      (id : ℕ) (rounds : List Bool) (s : Whole src)
      → Spends src s (client_loop src d id rounds s).1 (credit s.shared.rest.state)
  unfolding client_loop
  client_loop-dials id [] s = omega arith
  client_loop-dials id (ended ∷ rounds) s =
      joined-Spends id ended rounds s
        (connect_if src d id (is_disconnected src d s.shared.rest.state) s)
        (client_loop-dials id rounds) (connect_if-Entered id s s.shared.rest.state refl)

  -- In one call of `RunClient`, however the server answers and however the rounds go, a client makes at most
  -- one dial more than it reports LOGOUT, and none more if it begins connected.
  pub run_client-dials :
      (id : ℕ) (ended : Bool) (rounds : List Bool) (s : Session Error (Linked (Local src)))
      → let after = (run_client src d id ended rounds s).1 in
        length s.shared.rest.dials + logouts s.samples
        ≤ length after.shared.rest.dials + logouts after.samples + credit s.shared.rest.state
  unfolding run_client
  run_client-dials id true rounds s = omega arith
  run_client-dials id false rounds s = client_loop-dials id rounds s
