-- ===== src/Net/Monad.antt =====
-- Session code: a result and the state behind it. A failed step ends the code, and its effects stay.
use yarilo_loadtest.Base.{[], ◌∷◌, ◌++◌, Option, none, some, Bytes}
use yarilo_loadtest.Base.Result.{Result, ok, err, map_err}
use yarilo_loadtest.Net.{IoError, Conn, Session}

abbrev pub M : Type 0 → Type 0 → Type 0 → Type 0
M E D A = Session E D → Result E A × Session E D

abbrev pub failure_of : {E A : Type 0} → Result E A → Option E
failure_of (ok a) = none
failure_of (err e) = some e

module _ {E D : Type 0} where
  infixl 5 ◌>>=◌ ◌>>◌
  abbrev pub ◌>>=◌ : {A B : Type 0} → M E D A → (A → M E D B) → M E D B
  ◌>>=◌ m f s = let (r, s') = m s in elim r [ ok a ↦ f a s' | err e ↦ (err e, s') ]

  -- what goes on from a result
  abbrev pub follow :
      {A B : Type 0} → (A → M E D B) → Result E A × Session E D → Result E B × Session E D
  follow f (r, s) = elim r [ ok a ↦ f a s | err e ↦ (err e, s) ]

  abbrev pub ◌>>◌ : {B : Type 0} → M E D (Unit {0}) → M E D B → M E D B
  m >> k = m >>= λ _. k

  abbrev pub return : {A : Type 0} → A → M E D A
  return a s = (ok a, s)

  abbrev pub fail : {A : Type 0} → E → M E D A
  fail e s = (err e, s)

  -- `c.Observe(name, …, err)` behind a step, whether it failed or not
  abbrev pub observed : {A : Type 0} → Bytes → M E D A → M E D A
  observed name m s =
      let (r, s') = m s in
      (r, record s' { samples = s'.samples ++ record { name = name; failure = failure_of r } ∷ [] })

  -- a step of the driver's own state
  abbrev pub on_shared : {A : Type 0} → (D → A × D) → M E D A
  on_shared f s = let (a, d) = f s.shared in (ok a, record s { shared = d })

  -- a read or a write of the connection, with the driver's own error
  abbrev pub on_conn : {A : Type 0} → (IoError → E) → (Conn → Result IoError A × Conn) → M E D A
  on_conn wrap io s = let (r, c) = io s.conn in (map_err wrap r, record s { conn = c })
