-- ===== src/Net/Script.antt =====
-- Conversations that go well: what session code reads from the server, writes to it and reports of it,
-- put together along the code.
use yarilo_loadtest.Base.{
  ◌≡◌, refl, ap, sym, ◌∙◌, List, [], ◌∷◌, ◌++◌, map, none, append_assoc, append-nil, arith, Bytes,
}
use yarilo_loadtest.Base.Result.{ok}
use yarilo_loadtest.Net.{IoError, Session, Sample, write}
use yarilo_loadtest.Net.Monad.{M, ◌>>=◌, ◌>>◌, return, observed, on_shared, on_conn}
use mathlib.Core.List.{map-append}

pub record Script : Type 0 where
  pub reads : Bytes
  pub writes : List Bytes
  pub reports : List Bytes

abbrev pub silence : Script
silence = record { reads = []; writes = []; reports = [] }

infixr 60 ◌then◌
abbrev pub ◌then◌ : Script → Script → Script
t then u = record {
  reads = t.reads ++ u.reads;
  writes = t.writes ++ u.writes;
  reports = t.reports ++ u.reports;
}

abbrev pub reporting : Bytes → Script → Script
reporting name t = record t { reports = t.reports ++ name ∷ [] }

-- a report of no failure
abbrev pub success : {E : Type 0} → Bytes → Sample E
success name = record { name = name; failure = none }

module _ {E D : Type 0} where
  -- the session behind a script, with what the server still has to say and the driver's own state
  abbrev pub played : Script → Bytes → D → Session E D → Session E D
  played t rest d s = record {
    conn = record s.conn { incoming = rest; sent = s.conn.sent ++ t.writes };
    samples = s.samples ++ map success t.reports;
    shared = d;
  }

  -- The code follows the script: where the server says what the script reads, and nothing stops the
  -- writes, it returns the value and leaves the session of the script.
  pub record Plays {A : Type 0} (m : M E D A) (a : A) (t : Script) (d e : D) : Type 0 where
    pub runs :
        (s : Session E D) (rest : Bytes)
        → s.conn.writes_left ≡ none
        → s.shared ≡ d
        → s.conn.incoming ≡ t.reads ++ rest
        → m s ≡ (ok a, played t rest e s)

  played-then :
      (t u : Script) (rest : Bytes) (d e : D) (s : Session E D)
      → played u rest e (played t (u.reads ++ rest) d s) ≡ played (t then u) rest e s
  played-then t u rest d e s = simp (append_assoc, map-append)

  bind-ok :
      {A B : Type 0} (m : M E D A) (f : A → M E D B) (a : A) (s u : Session E D)
      → m s ≡ (ok a, u)
      → (m >>= f) s ≡ f a u
  bind-ok m f a s u p = ground (arith, p)

  pub Plays-bind :
      {A B : Type 0} {m : M E D A} (f : A → M E D B) {a : A} {b : B} {t u : Script} {d e g : D}
      → Plays m a t d e
      → Plays (f a) b u e g
      → Plays (m >>= f) b (t then u) d g
  Plays-bind {m = m} f {a} {b} {t} {u} {d} {e} {g} first second = record {
    runs = λ s rest w h i.
        bind-ok m f a s (played t (u.reads ++ rest) e s)
          (first.runs s (u.reads ++ rest) w h (i ∙ append_assoc t.reads u.reads rest))
        ∙ second.runs (played t (u.reads ++ rest) e s) rest w refl refl
        ∙ ap (λ (r : Session E D). (ok b, r)) (played-then t u rest e g s);
  }

  pub Plays-then :
      {B : Type 0} {m : M E D (Unit {0})} {k : M E D B} {b : B} {t u : Script} {d e g : D}
      → Plays m tt t d e
      → Plays k b u e g
      → Plays (m >> k) b (t then u) d g
  Plays-then {k = k} first second = Plays-bind (λ _. k) first second

  pub Plays-skip :
      {A B : Type 0} {m : M E D A} {k : M E D B} {a : A} {b : B} {t u : Script} {d e g : D}
      → Plays m a t d e
      → Plays k b u e g
      → Plays (m >>= λ _. k) b (t then u) d g
  Plays-skip {k = k} first second = Plays-bind (λ _. k) first second

  -- what follows changes no state
  pub Plays-pure :
      {A B : Type 0} {m : M E D A} (f : A → M E D B) {a : A} {b : B} {t : Script} {d e : D}
      → Plays m a t d e
      → ((s : Session E D) → f a s ≡ (ok b, s))
      → Plays (m >>= f) b t d e
  Plays-pure {m = m} f {a} {t = t} {e = e} plays pure = record {
    runs = λ s rest w h i.
        bind-ok m f a s (played t rest e s) (plays.runs s rest w h i) ∙ pure (played t rest e s);
  }

  pub Plays-return : {A : Type 0} (a : A) (d : D) → Plays (return a) a silence d d
  Plays-return a d = record {
    runs = λ s rest w h i. ground (arith, append-nil s.conn.sent, append-nil s.samples);
  }

  observed-ok :
      {A : Type 0} (name : Bytes) (m : M E D A) (a : A) (s u : Session E D)
      → m s ≡ (ok a, u)
      → observed name m s ≡ (ok a, record u { samples = u.samples ++ success name ∷ [] })
  observed-ok name m a s u p = ground (arith, p)

  pub Plays-observed :
      {A : Type 0} (name : Bytes) {m : M E D A} {a : A} {t : Script} {d e : D}
      → Plays m a t d e
      → Plays (observed name m) a (reporting name t) d e
  Plays-observed name {m} {a} {t} {d} {e} plays = record {
    runs = λ s rest w h i.
        let u = played t rest e s in
        observed-ok name m a s u (plays.runs s rest w h i)
        ∙ ap (λ (l : List (Sample E)). (ok a, record u { samples = l }))
            (append_assoc s.samples (map success t.reports) (success name ∷ [])
              ∙ ap (◌++◌ s.samples) (sym (map-append success t.reports (name ∷ []))));
  }

  pub Plays-write :
      (wrap : IoError → E) (b : Bytes) (d : D)
      → Plays (on_conn wrap (write b)) tt (record silence { writes = b ∷ [] }) d d
  unfolding write
  Plays-write wrap b d = record { runs = λ s rest w h i. ground (arith, append-nil s.samples) }

  pub Plays-on_shared :
      {A : Type 0} (f : D → A × D) (d : D) → Plays (on_shared f) (f d).0 silence d (f d).1
  Plays-on_shared f d = record {
    runs = λ s rest w h i. ground (arith, append-nil s.conn.sent, append-nil s.samples);
  }

  -- code that reads and does nothing else
  pub Plays-read :
      {A : Type 0} {m : M E D A} {a : A} (b : Bytes) (d : D)
      → ((s : Session E D) (rest : Bytes)
          → s.conn.incoming ≡ b ++ rest
          → m s ≡ (ok a, record s { conn = record s.conn { incoming = rest } }))
      → Plays m a (record silence { reads = b }) d d
  Plays-read b d reads = record {
    runs = λ s rest w h i.
        ground (arith, reads s rest i, append-nil s.conn.sent, append-nil s.samples);
  }
