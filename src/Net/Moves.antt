-- ===== src/Net/Moves.antt =====
-- Code that moves a session along a preorder of sessions, whatever it meets.
use yarilo_loadtest.Base.{Bool, true, false, if◌then◌else◌}
use yarilo_loadtest.Base.Result.{Result, ok, err}
use yarilo_loadtest.Net.{Session}
use yarilo_loadtest.Net.Monad.{M, follow, ◌>>=◌, return, fail}

pub record Preorder (S : Type 0) : Type 1 where
  pub Rel : S → S → Type 0
  pub same : (s : S) → Rel s s
  pub chain : (s t u : S) → Rel s t → Rel t u → Rel s u

module _ {E D : Type 0} where
  pub record Moves (p : Preorder (Session E D)) {A : Type 0} (m : M E D A) : Type 0 where
    pub moves : (s : Session E D) → p.Rel s (m s).1

  module _ {p : Preorder (Session E D)} where
    follow-Moves :
        {A B : Type 0} (f : A → M E D B) (s : Session E D) (q : Result E A × Session E D)
        → p.Rel s q.1
        → ((a : A) → Moves p (f a))
        → p.Rel s (follow f q).1
    follow-Moves f s (ok a, t) h hf = p.chain s t (f a t).1 h ((hf a).moves t)
    follow-Moves f s (err e, t) h hf = h

    pub bind-Moves :
        {A B : Type 0} {m : M E D A} {f : A → M E D B}
        → Moves p m
        → ((a : A) → Moves p (f a))
        → Moves p (m >>= f)
    bind-Moves {m = m} {f} hm hf = record { moves = λ s. follow-Moves f s (m s) (hm.moves s) hf }

    pub return-Moves : {A : Type 0} (a : A) → Moves p (return a)
    return-Moves a = record { moves = p.same }

    pub fail-Moves : {A : Type 0} (e : E) → Moves p (fail {A = A} e)
    fail-Moves e = record { moves = p.same }

    pub if-Moves :
        {A : Type 0} {m k : M E D A} (b : Bool)
        → Moves p m
        → Moves p k
        → Moves p (if b then m else k)
    if-Moves true hm hk = hm
    if-Moves false hm hk = hk
