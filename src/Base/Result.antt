-- ===== src/Base/Result.antt =====
-- A Go result `(value, error)`: the value, or the error.

use mathlib.Core.Bool.{Bool, true, false}
use mathlib.Core.Path.{◌≡◌, refl, subst}
use yarilo_loadtest.Base.Tests.{if◌then◌else◌}

pub data Result (E : Type 0) (A : Type 0) : Type 0 where
  ok : A → Result E A
  err : E → Result E A

-- `if err != nil { return err }`
infixl 5 ◌>>=◌
abbrev pub ◌>>=◌ : {E A B : Type 0} → Result E A → (A → Result E B) → Result E B
ok a >>= f = f a
err e >>= f = err e

-- `fmt.Errorf("…: %w", err)`
abbrev pub map_err : {E F A : Type 0} → (E → F) → Result E A → Result F A
map_err f (ok a) = ok a
map_err f (err e) = err (f e)

pub map_err-ok :
    {E F A : Type 0} (f : E → F) (r : Result E A) (a : A) → map_err f r ≡ ok a → r ≡ ok a
map_err-ok f (ok b) a h = cc
map_err-ok f (err e) a h = cc

pub ok-injective : {E A : Type 0} {a b : A} → ◌≡◌ {A = Result E A} (ok a) (ok b) → a ≡ b
ok-injective h = cc

-- What a result gives, if it gives anything.
pub record Yields {E A : Type 0} (P : A → Type 0) (r : Result E A) : Type 0 where
  pub yields : (a : A) → r ≡ ok a → P a

pub ok-Yields : {E A : Type 0} {P : A → Type 0} (a : A) → P a → Yields {E = E} P (ok a)
ok-Yields {P = P} a h = record { yields = λ b e. subst P (ok-injective e) h }

pub err-Yields : {E A : Type 0} {P : A → Type 0} {e : E} → Yields P (err e)
err-Yields = record { yields = λ b h. cc }

pub any-Yields : {E A : Type 0} (r : Result E A) → Yields (λ a. Unit {0}) r
any-Yields r = record { yields = λ b h. tt }

pub map_err-Yields :
    {E F A : Type 0} {P : A → Type 0} {r : Result E A} (f : E → F)
    → Yields P r
    → Yields P (map_err f r)
map_err-Yields {r = r} f h = record { yields = λ a e. h.yields a (map_err-ok f r a e) }

pub bind-Yields :
    {E A B : Type 0} {P : A → Type 0} {Q : B → Type 0} {m : Result E A} {f : A → Result E B}
    → Yields P m
    → ((a : A) → P a → Yields Q (f a))
    → Yields Q (m >>= f)
bind-Yields {m = ok a} h k = k a (h.yields a refl)
bind-Yields {m = err e} h k = err-Yields

pub if-Yields :
    {E A : Type 0} {P : A → Type 0} {r q : Result E A} (b : Bool)
    → Yields P r
    → Yields P q
    → Yields P (if b then r else q)
if-Yields true hr hq = hr
if-Yields false hr hq = hq
