-- ===== src/Corpus/Mbox/Wire.antt =====
-- What `add` makes of a message: the form that the wire carries.
use yarilo_loadtest.Base.{
  ℕ, ◌≡◌, refl, sym, ap, append-nil, ◌∙◌, true, false, Bool, not, ◌&&◌, [], ◌∷◌, ◌++◌, arith, Bytes,
  ◌==◌, keep_if,
}
use yarilo_loadtest.Text.{has_suffix, trim_right, trim_cons, trim_crlf, is_crlf}
use yarilo_loadtest.Text.Laws.{has_suffix-append, trim_right-append}
use yarilo_loadtest.Corpus.Mbox.{lf, cr, crlf, normalise, wire_form}

-- Every line feed stands behind a carriage return. `bare` says that the byte before the text is none.
abbrev pub IsWire : Bool → Bytes → Type 0
IsWire bare [] = Unit {0}
IsWire bare (c ∷ s) = (((c == lf) && bare) ≡ false) × IsWire (not (c == cr)) s

normalise-IsWire : (bare : Bool) (s : Bytes) → IsWire bare (normalise bare s)
unfolding normalise
normalise-IsWire bare [] = tt
normalise-IsWire bare (c ∷ s) = ground (arith, normalise-IsWire (not (c == cr)) s)

normalise-of-IsWire : (bare : Bool) (s : Bytes) → IsWire bare s → normalise bare s ≡ s
unfolding normalise
normalise-of-IsWire bare [] h = refl
normalise-of-IsWire bare (c ∷ s) h = ground (arith, normalise-of-IsWire (not (c == cr)) s h.1)

IsWire-trim_cons :
    (p : ℕ → Bool) (bare : Bool) (c : ℕ) (s : Bytes)
    → ((c == lf) && bare) ≡ false
    → IsWire (not (c == cr)) s
    → IsWire bare (trim_cons p c s)
IsWire-trim_cons p bare c [] h hs = ground arith
IsWire-trim_cons p bare c (d ∷ s) h hs = (h, hs)

IsWire-trim_right :
    (p : ℕ → Bool) (bare : Bool) (s : Bytes) → IsWire bare s → IsWire bare (trim_right p s)
unfolding trim_right
IsWire-trim_right p bare [] h = tt
IsWire-trim_right p bare (c ∷ s) h =
    IsWire-trim_cons p bare c (trim_right p s) h.0 (IsWire-trim_right p (not (c == cr)) s h.1)

IsWire-append-crlf : (bare : Bool) (s : Bytes) → IsWire bare s → IsWire bare (s ++ crlf)
IsWire-append-crlf bare [] h = ground arith
IsWire-append-crlf bare (c ∷ s) h = (h.0, IsWire-append-crlf (not (c == cr)) s h.1)

pub wire_form-IsWire : (s : Bytes) → IsWire true (wire_form s)
unfolding wire_form trim_crlf
wire_form-IsWire s =
    IsWire-append-crlf true _ (IsWire-trim_right is_crlf true _ (normalise-IsWire true s))

trim_right-trim_cons :
    (p : ℕ → Bool) (c : ℕ) (s : Bytes)
    → trim_right p s ≡ s
    → trim_right p (trim_cons p c s) ≡ trim_cons p c s
unfolding trim_right
trim_right-trim_cons p c [] h = ground arith
trim_right-trim_cons p c (d ∷ s) h = rw h

trim_right_idem : (p : ℕ → Bool) (s : Bytes) → trim_right p (trim_right p s) ≡ trim_right p s
unfolding trim_right
trim_right_idem p [] = refl
trim_right_idem p (c ∷ s) = trim_right-trim_cons p c (trim_right p s) (trim_right_idem p s)

wire_form-eq : (s : Bytes) → wire_form s ≡ trim_right is_crlf (normalise true s) ++ crlf
unfolding wire_form trim_crlf
wire_form-eq s = refl

-- Normalising a message that has been normalised changes nothing: it is sent as it was loaded.
pub wire_form_idem : (s : Bytes) → wire_form (wire_form s) ≡ wire_form s
wire_form_idem s =
    let body = normalise true s in
    wire_form-eq (wire_form s)
    ∙ ap (λ t. trim_right is_crlf t ++ crlf) (normalise-of-IsWire true _ (wire_form-IsWire s))
    ∙ ap (λ t. trim_right is_crlf t ++ crlf) (wire_form-eq s)
    ∙ ap (λ t. t ++ crlf)
        (trim_right-append is_crlf (trim_right is_crlf body) crlf (refl, (refl, tt))
          ∙ trim_right_idem is_crlf body)
    ∙ sym (wire_form-eq s)

-- The bytes of a text that end no line.
abbrev pub text_of : Bytes → Bytes
text_of = keep_if (λ c. not (is_crlf c))

text_of-append : (s t : Bytes) → text_of (s ++ t) ≡ text_of s ++ text_of t
text_of-append [] t = refl
text_of-append (c ∷ s) t = ground (arith, text_of-append s t)

text_of-normalise : (bare : Bool) (s : Bytes) → text_of (normalise bare s) ≡ text_of s
unfolding normalise
text_of-normalise bare [] = refl
text_of-normalise bare (c ∷ s) = ground (arith, text_of-normalise (not (c == cr)) s)

text_of-trim_cons : (c : ℕ) (s : Bytes) → text_of (trim_cons is_crlf c s) ≡ text_of (c ∷ s)
text_of-trim_cons c [] = ground arith
text_of-trim_cons c (d ∷ s) = refl

text_of-trim_right : (s : Bytes) → text_of (trim_right is_crlf s) ≡ text_of s
unfolding trim_right
text_of-trim_right [] = refl
text_of-trim_right (c ∷ s) =
    ground (arith, text_of-trim_cons c (trim_right is_crlf s), text_of-trim_right s)

-- Nothing but line endings is changed.
pub text_of-wire_form : (s : Bytes) → text_of (wire_form s) ≡ text_of s
text_of-wire_form s =
    ap text_of (wire_form-eq s)
    ∙ text_of-append (trim_right is_crlf (normalise true s)) crlf
    ∙ append-nil _
    ∙ text_of-trim_right (normalise true s)
    ∙ text_of-normalise true s

pub wire_form_ends : (s : Bytes) → has_suffix (wire_form s) crlf ≡ true
unfolding wire_form
wire_form_ends s = has_suffix-append _ crlf
