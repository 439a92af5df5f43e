-- ===== src/Stallwatch/Rate.antt =====
-- When the stall watch (internal/stallwatch/stallwatch.go) captures.
use yarilo_loadtest.Base.{
  ℕ, ◌+◌, ◌≤◌, ◌<◌, ◌≡◌, refl, sym, subst, le→leb, lt→ltb, Bool, true, false, ◌&&◌, ◌||◌, List, [],
  ◌∷◌, ◌++◌, Option, none, some, append_assoc, append-nil, arith, leb, ltb, ◌==◌, ==_refl,
  if◌then◌else◌, pos_part, All, Bool-cases, inl, inr, ℤ, pos, negsuc,
}
use yarilo_loadtest.Stallwatch.Settings.{System, Watcher}
use yarilo_loadtest.Stallwatch.Cluster.{Backend}
use yarilo_loadtest.Stallwatch.{Event, Progress, begin, is_recent, on_line, scan}

-- The clock does not run backwards.
abbrev pub Ordered : (now : ℕ) → List Event → Type 0
Ordered now [] = Unit
Ordered now (e ∷ events) = (now ≤ e.seen) × (e.seen ≤ e.taken) × Ordered e.taken events

-- a time that lies at least so far behind the one before it, if there is one
abbrev pub IsLater : (gap : ℕ) → Option ℕ → ℕ → Type 0
IsLater gap none t = Unit
IsLater gap (some before) t = before + gap ≤ t

abbrev pub Spaced : (gap : ℕ) → Option ℕ → List ℕ → Type 0
Spaced gap last [] = Unit
Spaced gap last (t ∷ ts) = IsLater gap last t × Spaced gap (some t) ts

-- some time of a list passes a test
abbrev pub exists_in : (ℕ → Bool) → List ℕ → Bool
exists_in p [] = false
exists_in p (t ∷ ts) = p t || exists_in p ts

-- a capture on this line, or one before it that is not yet so old
abbrev pub covers : (gap : ℕ) → Event → ℕ → Bool
covers gap e t = (t == e.taken) || (leb t e.seen && ltb e.seen (t + gap))

is_recent-false :
    (cooldown : ℤ) (t now : ℕ)
    → is_recent cooldown (some t) now ≡ false
    → t ≤ now
    → t + pos_part cooldown ≤ now
unfolding is_recent
is_recent-false (pos c) t now h before = ground (arith, h)
is_recent-false (negsuc c) t now h before = omega (arith, before)

is_recent-true :
    (cooldown : ℤ) (t now : ℕ)
    → is_recent cooldown (some t) now ≡ true
    → t ≤ now
    → now < t + pos_part cooldown
unfolding is_recent
is_recent-true (pos c) t now h before = ground (arith, h, before)
is_recent-true (negsuc c) t now h before = ground (arith, h, before)

IsLater-trans :
    (last : Option ℕ) (now later : ℕ) → IsLater 0 last now → now ≤ later → IsLater 0 last later
IsLater-trans none now later h le = tt
IsLater-trans (some t) now later h le = omega (arith, h, le)

old-IsLater :
    (cooldown : ℤ) (last : Option ℕ) (now later : ℕ)
    → is_recent cooldown last now ≡ false
    → IsLater 0 last now
    → now ≤ later
    → IsLater (pos_part cooldown) last later
old-IsLater cooldown none now later h before le = tt
old-IsLater cooldown (some t) now later h before le =
    omega (arith, le, is_recent-false cooldown t now h (omega (arith, before)))

module _ (w : Watcher) where
  -- the times of the captures, from the last one on
  abbrev times : List Event → Option ℕ → List ℕ
  times [] last = []
  times (e ∷ events) last =
      if w.matches e.line
      then (if is_recent w.cooldown last e.seen
          then times events last
          else e.taken ∷ times events (some e.taken))
      else times events last

  times-Spaced :
      (now : ℕ) (events : List Event) (last : Option ℕ)
      → Ordered now events
      → IsLater 0 last now
      → Spaced (pos_part w.cooldown) last (times events last)
  times-Spaced now [] last h before = tt
  times-Spaced now (e ∷ events) last h before = elim (Bool-cases (w.matches e.line)) [
    | inl stalled ↦ elim (Bool-cases (is_recent w.cooldown last e.seen)) [
      | inl recent ↦
          rw (stalled, recent)
            (times-Spaced e.taken events last h.2
              (IsLater-trans last now e.taken before (omega (arith, h.0, h.1))))
      | inr old ↦
          rw (stalled, old)
            (
              old-IsLater w.cooldown last e.seen e.taken old
                  (IsLater-trans last now e.seen before h.0) h.1,
              times-Spaced e.taken events (some e.taken) h.2 (omega arith),
            )
    ]
    | inr quiet ↦ rw quiet (
        times-Spaced e.taken events last h.2
          (IsLater-trans last now e.taken before (omega (arith, h.0, h.1))))
  ]

  -- Each line that matches is covered by one of some captures.
  abbrev pub Covered : List ℕ → List Event → Type 0
  Covered captured events =
      All
        (λ (e : Event).
          w.matches e.line ≡ true → exists_in (covers (pos_part w.cooldown) e) captured ≡ true)
        events

  Covered-cons :
      (t : ℕ) (captured : List ℕ) (events : List Event)
      → Covered captured events
      → Covered (t ∷ captured) events
  Covered-cons t captured [] h = tt
  Covered-cons t captured (e ∷ events) h =
      (λ stalled. ground (arith, h.0 stalled), Covered-cons t captured events h.1)

  abbrev seed : Option ℕ → List ℕ
  seed none = []
  seed (some t) = t ∷ []

  -- what the captures cover, where they are known in another form
  Covered-same :
      (last : Option ℕ) (ts us : List ℕ) (events : List Event)
      → us ≡ ts
      → Covered (seed last ++ ts) events
      → Covered (seed last ++ us) events
  Covered-same last ts us events same h =
      subst (λ (vs : List ℕ). Covered (seed last ++ vs) events) (sym same) h

  Covered-seed :
      (last : Option ℕ) (t : ℕ) (ts : List ℕ) (events : List Event)
      → Covered (t ∷ ts) events
      → Covered (seed last ++ t ∷ ts) events
  Covered-seed none t ts events h = h
  Covered-seed (some before) t ts events h = Covered-cons before (t ∷ ts) events h

  covers-recent :
      (last : Option ℕ) (e : Event) (ts : List ℕ)
      → is_recent w.cooldown last e.seen ≡ true
      → IsLater 0 last e.seen
      → exists_in (covers (pos_part w.cooldown) e) (seed last ++ ts) ≡ true
  unfolding is_recent
  covers-recent none e ts recent before = ground (arith, recent)
  covers-recent (some t) e ts recent before = ground (
    arith,
    le→leb t e.seen (omega (arith, before)),
    lt→ltb e.seen (t + pos_part w.cooldown)
        (is_recent-true w.cooldown t e.seen recent (omega (arith, before))),
  )

  times-Covered :
      (now : ℕ) (events : List Event) (last : Option ℕ)
      → Ordered now events
      → IsLater 0 last now
      → Covered (seed last ++ times events last) events
  times-Covered now [] last h before = tt
  times-Covered now (e ∷ events) last h before =
      let seen = IsLater-trans last now e.seen before h.0 in
      let later =
        times-Covered e.taken events last h.2
          (IsLater-trans last now e.taken before (omega (arith, h.0, h.1))) in
      elim (Bool-cases (w.matches e.line)) [
        | inl stalled ↦ elim (Bool-cases (is_recent w.cooldown last e.seen)) [
          | inl recent ↦
              Covered-same last (times events last) (times (e ∷ events) last) (e ∷ events)
                (rw (stalled, recent) refl)
                (λ found. covers-recent last e (times events last) recent seen, later)
          | inr old ↦
              let next = times events (some e.taken) in
              Covered-same last (e.taken ∷ next) (times (e ∷ events) last) (e ∷ events)
                (rw (stalled, old) refl)
                (Covered-seed last e.taken next (e ∷ events) (
                  λ found. ground (arith, ==_refl e.taken),
                  times-Covered e.taken events (some e.taken) h.2 (omega arith),
                ))
        ]
        | inr quiet ↦
            Covered-same last (times events last) (times (e ∷ events) last) (e ∷ events)
              (rw quiet refl) (λ found. ground (arith, quiet, found), later)
      ]

module _ (sys : System) (w : Watcher) (first : Backend) (rest : List Backend) where
  scan-times :
      (events : List Event) (p : Progress)
      → (scan sys w first rest events p).captured ≡ p.captured ++ times w events p.last
  unfolding scan on_line
  scan-times [] p = sym (append-nil p.captured)
  scan-times (e ∷ events) p = ground (
    arith,
    scan-times events (on_line sys w first rest e p),
    append_assoc p.captured (e.taken ∷ []) (times w events (some e.taken)),
  )

  -- While the clock does not run backwards, a capture begins no sooner than the cooldown after the one
  -- before it.
  pub captured-Spaced :
      (events : List Event)
      → Ordered 0 events
      → Spaced (pos_part w.cooldown) none (scan sys w first rest events begin).captured
  captured-Spaced events h =
      subst (λ (ts : List ℕ). Spaced (pos_part w.cooldown) none ts) (sym (scan-times events begin))
        (times-Spaced w 0 events none h tt)

  -- While the clock does not run backwards, each line that matches is captured in the end, or a capture
  -- before it was not yet as old as the cooldown when it was read.
  pub captured-Covered :
      (events : List Event)
      → Ordered 0 events
      → Covered w (scan sys w first rest events begin).captured events
  captured-Covered events h =
      subst (λ (ts : List ℕ). Covered w ts events) (sym (scan-times events begin))
        (times-Covered w 0 events none h tt)
