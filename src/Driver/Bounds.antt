-- ===== src/Driver/Bounds.antt =====
-- The iteration bound of a run (internal/driver/driver.go), under every interleaving of its workers.
use yarilo_loadtest.Base.{
  ℕ, zero, suc, ◌+◌, ◌≤◌, ◌<◌, ◌≡◌, refl, ap, ◌∙◌, true, false, List, [], ◌∷◌, Option, none, some,
  arith, length, All, ltb, pos_part, is_nonpos, if◌then◌else◌,
}
use yarilo_loadtest.Driver.{
  Options, Phase, ramping, ready, locking, working, failing, finished, Shared, Run, Event, timer,
  turn, expire, is_spent, move, ramped, turn_at, ramped_at, step, steps, workers, stagger, repeat,
  start, is_finished, all_finished,
}

-- The whole state under the mutex, where each call was counted and none was made above the bound.
abbrev IsBounded : {E : Type 0} → Options → Shared E → Type 0
IsBounded opts s = (length s.calls ≡ s.iter_count) × (s.iter_count ≤ pos_part opts.iterations)

-- A worker that is through with a run that goes on has seen the bound reached.
abbrev IsSpent : {E : Type 0} → Options → Shared E → Phase E → Type 0
IsSpent opts s p = is_finished p ≡ true → s.ended ≡ false → pos_part opts.iterations ≤ s.iter_count

-- What a step does to the state that the workers share: it never takes back a count or the end.
abbrev IsLater : {E : Type 0} → Shared E → Shared E → Type 0
IsLater s t = (s.iter_count ≤ t.iter_count) × (t.ended ≡ false → s.ended ≡ false)

module _ {E : Type 0} (opts : Options) (bounded : is_nonpos opts.iterations ≡ false) where
  move-IsBounded :
      (id : ℕ) (result : Option E) (p : Phase E) (s : Shared E)
      → IsBounded opts s
      → IsBounded opts (move opts id result p s).1
  unfolding move is_spent
  move-IsBounded id result ramping s h = h
  move-IsBounded id result ready s h = h
  move-IsBounded id result locking s h = ground (arith, bounded)
  move-IsBounded id none working s h = h
  move-IsBounded id (some e) working s h = h
  move-IsBounded id result (failing e) s h = ground (arith)
  move-IsBounded id result finished s h = h

  move-IsLater :
      (id : ℕ) (result : Option E) (p : Phase E) (s : Shared E)
      → IsLater s (move opts id result p s).1
  unfolding move is_spent
  move-IsLater id result ramping s = ground (arith)
  move-IsLater id result ready s = ground (arith)
  move-IsLater id result locking s = ground (arith)
  move-IsLater id none working s = ground (arith)
  move-IsLater id (some e) working s = ground (arith)
  move-IsLater id result (failing e) s = ground (arith)
  move-IsLater id result finished s = ground (arith)

  move-IsSpent :
      (id : ℕ) (result : Option E) (p : Phase E) (s : Shared E)
      → IsSpent opts s p
      → IsSpent opts (move opts id result p s).1 (move opts id result p s).0
  unfolding move is_spent is_finished
  move-IsSpent id result ramping s h = ground (arith)
  move-IsSpent id result ready s h = ground (arith)
  move-IsSpent id result locking s h = ground (arith, bounded)
  move-IsSpent id none working s h = ground (arith)
  move-IsSpent id (some e) working s h = ground (arith)
  move-IsSpent id result (failing e) s h = ground (arith)
  move-IsSpent id result finished s h = h

  IsSpent-later : (s t : Shared E) (p : Phase E) → IsLater s t → IsSpent opts s p → IsSpent opts t p
  IsSpent-later s t p l h f o = let b = h f (l.1 o) in omega (arith, l.0, b)

  later-IsSpent :
      (s t : Shared E) (ps : List (Phase E))
      → IsLater s t
      → All (IsSpent opts s) ps
      → All (IsSpent opts t) ps
  later-IsSpent s t [] l h = tt
  later-IsSpent s t (p ∷ ps) l h = (IsSpent-later s t p l h.0, later-IsSpent s t ps l h.1)

  turn_at-IsLater :
      (id i : ℕ) (result : Option E) (ps : List (Phase E)) (s : Shared E)
      → IsLater s (turn_at opts id i result ps s).1
  unfolding turn_at
  turn_at-IsLater id i result [] s = (omega arith, λ h. h)
  turn_at-IsLater id zero result (p ∷ ps) s = move-IsLater id result p s
  turn_at-IsLater id (suc i) result (p ∷ ps) s = turn_at-IsLater (id + 1) i result ps s

  turn_at-IsBounded :
      (id i : ℕ) (result : Option E) (ps : List (Phase E)) (s : Shared E)
      → IsBounded opts s
      → IsBounded opts (turn_at opts id i result ps s).1
  unfolding turn_at
  turn_at-IsBounded id i result [] s h = h
  turn_at-IsBounded id zero result (p ∷ ps) s h = move-IsBounded id result p s h
  turn_at-IsBounded id (suc i) result (p ∷ ps) s h = turn_at-IsBounded (id + 1) i result ps s h

  turn_at-IsSpent :
      (id i : ℕ) (result : Option E) (ps : List (Phase E)) (s : Shared E)
      → All (IsSpent opts s) ps
      → let (qs, t) = turn_at opts id i result ps s in All (IsSpent opts t) qs
  unfolding turn_at
  turn_at-IsSpent id i result [] s h = tt
  turn_at-IsSpent id zero result (p ∷ ps) s h = (
    move-IsSpent id result p s h.0,
    later-IsSpent s (move opts id result p s).1 ps (move-IsLater id result p s) h.1,
  )
  turn_at-IsSpent id (suc i) result (p ∷ ps) s h = (
    IsSpent-later s (turn_at opts (id + 1) i result ps s).1 p
        (turn_at-IsLater (id + 1) i result ps s) h.0,
    turn_at-IsSpent (id + 1) i result ps s h.1,
  )

  ramped_at-IsSpent :
      (i : ℕ) (ps : List (Phase E)) (s : Shared E)
      → All (IsSpent opts s) ps
      → All (IsSpent opts s) (ramped_at i ps)
  unfolding ramped_at ramped is_finished
  ramped_at-IsSpent i [] s h = tt
  ramped_at-IsSpent zero (ramping ∷ ps) s h = (λ f. ground (arith, f), h.1)
  ramped_at-IsSpent zero (ready ∷ ps) s h = h
  ramped_at-IsSpent zero (locking ∷ ps) s h = h
  ramped_at-IsSpent zero (working ∷ ps) s h = h
  ramped_at-IsSpent zero (failing e ∷ ps) s h = h
  ramped_at-IsSpent zero (finished ∷ ps) s h = h
  ramped_at-IsSpent (suc i) (p ∷ ps) s h = (h.0, ramped_at-IsSpent i ps s h.1)

  abbrev Good : Run E → Type 0
  Good r = IsBounded opts r.shared × All (IsSpent opts r.shared) r.phases

  step-Good : (e : Event E) (r : Run E) → Good r → Good (step opts e r)
  unfolding step
  step-Good (timer i) r h = (h.0, ramped_at-IsSpent i r.phases r.shared h.1)
  step-Good (turn i result) r h = (
    turn_at-IsBounded 0 i result r.phases r.shared h.0,
    turn_at-IsSpent 0 i result r.phases r.shared h.1,
  )
  step-Good expire r h =
      (h.0, later-IsSpent r.shared (record r.shared { ended = true }) r.phases (ground arith) h.1)

  steps-Good : (es : List (Event E)) (r : Run E) → Good r → Good (steps opts es r)
  unfolding steps
  steps-Good [] r h = h
  steps-Good (e ∷ es) r h = steps-Good es (step opts e r) (step-Good e r h)

  repeat-IsSpent :
      (n : ℕ) (p : Phase E) (s : Shared E)
      → is_finished p ≡ false
      → All (IsSpent opts s) (repeat n p)
  unfolding repeat
  repeat-IsSpent zero p s h = tt
  repeat-IsSpent (suc n) p s h = (λ f. ground (arith, f, h), repeat-IsSpent n p s h)

  turn_at-length :
      (id i : ℕ) (result : Option E) (ps : List (Phase E)) (s : Shared E)
      → length (turn_at opts id i result ps s).0 ≡ length ps
  unfolding turn_at
  turn_at-length id i result [] s = refl
  turn_at-length id zero result (p ∷ ps) s = refl
  turn_at-length id (suc i) result (p ∷ ps) s = ap suc (turn_at-length (id + 1) i result ps s)

  ramped_at-length : (i : ℕ) (ps : List (Phase E)) → length (ramped_at i ps) ≡ length ps
  unfolding ramped_at
  ramped_at-length i [] = refl
  ramped_at-length zero (p ∷ ps) = refl
  ramped_at-length (suc i) (p ∷ ps) = ap suc (ramped_at-length i ps)

  steps-length :
      (es : List (Event E)) (r : Run E) → length (steps opts es r).phases ≡ length r.phases
  unfolding steps step
  steps-length [] r = refl
  steps-length (timer i ∷ es) r =
      steps-length es (step opts (timer i) r) ∙ ramped_at-length i r.phases
  steps-length (turn i result ∷ es) r =
      steps-length es (step opts (turn i result) r) ∙ turn_at-length 0 i result r.phases r.shared
  steps-length (expire ∷ es) r = steps-length es (step opts expire r)

  repeat-length : (n : ℕ) (p : Phase E) → length (repeat n p) ≡ n
  unfolding repeat
  repeat-length zero p = refl
  repeat-length (suc n) p = ap suc (repeat-length n p)

  some_finished :
      (ps : List (Phase E)) (s : Shared E)
      → All (IsSpent opts s) ps
      → all_finished ps ≡ true
      → 0 < length ps
      → s.ended ≡ false
      → pos_part opts.iterations ≤ s.iter_count
  unfolding all_finished
  some_finished [] s h f l o = omega (arith, l)
  some_finished (p ∷ ps) s h f l o = h.0 (ground (arith, f)) o

module _ (E : Type 0) (opts : Options) (bounded : is_nonpos opts.iterations ≡ false) where
  start-Good : Good opts bounded (start {E = E} opts)
  unfolding start is_finished
  start-Good = (
    omega arith,
    repeat-IsSpent opts bounded (workers opts) _ (start {E = E} opts).shared (ground arith),
  )

  start-length : 0 < length (start {E = E} opts).phases
  unfolding start workers
  start-length =
      let p : Phase E = if ltb 0 (stagger opts) then ramping else ready in
      ground (arith, repeat-length opts bounded (workers opts) p)

  -- However its workers are interleaved and whatever `fn` returns, a run with an iteration bound calls
  -- `fn` no more often than that in all, and counts every call.
  pub calls_bound :
      (es : List (Event E))
      → let s = (steps opts es (start opts)).shared in
        (length s.calls ≡ s.iter_count) × (length s.calls ≤ pos_part opts.iterations)
  calls_bound es =
      let g = steps-Good opts bounded es (start opts) start-Good in
      (g.0.0, omega (arith, g.0.0, g.0.1))

  -- A run with an iteration bound whose workers have all come to their end, and that was ended neither
  -- by its deadline, nor from outside, nor by an error, has called `fn` exactly that often, whatever
  -- the interleaving and however many of the calls failed.
  pub calls_exact :
      (es : List (Event E))
      → all_finished (steps opts es (start opts)).phases ≡ true
      → (steps opts es (start opts)).shared.ended ≡ false
      → length (steps opts es (start opts)).shared.calls ≡ pos_part opts.iterations
  calls_exact es f o =
      let r = steps opts es (start opts) in
      let g = steps-Good opts bounded es (start opts) start-Good in
      let l : 0 < length r.phases =
        omega (arith, steps-length opts bounded es (start opts), start-length) in
      let k = some_finished opts bounded r.phases r.shared g.1 f l o in
      omega (arith, g.0.0, g.0.1, k)
