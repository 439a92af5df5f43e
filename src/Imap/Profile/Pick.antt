-- ===== src/Imap/Profile/Pick.antt =====
-- How often each command is chosen.
use yarilo_loadtest.Base.{
  ℕ, zero, suc, ◌+◌, ◌-◌, ◌%◌, ◌^◌, ◌<◌, ◌≡◌, refl, sym, ap, ap₂, ◌∙◌, Bool, true, false, List, [],
  ◌∷◌, arith, if◌then◌else◌, pos, signed, word,
}
use native.Mathlib.Nat.{add-mod_right, mod-eq_of_lt, mod-lt}
use yarilo_loadtest.Text.{bytes_eq}
use yarilo_loadtest.Imap.Profile.{Command, name, noop, Weighted, total, pick_loop, pick}

-- How many of the numbers start, …, start + k - 1 pass a test.
abbrev pub one_if : Bool → ℕ
one_if true = 1
one_if false = 0

abbrev pub occurrences : (ℕ → Bool) → ℕ → ℕ → ℕ
occurrences p zero start = 0
occurrences p (suc k) start = one_if (p start) + occurrences p k (start + 1)

occurrences-last :
    (p : ℕ → Bool) (k start : ℕ)
    → occurrences p (suc k) start ≡ occurrences p k start + one_if (p (start + k))
occurrences-last p zero start =
    let same : start ≡ start + 0 = omega arith in omega (arith, ap (λ (n : ℕ). one_if (p n)) same)
occurrences-last p (suc k) start =
    let same : start + 1 + k ≡ start + suc k = omega arith in
    omega (arith, occurrences-last p k (start + 1), ap (λ (n : ℕ). one_if (p n)) same)

-- A window of one period counts the same wherever it begins.
occurrences_period :
    (p : ℕ → Bool) (k : ℕ)
    → ((n : ℕ) → p (n + k) ≡ p n)
    → (start : ℕ) → occurrences p k start ≡ occurrences p k 0
occurrences_period p k h zero = refl
occurrences_period p k h (suc n) =
    let here : n + 1 ≡ suc n = omega arith in
    omega (
      arith,
      occurrences-last p k n,
      ap one_if (h n),
      ap (occurrences p k) here,
      occurrences_period p k h n,
    )

occurrences-add :
    (p : ℕ → Bool) (j k n start : ℕ)
    → n ≡ j + k
    → occurrences p n start ≡ occurrences p j start + occurrences p k (start + j)
occurrences-add p zero k n start e =
    let all_left : n ≡ k = omega arith in
    let here : start ≡ start + 0 = omega arith in omega (arith, ap₂ (occurrences p) all_left here)
occurrences-add p (suc j) k zero start e = absurd (omega arith)
occurrences-add p (suc j) k (suc n) start e =
    let next : start + 1 + j ≡ start + suc j = omega arith in
    omega (arith, occurrences-add p j k n (start + 1) (omega arith), ap (occurrences p k) next)

-- Tests that agree on the window count the same.
occurrences-agree :
    (p q : ℕ → Bool) (k start shift : ℕ)
    → ((i : ℕ) → i < k → p (start + i) ≡ q (shift + i))
    → occurrences p k start ≡ occurrences q k shift
occurrences-agree p q zero start shift h = refl
occurrences-agree p q (suc k) start shift h =
    ap₂ (λ (b : Bool) (n : ℕ). one_if b + n)
      (ap p (first start) ∙ h 0 (omega arith) ∙ ap q (sym (first shift)))
      (occurrences-agree p q k (start + 1) (shift + 1)
        (λ i l. ap p (next start i) ∙ h (suc i) (omega arith) ∙ ap q (sym (next shift i))))
  where
    first : (n : ℕ) → n ≡ n + 0
    first n = omega arith

    next : (n i : ℕ) → n + 1 + i ≡ n + suc i
    next n i = omega arith

occurrences_constant :
    (b : Bool) (k start : ℕ) → occurrences (λ n. b) k start ≡ (if b then k else 0)
occurrences_constant true zero start = refl
occurrences_constant false zero start = refl
occurrences_constant true (suc k) start = omega (arith, occurrences_constant true k (start + 1))
occurrences_constant false (suc k) start = omega (arith, occurrences_constant false k (start + 1))

-- The weight of a command in a list.
abbrev pub weight_of : Command → List Weighted → ℕ
weight_of c [] = 0
weight_of c (w ∷ ws) = (if bytes_eq (name w.cmd) (name c) then w.weight else 0) + weight_of c ws

abbrev pub is_choice : Command → Command → Bool
is_choice c d = bytes_eq (name d) (name c)

pick_loop-first :
    (final : Command) (w : Weighted) (ws : List Weighted) (i : ℕ)
    → i < w.weight
    → pick_loop final (w ∷ ws) i ≡ w.cmd
unfolding pick_loop
pick_loop-first final w ws i h = ground arith

pick_loop-rest :
    (final : Command) (w : Weighted) (ws : List Weighted) (i : ℕ)
    → pick_loop final (w ∷ ws) (w.weight + i) ≡ pick_loop w.cmd ws i
unfolding pick_loop
pick_loop-rest final w ws i =
    let slot : w.weight + i - w.weight ≡ i = omega arith in
    ground (arith, ap (pick_loop w.cmd ws) slot)

-- among the slots of one round each command has as many as it weighs
pick_loop_slots :
    (c final : Command) (ws : List Weighted)
    → occurrences (λ n. is_choice c (pick_loop final ws n)) (total ws) 0 ≡ weight_of c ws
unfolding total
pick_loop_slots c final [] = refl
pick_loop_slots c final (w ∷ ws) =
    occurrences-add p w.weight (total ws) (w.weight + total ws) 0 refl
    ∙ ap₂ ◌+◌
        (occurrences-agree p (λ n. is_choice c w.cmd) w.weight 0 0
            (λ i l. ap (is_choice c) (start_at i l))
          ∙ occurrences_constant (is_choice c w.cmd) w.weight 0)
        (occurrences-agree p (λ n. is_choice c (pick_loop w.cmd ws n)) (total ws) (0 + w.weight) 0
            (λ i l. ap (is_choice c) (go_on i))
          ∙ pick_loop_slots c w.cmd ws)
  where
    p : ℕ → Bool
    p n = is_choice c (pick_loop final (w ∷ ws) n)

    start_at : (i : ℕ) → i < w.weight → pick_loop final (w ∷ ws) (0 + i) ≡ w.cmd
    start_at i l = pick_loop-first final w ws (0 + i) (omega arith)

    go_on : (i : ℕ) → pick_loop final (w ∷ ws) (0 + w.weight + i) ≡ pick_loop w.cmd ws (0 + i)
    go_on i =
        let left : 0 + w.weight + i ≡ w.weight + (0 + i) = omega arith in
        ap (pick_loop final (w ∷ ws)) left ∙ pick_loop-rest final w ws (0 + i)

pick-pick_loop :
    (ws : List Weighted) (n : ℕ)
    → 0 < total ws
    → total ws < 2 ^ 63
    → pick ws n ≡ pick_loop noop ws (n % total ws)
unfolding pick
pick-pick_loop ws n h k =
    let small : total ws % word ≡ total ws = omega arith in
    let inside : n % total ws < total ws = mod-lt n h in
    let exact : signed (n % total ws) ≡ pos (n % total ws) = ground arith in
    rw small (ground (arith, exact))

-- Among any consecutive choices as many as the weights add up to, each command is chosen exactly as
-- often as it weighs, wherever they begin; the weights add up to a positive `int`.
pub pick_proportions :
    (ws : List Weighted) (c : Command) (start : ℕ)
    → 0 < total ws
    → total ws < 2 ^ 63
    → occurrences (λ n. is_choice c (pick ws n)) (total ws) start ≡ weight_of c ws
pick_proportions ws c start h k =
    occurrences_period p sum
      (λ n. ap (is_choice c) (
        pick-pick_loop ws (n + sum) h k
        ∙ ap (pick_loop noop ws) (add-mod_right n sum)
        ∙ sym (pick-pick_loop ws n h k)))
      start
    ∙ occurrences-agree p (λ n. is_choice c (pick_loop noop ws n)) sum 0 0
        (λ i l.
          ap (is_choice c)
            (pick-pick_loop ws (0 + i) h k ∙ ap (pick_loop noop ws) (mod-eq_of_lt (omega arith))))
    ∙ pick_loop_slots c noop ws
  where
    sum : ℕ
    sum = total ws

    p : ℕ → Bool
    p n = is_choice c (pick ws n)
