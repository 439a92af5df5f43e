-- ===== src/Lmtp/Rotation.antt =====
-- Which recipients the deliveries of a run reach.
use yarilo_loadtest.Base.{
  ℕ, zero, suc, ◌+◌, ◌-◌, ◌*◌, ◌%◌, ◌^◌, ◌≤◌, ◌<◌, ◌≡◌, refl, ap, ap₂, ◌∙◌, sym, List, [], ◌∷◌,
  ◌++◌, arith, Bytes, length, get_elem?, get_or, leb, some, if◌then◌else◌, Bool-cases, inl, inr,
  pos, word, signed,
}
use native.Mathlib.Nat.{mod-add-mod, mod-eq_of_lt, add-mod_right}
use yarilo_loadtest.Lmtp.{Config, recipient_index, take_loop, fan_out, next_recipients}

-- The recipients met on a walk round the set, from place `start` on.
abbrev pub walk : List Bytes → ℕ → ℕ → List Bytes
walk rs zero start = []
walk rs (suc k) start = get_or rs (start % length rs) [] ∷ walk rs k (start + 1)

take_loop-walk :
    (rs : List Bytes) (k i start place : ℕ)
    → place ≡ start + i
    → place + k ≤ 2 ^ 63
    → take_loop k i start rs ≡ walk rs k place
unfolding take_loop
take_loop-walk rs zero i start place e h = refl
take_loop-walk rs (suc k) i start place e h =
    ap₂ (λ x xs. get_or rs (recipient_index x (length rs)) [] ∷ xs) here
      (take_loop-walk rs k (i + 1) start (place + 1) (omega arith) (omega arith))
    ∙ unfold recipient_index in refl
  where
    here : signed ((start + i) % word) ≡ pos place
    here = ground arith

-- One delivery takes the next recipients of the walk and moves the counter behind them, as long as
-- the counter stays below 2 ^ 63.
pub next_recipients-walk :
    (c : Config) (seq : ℕ)
    → seq + fan_out c < 2 ^ 63
    → next_recipients c seq ≡ (walk c.recipients (fan_out c) seq, seq + fan_out c)
unfolding next_recipients
next_recipients-walk c seq h =
    let n = fan_out c in
    let seq' = (seq + n) % word in
    ap₂ (λ (xs : List Bytes) (q : ℕ). (xs, q))
      (take_loop-walk c.recipients n 0 ((seq' + word - n) % word) seq (omega arith) (omega arith))
      (omega arith)

walk-append :
    (rs : List Bytes) (j k n start mid : ℕ)
    → n ≡ j + k
    → mid ≡ start + j
    → walk rs n start ≡ walk rs j start ++ walk rs k mid
walk-append rs zero k n start mid e f = ap₂ (walk rs) (omega arith) (omega arith)
walk-append rs (suc j) k zero start mid e f = absurd (omega arith)
walk-append rs (suc j) k (suc n) start mid e f =
    ap (◌∷◌ (get_or rs (start % length rs) []))
      (walk-append rs j k n (start + 1) mid (omega arith) (omega arith))

-- The recipients of `m` deliveries, one behind the other.
pub deliveries : ℕ → Config → ℕ → List Bytes
deliveries zero c seq = []
deliveries (suc m) c seq = let (rcpts, seq') = next_recipients c seq in rcpts ++ deliveries m c seq'

-- As long as the counter stays below 2 ^ 63, a run of m deliveries visits the recipients in turn,
-- without a gap or a repetition between one delivery and the next.
pub deliveries-walk :
    (m : ℕ) (c : Config) (seq : ℕ)
    → seq + m * fan_out c < 2 ^ 63
    → deliveries m c seq ≡ walk c.recipients (m * fan_out c) seq
unfolding deliveries
deliveries-walk zero c seq h =
    let none_left : ◌≡◌ {A = ℕ} 0 (0 * fan_out c) = omega arith in
    ap (λ (n : ℕ). walk c.recipients n seq) none_left
deliveries-walk (suc m) c seq h =
    let n = fan_out c in
    rw (next_recipients-walk c seq (grind arith)) (
      ap (◌++◌ (walk c.recipients n seq)) (deliveries-walk m c (seq + n) (grind arith))
      ∙ sym (
          walk-append c.recipients n (m * n) (suc m * n) seq (seq + n) (grind arith) (omega arith)))

get_elem?-walk :
    (rs : List Bytes) (k start i : ℕ)
    → i < k
    → get_elem? (walk rs k start) i ≡ some (get_or rs ((start + i) % length rs) [])
get_elem?-walk rs zero start i h = elim h [ ]
get_elem?-walk rs (suc k) start zero h =
    ap (λ (n : ℕ). some (get_or rs (n % length rs) [])) (omega arith)
get_elem?-walk rs (suc k) start (suc i) h =
    get_elem?-walk rs k (start + 1) i (omega arith)
    ∙ ap (λ (n : ℕ). some (get_or rs (n % length rs) [])) (omega arith)

-- The place on the walk where a recipient is met.
abbrev meeting : ℕ → ℕ → ℕ → ℕ
meeting len start j = if leb (start % len) j then j - start % len else j + len - start % len

meeting-lt : (len start j : ℕ) → j < len → meeting len start j < len
meeting-lt len start j h = grind arith

meeting-mod : (len start j : ℕ) → j < len → (start + meeting len start j) % len ≡ j
meeting-mod len start j h =
    sym (mod-add-mod start len (meeting len start j)) ∙ elim (Bool-cases (leb (start % len) j)) [
      | inl ahead ↦ rw ahead (grind (arith, mod-eq_of_lt {n = j} {m = len} h))
      | inr passed ↦ rw passed (
          let past : start % len + (j + len - start % len) ≡ j + len = grind arith in
          ap (λ (n : ℕ). n % len) past ∙ add-mod_right j len ∙ mod-eq_of_lt h)
    ]

-- As long as the counter stays below 2 ^ 63, any run of deliveries that takes as many recipients as
-- there are, or more, reaches every one of them.
pub deliveries-covers :
    (m : ℕ) (c : Config) (seq j : ℕ)
    → seq + m * fan_out c < 2 ^ 63
    → length c.recipients ≤ m * fan_out c
    → j < length c.recipients
    → (i : ℕ) × (get_elem? (deliveries m c seq) i ≡ some (get_or c.recipients j []))
deliveries-covers m c seq j h enough inside =
    let len = length c.recipients in
    let i = meeting len seq j in
    (
      i,
      ap (λ rs. get_elem? rs i) (deliveries-walk m c seq h)
          ∙ get_elem?-walk c.recipients (m * fan_out c) seq i
              (omega (arith, meeting-lt len seq j inside))
          ∙ ap (λ (n : ℕ). some (get_or c.recipients n [])) (meeting-mod len seq j inside),
    )
