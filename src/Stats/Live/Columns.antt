-- ===== src/Stats/Live/Columns.antt =====
-- The columns of the live table (internal/stats/live.go) and the loops that keep them.
use yarilo_loadtest.Base.{
  ℕ, ◌≡◌, refl, sym, ap, ◌∙◌, Bool, true, false, ◌||◌, List, [], ◌∷◌, ◌++◌, if◌then◌else◌, arith,
  Bytes, Bool-cases, inl, inr, ℤ, pos, sub_ℕ, ◌+ℤ◌,
}
use yarilo_loadtest.Text.{bytes_eq}
use yarilo_loadtest.Text.Laws.{bytes_eq_refl, bytes_eq_iff}
use yarilo_loadtest.Stats.{Commands, Floats, CmdStat}
use yarilo_loadtest.Stats.Live.{
  Printed, heading, row, put, count_in, names_loop, insert, sort, deltas_loop,
}
use yarilo_loadtest.Stats.Live.Names.{has, shown}
use yarilo_loadtest.Text.Laws.{bytes_eq_other, bytes_eq_sym}

-- A text is in a list.
abbrev pub listed : Bytes → List Bytes → Bool
listed k [] = false
listed k (s ∷ ss) = bytes_eq s k || listed k ss

-- what a row shows under a name
abbrev pub cell : Bytes → (names : List Bytes) → List ℤ → ℤ
cell name [] deltas = pos 0
cell name (k ∷ names) [] = pos 0
cell name (k ∷ names) (d ∷ deltas) =
    let rest = cell name names deltas in if bytes_eq k name then d else rest

-- What the table shows under a name, summed, as it is read: each row under the header last printed.
abbrev pub read_from : Bytes → ℤ × List Bytes → List Printed → ℤ × List Bytes
read_from name (n, names) [] = (n, names)
read_from name (n, names) (heading names' ∷ out) = read_from name (n, names') out
read_from name (n, names) (row clock deltas errors ∷ out) =
    read_from name (n +ℤ cell name names deltas, names) out

abbrev pub column_total : Bytes → List Printed → ℤ
column_total name out = (read_from name (pos 0, []) out).0

read_from-append :
    (name : Bytes) (n : ℤ) (names : List Bytes) (xs ys : List Printed)
    → read_from name (n, names) (xs ++ ys) ≡ read_from name (read_from name (n, names) xs) ys
read_from-append name n names [] ys = refl
read_from-append name n names (heading names' ∷ xs) ys = read_from-append name n names' xs ys
read_from-append name n names (row clock deltas errors ∷ xs) ys =
    read_from-append name (n +ℤ cell name names deltas) names xs ys

listed-insert :
    (k s : Bytes) (ts : List Bytes) → listed k (insert s ts) ≡ bytes_eq s k || listed k ts
unfolding insert
listed-insert k s [] = refl
listed-insert k s (t ∷ ts) = ground (arith, listed-insert k s ts)

listed-sort : (k : Bytes) (ss : List Bytes) → listed k (sort ss) ≡ listed k ss
unfolding sort
listed-sort k [] = refl
listed-sort k (s ∷ ss) =
    listed-insert k s (sort ss) ∙ ap (λ b. bytes_eq s k || b) (listed-sort k ss)

pub listed-choice :
    (k : Bytes) (sorting : Bool) (ss : List Bytes)
    → listed k (if sorting then sort ss else ss) ≡ listed k ss
listed-choice k true ss = listed-sort k ss
listed-choice k false ss = refl

listed-append :
    (k s : Bytes) (ss : List Bytes) → listed k (ss ++ s ∷ []) ≡ bytes_eq s k || listed k ss
listed-append k s [] = refl
listed-append k s (t ∷ ss) = ground (arith, listed-append k s ss)

pub deltas_loop-cell :
    (name : Bytes) (columns : List Bytes) (stats : List (Bytes × CmdStat)) (p : Bytes → ℕ)
    → cell name columns (deltas_loop columns stats p).0
      ≡ (if listed name columns then sub_ℕ (count_in stats name) (p name) else pos 0)
unfolding deltas_loop
deltas_loop-cell name [] stats p = refl
deltas_loop-cell name (k ∷ columns) stats p = elim (Bool-cases (bytes_eq k name)) [
  | inl same ↦ ground (
    arith,
    same,
    ap p ((bytes_eq_iff k name).0 same),
    ap (count_in stats) ((bytes_eq_iff k name).0 same),
  )
  | inr other ↦ ground (
    arith,
    other,
    bytes_eq_other k name other,
    deltas_loop-cell name columns stats (put k (count_in stats k) p),
  )
]

pub deltas_loop-prev :
    (name : Bytes) (columns : List Bytes) (stats : List (Bytes × CmdStat)) (p : Bytes → ℕ)
    → (deltas_loop columns stats p).1 name
      ≡ (if listed name columns then count_in stats name else p name)
unfolding deltas_loop
deltas_loop-prev name [] stats p = refl
deltas_loop-prev name (k ∷ columns) stats p = elim (Bool-cases (bytes_eq k name)) [
  | inl same ↦ ground (
    arith,
    same,
    bytes_eq_refl k,
    ap (bytes_eq name) ((bytes_eq_iff k name).0 same),
    bytes_eq_refl name,
    ap (count_in stats) ((bytes_eq_iff k name).0 same),
    deltas_loop-prev name columns stats (put k (count_in stats k) p),
  )
  | inr other ↦ ground (
    arith,
    other,
    bytes_eq_other k name other,
    deltas_loop-prev name columns stats (put k (count_in stats k) p),
  )
]

-- what stands in the three results of the loop over the names
pub record IsNamed (cmds : Commands) (fresh : Bool) (columns : List Bytes) (known : Bytes → Bool)
    (after : Bool × List Bytes × (Bytes → Bool)) : Type 0 where
  pub all_known : (k : Bytes) → after.2 k ≡ (has k cmds || known k)
  pub all_listed :
      ((k : Bytes) → known k ≡ listed k columns) → (k : Bytes) → after.2 k ≡ listed k after.1
  pub unchanged : after.0 ≡ false → (fresh ≡ false) × (after.1 ≡ columns)

module _ (f : Floats) where
  pub names_loop-IsNamed :
      (cmds : Commands) (fresh : Bool) (columns : List Bytes) (known : Bytes → Bool)
      → IsNamed cmds fresh columns known (names_loop (shown f cmds) fresh columns known)
  unfolding names_loop
  names_loop-IsNamed [] fresh columns known = record {
    all_known = λ k. refl;
    all_listed = λ h. h;
    unchanged = λ h. (h, refl);
  }
  names_loop-IsNamed ((j, c) ∷ cmds) fresh columns known = elim (Bool-cases (known j)) [
    | inl old ↦
        let rest = names_loop-IsNamed cmds fresh columns known in
        rw (names_loop, old)
          (record {
            all_known = λ k. elim (Bool-cases (bytes_eq j k)) [
              | inl same ↦
                  ground (arith, rest.all_known k, same, old, ap known ((bytes_eq_iff j k).0 same))
              | inr other ↦ ground (arith, rest.all_known k, other)
            ];
            all_listed = rest.all_listed;
            unchanged = rest.unchanged;
          })
    | inr new ↦
        let rest = names_loop-IsNamed cmds true (columns ++ j ∷ []) (put j true known) in
        rw (names_loop, new)
          (record {
            all_known = λ k. ground (arith, rest.all_known k, bytes_eq_sym j k);
            all_listed = λ h.
                rest.all_listed
                  (λ k. ground (arith, h k, listed-append k j columns, bytes_eq_sym j k));
            unchanged = λ h.
                let never = (rest.unchanged h).0 in (ground (arith, never), ground (arith, never));
          })
  ]

  pub count_in-absent :
      (name : Bytes) (cmds : Commands) → has name cmds ≡ false → count_in (shown f cmds) name ≡ 0
  unfolding count_in
  count_in-absent name [] h = refl
  count_in-absent name ((k, c) ∷ cmds) h = ground (arith, h, count_in-absent name cmds)

read_from-tick :
    (name : Bytes) (n : ℤ) (names shown_names : List Bytes) (fresh again : Bool) (clock : Bytes)
    (deltas : List ℤ) (errors : ℤ)
    → (fresh ≡ false → shown_names ≡ names)
    → read_from name
        (n, names)
        ((if fresh then heading shown_names ∷ [] else [])
          ++ row clock deltas errors ∷ (if again then heading shown_names ∷ [] else []))
      ≡ (n +ℤ cell name shown_names deltas, shown_names)
read_from-tick name n names shown_names true true clock deltas errors h = refl
read_from-tick name n names shown_names true false clock deltas errors h = refl
read_from-tick name n names shown_names false true clock deltas errors h =
    ap (λ (ss : List Bytes). (n +ℤ cell name ss deltas, shown_names)) (sym (h refl))
read_from-tick name n names shown_names false false clock deltas errors h =
    ap (λ (ss : List Bytes). (n +ℤ cell name ss deltas, ss)) (sym (h refl))

-- the same behind what was printed before
pub read_from-more :
    (name : Bytes) (n : ℤ) (names shown_names : List Bytes) (out : List Printed)
    (fresh again : Bool) (clock : Bytes) (deltas : List ℤ) (errors : ℤ)
    → read_from name (pos 0, []) out ≡ (n, names)
    → (fresh ≡ false → shown_names ≡ names)
    → read_from name
        (pos 0, [])
        (out
          ++ ((if fresh then heading shown_names ∷ [] else [])
              ++ row clock deltas errors ∷ (if again then heading shown_names ∷ [] else [])))
      ≡ (n +ℤ cell name shown_names deltas, shown_names)
read_from-more name n names shown_names out fresh again clock deltas errors so_far h =
    let printed =
      (if fresh then heading shown_names ∷ [] else [])
      ++ row clock deltas errors ∷ (if again then heading shown_names ∷ [] else []) in
    read_from-append name (pos 0) [] out printed
    ∙ ap (λ acc. read_from name acc printed) so_far
    ∙ read_from-tick name n names shown_names fresh again clock deltas errors h

pub balance :
    (in_table : Bool) (count before : ℕ)
    → pos before +ℤ (if in_table then sub_ℕ count before else pos 0)
      ≡ pos (if in_table then count else before)
unfolding ◌+ℤ◌
balance in_table count before = ground arith
