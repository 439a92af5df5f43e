-- ===== src/Stats/Live/Tests.antt =====
-- The live table at concrete inputs.
use yarilo_loadtest.Base.{
  ◌*◌, ◌/◌, ◌≤◌, ◌≡◌, refl, true, false, List, [], ◌∷◌, ◌++◌, none, some, arith, Bytes, codes, pos,
  negsuc,
}
use yarilo_loadtest.Text.{less}
use yarilo_loadtest.Text.Number.{print_nat, print_int}
use native.Mathlib.Nat.{mul-le-mul_left}
use yarilo_loadtest.Stats.{Observation, rank, Floats, summary}
use yarilo_loadtest.Stats.Live.{
  heading, row, new_live, interval_of, count_in, insert, sort, watch, short, pad_left, cells,
  render,
}
use yarilo_loadtest.Stats.Live.Errors.{errors_shown, errors_shown-watch}
use yarilo_loadtest.Stats.Live.Columns.{column_total}
use yarilo_loadtest.Stats.Live.Counts.{column_total-watch}

abbrev whole : Floats
whole = record {
  scale = λ p n. n * rank p / 100;
  scale_none = λ n. omega arith;
  scale_all = λ n. omega arith;
  scale_mono =
      λ p q n h. (let k : n * rank p ≤ n * rank q = mul-le-mul_left n h in omega (arith, k));
}

abbrev one_of : Bytes → Observation
one_of name = record { name = name; duration = 5; error = none; run_done = false }

abbrev failing : Observation
failing = record { name = codes "STORE"; duration = 7; error = some (codes "no"); run_done = false }

-- a command that appears late, with a failure
abbrev batches : List (Bytes × List Observation)
batches =
    (codes "     1s", one_of (codes "FETCH") ∷ [])
    ∷ (codes "     2s", failing ∷ one_of (codes "FETCH") ∷ one_of (codes "FETCH") ∷ [])
    ∷ []

errors_shown-watch_example :
    errors_shown (watch whole batches (record { cmds = []; bound = true }) new_live).1.out
    ≡ pos
        (summary whole (watch whole batches (record { cmds = []; bound = true }) new_live).0).errors
errors_shown-watch_example = errors_shown-watch whole true batches

column_total-watch_example :
    column_total
      (codes "FETCH")
      (watch whole batches (record { cmds = []; bound = true }) new_live).1.out
    ≡ pos (
        count_in
          (summary whole
            (watch whole batches (record { cmds = []; bound = true }) new_live).0).commands
          (codes "FETCH"))
column_total-watch_example = column_total-watch whole (codes "FETCH") true batches

abbrev two_columns : List Bytes
two_columns = codes "FETCH" ∷ codes "STORE" ∷ []

ordered : sort (codes "STORE" ∷ codes "FETCH" ∷ []) ≡ two_columns
unfolding sort insert less
ordered = refl

drawn :
    (render (heading (codes "SEARCH TEXT" ∷ [])) ≡ codes "  time SEARCH   errors" ++ 10 ∷ [])
    × (render (row (codes "     2s") (pos 12 ∷ []) (pos 1))
        ≡ codes "     2s      12       1" ++ 10 ∷ [])
unfolding render cells pad_left short print_int print_nat
drawn = (refl, refl)

every_second : interval_of (negsuc 4) ≡ pos 1_000_000_000
unfolding interval_of
every_second = refl
