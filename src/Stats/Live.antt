-- ===== src/Stats/Live.antt =====
-- The live table (internal/stats/live.go). Its maps are functions with a default, as in Go. The order in
-- which Go runs through a map is that of the list here; since names differ, it decides nothing. A line
-- is kept as what it shows, and `render` makes its text of it. The text of the clock is given.
pub mod Names
pub mod Summed
pub mod Errors
pub mod Columns
pub mod Counts
mod Tests
use yarilo_loadtest.Base.{
  ℕ, zero, suc, ◌+◌, ◌-◌, ◌%◌, Bool, true, false, ◌||◌, List, [], ◌∷◌, ◌++◌, map, Bytes, codes,
  length, take, ltb, leb, ◌==◌, if◌then◌else◌, ℤ, pos, sub_ℕ, ◌+ℤ◌, is_nonpos,
}
use yarilo_loadtest.Text.{bytes_eq, less}
use yarilo_loadtest.Text.Number.{print_int}
use yarilo_loadtest.Stats.{Collector, Observation, observe_all, Floats, CmdStat, summary}

-- what is printed: a header, or a row
pub data Printed : Type 0 where
  heading : (names : List Bytes) → Printed
  row : (clock : Bytes) (deltas : List ℤ) (errors : ℤ) → Printed

-- `Live`, with what it has printed; `none_known` stands for an empty `known`
pub record Live : Type 0 where
  pub prev : Bytes → ℕ
  pub prev_errors : Bytes → ℕ
  pub columns : List Bytes
  pub known : Bytes → Bool
  pub rows : ℕ
  pub out : List Printed

-- `NewLive`, its interval apart
abbrev pub new_live : Live
new_live = record {
  prev = λ k. 0;
  prev_errors = λ k. 0;
  columns = [];
  known = λ k. false;
  rows = 0;
  out = [];
}

-- the interval that `NewLive` takes
pub interval_of : ℤ → ℤ
interval_of interval = if is_nonpos interval then pos 1_000_000_000 else interval

-- an assignment to an entry of a map
abbrev pub put {ℓ} : {A : Type ℓ} → Bytes → A → (Bytes → A) → Bytes → A
put name a f k = if bytes_eq k name then a else f k

-- `s.Commands[name].Count`
pub count_in : List (Bytes × CmdStat) → Bytes → ℕ
count_in [] name = 0
count_in ((k, s) ∷ stats) name =
    let rest = count_in stats name in if bytes_eq k name then s.count else rest

-- the loop of `tick` over the errors
pub errors_loop : List (Bytes × CmdStat) → ℤ → (Bytes → ℕ) → ℤ × (Bytes → ℕ)
errors_loop [] errs prev = (errs, prev)
errors_loop ((name, cur) ∷ stats) errs prev =
    errors_loop stats (errs +ℤ sub_ℕ cur.errors (prev name)) (put name cur.errors prev)

-- the loop of `tick` over the names: what is new, and then the columns and what is known
pub names_loop :
    List (Bytes × CmdStat) → Bool → List Bytes → (Bytes → Bool) → Bool × List Bytes × (Bytes → Bool)
names_loop [] fresh columns known = (fresh, columns, known)
names_loop ((name, cur) ∷ stats) fresh columns known =
    if known name
    then names_loop stats fresh columns known
    else names_loop stats true (columns ++ name ∷ []) (put name true known)

-- `sort.Strings`
unfoldable pub insert : Bytes → List Bytes → List Bytes
insert s [] = s ∷ []
insert s (t ∷ ts) = let rest = insert s ts in if less t s then t ∷ rest else s ∷ t ∷ ts

unfoldable pub sort : List Bytes → List Bytes
sort [] = []
sort (s ∷ ss) = insert s (sort ss)

-- the loop of `tick` over the columns
pub deltas_loop : List Bytes → List (Bytes × CmdStat) → (Bytes → ℕ) → List ℤ × (Bytes → ℕ)
deltas_loop [] stats prev = ([], prev)
deltas_loop (name ∷ columns) stats prev =
    let count = count_in stats name in
    let (deltas, after) = deltas_loop columns stats (put name count prev) in
    (sub_ℕ count (prev name) ∷ deltas, after)

-- `tick` where there is something to show
pub print_row : (clock : Bytes) → List (Bytes × CmdStat) → Live → Live
print_row clock stats l =
    let (errs, prev_errors) = errors_loop stats (pos 0) l.prev_errors in
    let (fresh, columns, known) = names_loop stats false l.columns l.known in
    let shown = if fresh then sort columns else columns in
    let (deltas, prev) = deltas_loop shown stats l.prev in
    let first = if fresh then heading shown ∷ [] else [] in
    let again = if (l.rows + 1) % 20 == 0 then heading shown ∷ [] else [] in
    record {
      prev = prev;
      prev_errors = prev_errors;
      columns = shown;
      known = known;
      rows = l.rows + 1;
      out = l.out ++ (first ++ row clock deltas errs ∷ again);
    }

-- `tick` behind its call of `Summary`
pub print_some : (clock : Bytes) → List (Bytes × CmdStat) → Live → Live
print_some clock [] l = l
print_some clock (s ∷ stats) l = print_row clock (s ∷ stats) l

-- `tick`
pub tick : Floats → (clock : Bytes) → Collector → Live → Live
tick f clock c l = print_some clock (summary f c).commands l

-- `Run`: what is observed until each tick, the last of which is the one after the run
pub watch : Floats → List (Bytes × List Observation) → Collector → Live → Collector × Live
watch f [] c l = (c, l)
watch f ((clock, os) ∷ more) c l =
    let now = observe_all c os in watch f more now (tick f clock now l)

-- `short`
pub short : Bytes → Bytes
short name = if leb (length name) 7 then name else take 7 name

-- the `%7s` and the `%6s` of a text of single-byte characters
unfoldable pub pad_left : ℕ → Bytes → Bytes
pad_left zero s = s
pad_left (suc width) s =
    let rest = 32 ∷ pad_left width s in if ltb width (length s) then s else rest

-- what `header` and `tick` write
pub cells : List Bytes → Bytes
cells [] = []
cells (s ∷ ss) = 32 ∷ (pad_left 7 s ++ cells ss)

pub render : Printed → Bytes
render (heading names) =
    pad_left 6 (codes "time")
    ++ (cells (map short names) ++ (cells (codes "errors" ∷ []) ++ 10 ∷ []))
render (row clock deltas errors) =
    clock ++ (cells (map print_int deltas) ++ (cells (print_int errors ∷ []) ++ 10 ∷ []))
