-- ===== src/Stallwatch.antt =====
-- The stall watch (internal/stallwatch/stallwatch.go). Files, the environment, regular expressions and the
-- answers of the cluster are parameters; a duration is a number of nanoseconds. What a capture fetches and
-- writes is kept as a list of actions.
pub mod Settings
pub mod Cluster
pub mod Capture
pub mod Api
pub mod Rate
mod Tests
use yarilo_loadtest.Base.{
  ℕ, zero, suc, ◌+◌, ◌*◌, ◌%◌, Bool, true, false, not, ◌&&◌, ◌||◌, List, [], ◌∷◌, ◌++◌, map, Option,
  none, some, Bytes, codes, length, take, get_or, ltb, leb, ◌==◌, keep_if, if◌then◌else◌, ℤ, pos,
  negsuc, sub_ℕ, ltb_ℤ, ◌+ℤ◌, word, signed, is_nonpos,
}
use yarilo_loadtest.Base.Result.{Result, ok, err}
use yarilo_loadtest.Text.{bytes_eq, has_prefix, trim_space, less}
use yarilo_loadtest.Text.Number.{print_nat, print_int, atoi}
use yarilo_loadtest.Stallwatch.Settings.{
  System, Watcher, Error, no_backends, no_log, bad_log, new_watcher,
}
use yarilo_loadtest.Stallwatch.Cluster.{Pod, Backend, backends, Poll, target_pod}
use yarilo_loadtest.Stallwatch.Api.{Web, Response, Round, pods, seen, poll_of}
use yarilo_loadtest.Stallwatch.Capture.{Action, log, truncate, capture}

-- A line of the log as it is read: `seen` is the clock when the watch asks for the time since the last
-- capture, `taken` and `unix` what it reads a moment later if it captures.
pub record Event : Type 0 where
  pub line : Bytes
  pub seen : ℕ
  pub taken : ℕ
  pub unix : ℕ

-- the state of the loop of `run`; `captured` has the times of the captures
pub record Progress : Type 0 where
  pub last : Option ℕ
  pub hits : ℕ
  pub captured : List ℕ
  pub actions : List Action

abbrev pub begin : Progress
begin = record { last = none; hits = 0; captured = []; actions = [] }

-- `time.Since(last) < w.cooldown`; since the zero time, the largest duration has passed
pub is_recent : (cooldown : ℤ) → Option ℕ → (now : ℕ) → Bool
is_recent cooldown none now = false
is_recent cooldown (some t) now = ltb_ℤ (sub_ℕ now t) cooldown

module _ (sys : System) (w : Watcher) (first : Backend) (rest : List Backend) where
  -- the body of the loop of `run`
  pub on_line : Event → Progress → Progress
  on_line e p =
      let counted = record p { hits = p.hits + 1 } in
      if w.matches e.line
      then (if is_recent w.cooldown p.last e.seen then counted else record counted {
        last = some e.taken;
        captured = p.captured ++ e.taken ∷ [];
        actions =
            p.actions
            ++ (log (codes "EVENT: " ++ truncate (trim_space e.line) 200)
                ∷ capture sys w (b's' ∷ print_nat e.unix) first rest);
      })
      else p

  -- the loop of `run`
  pub scan : List Event → Progress → Progress
  scan [] p = p
  scan (e ∷ events) p = scan events (on_line e p)

-- what `apiGet` gives of the log: its lines, and whether reading it fails in the end
pub record Stream : Type 0 where
  pub events : List Event
  pub failed : Bool

-- `strings.Join(names, ", ")`
pub join_names : List Backend → Bytes
join_names [] = []
join_names (b ∷ []) = b.name
join_names (b ∷ c ∷ bs) = b.name ++ (codes ", " ++ join_names (c ∷ bs))

module _ (sys : System) (w : Watcher) where
  -- `run` behind its backends and its pod: what it returns and what it does
  pub follow_log :
      (first : Backend) (rest : List Backend) (pod : Bytes)
      → Option Stream
      → Result Error (Unit {0}) × List Action
  follow_log first rest pod stream =
      let opening = log (
        codes "watching "
        ++ (w.target
            ++ (codes " (pod "
                ++ (pod ++ (codes "), backends: " ++ join_names (first ∷ rest)))))) in
      elim stream [
        | none ↦ (err no_log, opening ∷ [])
        | some s ↦
            let p = scan sys w first rest s.events begin in
            let closing =
              log (codes "run ended; " ++ (print_nat p.hits ++ codes " stall lines seen")) in
            (if s.failed then err bad_log else ok tt, opening ∷ (p.actions ++ closing ∷ []))
      ]

  -- `run` with its backends
  pub follow_pod :
      List Backend
      → Option (Result Error Bytes)
      → Option Stream
      → Option (Result Error (Unit {0}) × List Action)
  follow_pod bs none stream = none
  follow_pod bs (some (err e)) stream = some (err e, [])
  follow_pod [] (some (ok pod)) stream = some (err no_backends, [])
  follow_pod (b ∷ bs) (some (ok pod)) stream = some (follow_log b bs pod stream)

  -- `run`; `none` where the rounds of waiting for the pod are used up
  pub run :
      Option (List Pod) → List Poll → Option Stream → Option (Result Error (Unit {0}) × List Action)
  run listed polls stream = elim (backends listed) [
    | err e ↦ some (err e, [])
    | ok bs ↦ follow_pod bs (target_pod polls) stream
  ]

-- `Run`, with what the cluster answers to its requests
pub start :
    System
    → Web
    → (listed : Option Response) → List Round
    → Option Stream
    → Option (Result Error (Unit {0}) × List Action)
start sys web listed rounds stream = elim (new_watcher sys) [
  | err e ↦ some (err e, [])
  | ok w ↦ run sys w (seen web w (pods web w [] listed).1) (map (poll_of web w) rounds) stream
]
