-- ===== src/Imap/Profile.antt =====
-- The weighted choice of commands (internal/imapdrv/commands.go). A weight is never negative:
-- `ParseProfile` refuses such a one.
pub mod Pick
pub mod Mix
pub mod Written
mod Tests
use yarilo_loadtest.Base.{
  ℕ, zero, suc, ◌+◌, ◌-◌, ◌%◌, Bool, true, false, ◌&&◌, ◌||◌, List, [], ◌∷◌, ◌++◌, Option, none,
  some, Bytes, codes, keep_if, ltb, ◌==◌, if◌then◌else◌, ℤ, pos, negsuc, word, signed,
}
use yarilo_loadtest.Base.Result.{Result, ok, err, ◌>>=◌}
use yarilo_loadtest.Text.{less, trim_space, split, cut, to_lower, bytes_eq}
use yarilo_loadtest.Text.Number.{atoi}

pub data Command : Type 0 where
  list status select fetch fetch2 store delete expunge search_text noop append logout : Command

-- the string behind the constant
abbrev pub name : Command → Bytes
name list = codes "LIST"
name status = codes "STATUS"
name select = codes "SELECT"
name fetch = codes "FETCH"
name fetch2 = codes "FETCH2"
name store = codes "STORE"
name delete = codes "DELETE"
name expunge = codes "EXPUNGE"
name search_text = codes "SEARCH"
name noop = codes "NOOP"
name append = codes "APPEND"
name logout = codes "LOGOUT"

-- `Profile`: the weight of each command
pub record Profile : Type 0 where
  pub list : ℕ
  pub status : ℕ
  pub select : ℕ
  pub fetch : ℕ
  pub fetch2 : ℕ
  pub store : ℕ
  pub delete : ℕ
  pub expunge : ℕ
  pub search_text : ℕ
  pub noop : ℕ
  pub append : ℕ
  pub logout : ℕ

abbrev pub zero_profile : Profile
zero_profile = record {
  list = 0;
  status = 0;
  select = 0;
  fetch = 0;
  fetch2 = 0;
  store = 0;
  delete = 0;
  expunge = 0;
  search_text = 0;
  noop = 0;
  append = 0;
  logout = 0;
}

-- `DefaultProfile`
abbrev pub default_profile : Profile
default_profile = record {
  list = 5;
  status = 5;
  select = 10;
  fetch = 30;
  fetch2 = 10;
  store = 15;
  delete = 5;
  expunge = 5;
  search_text = 5;
  noop = 5;
  append = 30;
  logout = 2;
}

pub record Weighted : Type 0 where
  pub cmd : Command
  pub weight : ℕ

abbrev pub weigh : Command → ℕ → Weighted
weigh c n = record { cmd = c; weight = n }

-- the table of `weights`
abbrev pub table : Profile → List Weighted
table p =
    weigh list p.list
    ∷ weigh status p.status
    ∷ weigh select p.select
    ∷ weigh fetch p.fetch
    ∷ weigh fetch2 p.fetch2
    ∷ weigh store p.store
    ∷ weigh delete p.delete
    ∷ weigh expunge p.expunge
    ∷ weigh search_text p.search_text
    ∷ weigh noop p.noop
    ∷ weigh append p.append
    ∷ weigh logout p.logout
    ∷ []

-- `sort.Slice`: the names differ, so any sort gives this list
pub insert : Weighted → List Weighted → List Weighted
insert w [] = w ∷ []
insert w (v ∷ vs) =
    let rest = insert w vs in if less (name v.cmd) (name w.cmd) then v ∷ rest else w ∷ v ∷ vs

pub sort : List Weighted → List Weighted
sort [] = []
sort (w ∷ ws) = insert w (sort ws)

-- `weights`
pub weights : Profile → List Weighted
weights p = sort (keep_if (λ w. ltb 0 w.weight) (table p))

-- `total`, before it is reduced to 64 bits
unfoldable pub total : List Weighted → ℕ
total [] = 0
total (w ∷ ws) = w.weight + total ws

-- the loop of `pick`; the command behind it is the last of the list
unfoldable pub pick_loop : Command → List Weighted → ℕ → Command
pick_loop final [] slot = final
pick_loop final (w ∷ ws) slot =
    let rest = pick_loop w.cmd ws (slot - w.weight) in if ltb slot w.weight then w.cmd else rest

abbrev first_cmd : List Weighted → Command
first_cmd [] = noop
first_cmd (w ∷ ws) = w.cmd

-- `pick`; a slot that is negative as an `int` is below the first weight
unfoldable pub pick : List Weighted → ℕ → Command
pick ws n =
    let sum = total ws % word in
    if sum == 0
    then noop
    else (elim (signed (n % sum)) [ pos slot ↦ pick_loop noop ws slot | negsuc k ↦ first_cmd ws ])

-- why a profile is refused
pub data BadProfile : Type 0 where
  not_a_pair unusable_weight unknown_command : Bytes → BadProfile
  all_zero : BadProfile

-- the assignment of a weight by its name
pub assign : Bytes → ℕ → Profile → Option Profile
assign key n p =
    if bytes_eq key (codes "list")
    then some (record p { list = n })
    else if bytes_eq key (codes "status")
    then some (record p { status = n })
    else if bytes_eq key (codes "select")
    then some (record p { select = n })
    else if bytes_eq key (codes "fetch")
    then some (record p { fetch = n })
    else if bytes_eq key (codes "fetch2")
    then some (record p { fetch2 = n })
    else if bytes_eq key (codes "store")
    then some (record p { store = n })
    else if bytes_eq key (codes "delete")
    then some (record p { delete = n })
    else if bytes_eq key (codes "expunge")
    then some (record p { expunge = n })
    else if bytes_eq key (codes "search")
    then some (record p { search_text = n })
    else if bytes_eq key (codes "noop")
    then some (record p { noop = n })
    else if bytes_eq key (codes "append")
    then some (record p { append = n })
    else if bytes_eq key (codes "logout")
    then some (record p { logout = n })
    else none

-- one part of the list, trimmed and not empty
pub parse_part : Bytes → Profile → Result BadProfile Profile
parse_part part p = elim (cut part b'=') [
  | none ↦ err (not_a_pair part)
  | some (key, value) ↦ elim (atoi (trim_space value)) [
    | none ↦ err (unusable_weight part)
    | some n ↦ elim n [
      | negsuc k ↦ err (unusable_weight part)
      | pos k ↦ elim (assign (to_lower (trim_space key)) k p) [
        | none ↦ err (unknown_command key)
        | some p' ↦ ok p'
      ]
    ]
  ]
]

pub parse_loop : List Bytes → Profile → Result BadProfile Profile
parse_loop [] p = ok p
parse_loop (raw ∷ parts) p = elim (trim_space raw) [
  | [] ↦ parse_loop parts p
  | c ∷ s ↦ parse_part (c ∷ s) p >>= λ p'. parse_loop parts p'
]

-- `p == (Profile{})`
pub is_zero_profile : Profile → Bool
is_zero_profile p =
    (p.list == 0)
    && (p.status == 0)
    && (p.select == 0)
    && (p.fetch == 0)
    && (p.fetch2 == 0)
    && (p.store == 0)
    && (p.delete == 0)
    && (p.expunge == 0)
    && (p.search_text == 0)
    && (p.noop == 0)
    && (p.append == 0)
    && (p.logout == 0)

-- `ParseProfile`
pub parse_profile : Bytes → Result BadProfile Profile
parse_profile spec = elim (trim_space spec) [
  | [] ↦ ok default_profile
  | c ∷ s ↦ parse_loop (split spec b',') zero_profile >>= λ p.
      if is_zero_profile p then err all_zero else ok p
]
