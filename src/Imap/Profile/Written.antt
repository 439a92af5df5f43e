-- ===== src/Imap/Profile/Written.antt =====
-- A written profile (internal/imapdrv/commands.go: ParseProfile): assignments joined by commas.
use yarilo_loadtest.Base.{
  ℕ, ◌≤◌, ◌<◌, ◌≡◌, refl, ap, ◌∙◌, false, List, [], ◌∷◌, ◌++◌, map, some, arith, All, All-append,
  All-map, Bytes, codes, length, length-append, if◌then◌else◌,
}
use yarilo_loadtest.Base.Result.{ok, err, ◌>>=◌}
use yarilo_loadtest.Text.{bytes_eq, split, to_lower, trim_space}
use yarilo_loadtest.Text.Laws.{Lacks, Solid, trim_space-Solid, cut-append}
use yarilo_loadtest.Text.Joined.{
  IsField, join_commas, split-join_commas, join_commas-Solid, join_commas-pos,
}
use yarilo_loadtest.Text.Number.{print_nat, max_int}
use yarilo_loadtest.Text.Decimal.{IsDigit-Solid, atoi-print_nat, print_nat-IsDigit}
use yarilo_loadtest.Recipients.Count.{IsDigit-Lacks}
use yarilo_loadtest.Imap.Profile.{
  Command, list, status, select, fetch, fetch2, store, delete, expunge, search_text, noop, append,
  logout, Profile, zero_profile, Weighted, assign, parse_part, parse_loop, is_zero_profile,
  parse_profile, all_zero,
}

-- How a command is called in a profile.
abbrev pub key : Command → Bytes
key list = codes "list"
key status = codes "status"
key select = codes "select"
key fetch = codes "fetch"
key fetch2 = codes "fetch2"
key store = codes "store"
key delete = codes "delete"
key expunge = codes "expunge"
key search_text = codes "search"
key noop = codes "noop"
key append = codes "append"
key logout = codes "logout"

-- The weight that a profile gives to a command, and the profile where it is another.
abbrev pub weight_of : Command → Profile → ℕ
weight_of list p = p.list
weight_of status p = p.status
weight_of select p = p.select
weight_of fetch p = p.fetch
weight_of fetch2 p = p.fetch2
weight_of store p = p.store
weight_of delete p = p.delete
weight_of expunge p = p.expunge
weight_of search_text p = p.search_text
weight_of noop p = p.noop
weight_of append p = p.append
weight_of logout p = p.logout

abbrev pub weighing : Command → ℕ → Profile → Profile
weighing list n p = record p { list = n }
weighing status n p = record p { status = n }
weighing select n p = record p { select = n }
weighing fetch n p = record p { fetch = n }
weighing fetch2 n p = record p { fetch2 = n }
weighing store n p = record p { store = n }
weighing delete n p = record p { delete = n }
weighing expunge n p = record p { expunge = n }
weighing search_text n p = record p { search_text = n }
weighing noop n p = record p { noop = n }
weighing append n p = record p { append = n }
weighing logout n p = record p { logout = n }

-- An assignment as it is written, and the profile that a list of them stands for: a later one counts.
abbrev pub written : Weighted → Bytes
written w = key w.cmd ++ b'=' ∷ print_nat w.weight

abbrev pub profile_of : List Weighted → Profile → Profile
profile_of [] p = p
profile_of (w ∷ ws) p = profile_of ws (weighing w.cmd w.weight p)

abbrev pub IsWritable : Weighted → Type 0
IsWritable w = w.weight ≤ max_int

-- no key holds white space, a comma or an equals sign
key-Solid : (c : Command) → Solid (key c)
key-Solid list = ground arith
key-Solid c = ground arith

key-Lacks : (c : Command) → Lacks b'=' (key c) × Lacks b',' (key c)
key-Lacks list = (omega arith, omega arith)
key-Lacks c = (omega arith, omega arith)

assign-key :
    (c : Command) (n : ℕ) (p : Profile) → assign (to_lower (key c)) n p ≡ some (weighing c n p)
unfolding assign bytes_eq
assign-key list n p = refl
assign-key c n p = refl

written-All :
    (P : ℕ → Type 0) (w : Weighted)
    → All P (key w.cmd)
    → P b'='
    → All P (print_nat w.weight)
    → All P (written w)
written-All P w hk he hn = All-append P (key w.cmd) _ hk (he, hn)

written-IsField : (w : Weighted) → IsWritable w → IsField (written w)
written-IsField w h =
    let digits = print_nat-IsDigit w.weight in
    (
      written-All _ w (key-Solid w.cmd) refl (IsDigit-Solid _ digits),
      written-All _ w (key-Lacks w.cmd).1 (omega arith) (IsDigit-Lacks b',' refl _ digits),
      omega (arith, length-append {0} (key w.cmd) (b'=' ∷ print_nat w.weight)),
    )

parse_part-written :
    (w : Weighted) (p : Profile)
    → IsWritable w
    → parse_part (written w) p ≡ ok (weighing w.cmd w.weight p)
unfolding parse_part
parse_part-written w p h = ground (
  arith,
  cut-append (key w.cmd) (print_nat w.weight) b'=' (key-Lacks w.cmd).0,
  trim_space-Solid (key w.cmd) (key-Solid w.cmd),
  trim_space-Solid (print_nat w.weight) (IsDigit-Solid _ (print_nat-IsDigit w.weight)),
  atoi-print_nat w.weight h,
  assign-key w.cmd w.weight p,
)

-- one round of the loop, at a part that is not empty once trimmed
parse_loop-round :
    (part : Bytes) (parts : List Bytes) (p : Profile)
    → trim_space part ≡ part
    → 0 < length part
    → parse_loop (part ∷ parts) p ≡ (parse_part part p >>= λ p'. parse_loop parts p')
unfolding parse_loop
parse_loop-round [] parts p e h = absurd (omega arith)
parse_loop-round (c ∷ part) parts p e h = rw (e, parse_loop)

parse_loop-written :
    (ws : List Weighted) (p : Profile)
    → All IsWritable ws
    → parse_loop (map written ws) p ≡ ok (profile_of ws p)
parse_loop-written [] p h = unfold parse_loop in refl
parse_loop-written (w ∷ ws) p h =
    let field = written-IsField w h.0 in
    rw
      (
        parse_loop-round (written w) (map written ws) p (trim_space-Solid _ field.0) field.2,
        parse_part-written w p h.0,
      )
      (parse_loop-written ws (weighing w.cmd w.weight p) h.1)

-- a profile with a weight is not the zero profile
is_zero_profile-weight : (c : Command) (p : Profile) → 0 < weight_of c p → is_zero_profile p ≡ false
unfolding is_zero_profile
is_zero_profile-weight list p h = ground (arith, h)
is_zero_profile-weight c p h = ground (arith, h)

parse_profile-split :
    (spec : Bytes)
    → trim_space spec ≡ spec
    → 0 < length spec
    → parse_profile spec ≡ (
        parse_loop (split spec b',') zero_profile >>= λ p.
        if is_zero_profile p then err all_zero else ok p)
unfolding parse_profile
parse_profile-split [] e h = absurd (omega arith)
parse_profile-split (c ∷ s) e h = rw (e, parse_profile)

-- A list of one or more assignments, written name=weight and joined by commas, is read as the profile
-- that it stands for, where the last assignment to a command counts and a command without any weighs
-- nothing, provided that some command has a weight and each weight is an `int`.
pub parse_profile-written :
    (w : Weighted) (ws : List Weighted) (c : Command)
    → All IsWritable (w ∷ ws)
    → 0 < weight_of c (profile_of (w ∷ ws) zero_profile)
    → parse_profile (join_commas (map written (w ∷ ws))) ≡ ok (profile_of (w ∷ ws) zero_profile)
parse_profile-written w ws c h weighs =
    let fields = All-map IsWritable IsField written written-IsField (w ∷ ws) h in
    let spec = join_commas (map written (w ∷ ws)) in
    parse_profile-split spec
      (trim_space-Solid spec (join_commas-Solid (written w) (map written ws) fields))
      (join_commas-pos (written w) (map written ws) fields)
    ∙ ap
        (λ parts.
          parse_loop parts zero_profile >>= λ p. if is_zero_profile p then err all_zero else ok p)
        (split-join_commas (written w) (map written ws) fields)
    ∙ ap (λ r. r >>= λ p. if is_zero_profile p then err all_zero else ok p)
        (parse_loop-written (w ∷ ws) zero_profile h)
    ∙ ap (λ b. if b then err all_zero else ok (profile_of (w ∷ ws) zero_profile))
        (is_zero_profile-weight c (profile_of (w ∷ ws) zero_profile) weighs)
