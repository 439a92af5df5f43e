-- ===== src/Recipients.antt =====
-- The address lists of the command line (main.go): `splitList`, `expandRecipients`,
-- `splitTrailingNumber` and `splitCount`. An `int` is 64 bits wide and wraps round.
pub mod Count
pub mod Trailing
pub mod Expand
mod Tests
use yarilo_loadtest.Base.{
  ℕ, zero, suc, ◌+◌, ◌-◌, ◌*◌, ◌%◌, ◌≤◌, Bool, true, false, ◌&&◌, List, [], ◌∷◌, ◌++◌, Option, none,
  some, Bytes, length, get_or, take, drop, ltb, ◌==◌, if◌then◌else◌, ℤ, pos, negsuc, pos_part, word,
  signed,
}
use yarilo_loadtest.Base.Result.{Result, ok, err, ◌>>=◌, map_err}
use yarilo_loadtest.Text.{trim_space, split, cut, cut_last}
use yarilo_loadtest.Text.Number.{is_digit, print_int, atoi}

-- `for _, r := range s[idx+1:]`: a byte that is no digit ends the loop with `ok` false
count_loop : Bytes → ℕ → Option ℕ
count_loop [] n = some n
count_loop (c ∷ s) n =
    let rest = count_loop s ((n * 10 + (c - b'0')) % word) in if is_digit c then rest else none

-- what is done with the two sides of the last colon
count_suffix : Option (Bytes × Bytes) → Option (Bytes × ℤ)
count_suffix none = none
count_suffix (some (addr, digits)) = elim (count_loop digits 0) [
  | none ↦ none
  | some n ↦ if n == 0 then none else some (addr, signed n)
]

-- `splitCount`: "u@example.com:150" is ("u@example.com", 150)
pub split_count : Bytes → Option (Bytes × ℤ)
split_count s = count_suffix (cut_last s b':')

-- why `splitTrailingNumber` refuses
pub data Refusal : Type 0 where
  unreadable : Bytes → Refusal
  starts_at_zero : Refusal
  zero_padded : Bytes → Refusal

-- `for i > 0 && local[i-1] is a digit { i-- }`
digits_start : Bytes → ℕ → ℕ
digits_start s zero = zero
digits_start s (suc j) = elim (is_digit (get_or s j 0)) [ true ↦ digits_start s j | false ↦ suc j ]

-- the tests on the digits, once `Atoi` has read them
check_number : Bytes → Bytes → Option ℤ → Result Refusal (Bytes × ℤ)
check_number prefix digits none = err (unreadable digits)
check_number prefix digits (some (negsuc n)) = ok (prefix, negsuc n)
check_number prefix digits (some (pos n)) =
    if n == 0
    then err starts_at_zero
    else if ltb 1 (length digits) && (get_or digits 0 0 == b'0')
    then err (zero_padded digits)
    else ok (prefix, pos n)

-- `splitTrailingNumber`: "u51" is ("u", 51), a part with no number starts at 1
pub split_trailing_number : Bytes → Result Refusal (Bytes × ℤ)
split_trailing_number s =
    let i = digits_start s (length s) in
    if i == length s then ok (s, pos 1) else check_number (take i s) (drop i s) (atoi (drop i s))

-- `first+i` in 64 bits
abbrev to_word : ℤ → ℕ
to_word (pos n) = n % word
to_word (negsuc n) = (word - 1 - n) % word

pub address : Bytes → ℤ → Bytes → ℕ → Bytes
address prefix first domain i =
    prefix ++ (print_int (signed ((to_word first + i) % word)) ++ b'@' ∷ domain)

-- `for i := 0; i < count; i++`, with the rounds left
number_loop : ℕ → ℕ → Bytes → ℤ → Bytes → List Bytes → List Bytes
number_loop zero i prefix first domain out = out
number_loop (suc rounds) i prefix first domain out =
    number_loop rounds (i + 1) prefix first domain (out ++ address prefix first domain i ∷ [])

-- the error of `expandRecipients`: the flag and the part it names
pub record BadPart : Type 0 where
  pub flag : Bytes
  pub part : Bytes
  pub why : Refusal

-- one part of the list; the parts so far stand in `out`
expand_part : Bytes → Bytes → List Bytes → Result BadPart (List Bytes)
expand_part flag part out = elim (split_count part) [
  | none ↦ ok (out ++ part ∷ [])
  | some (addr, count) ↦ elim (cut addr b'@') [
    | none ↦ ok (out ++ part ∷ [])
    | some (local, domain) ↦
        map_err (λ e. record { flag = flag; part = part; why = e }) (split_trailing_number local)
        >>= λ (prefix, first). ok (number_loop (pos_part count) 0 prefix first domain out)
  ]
]

-- `for _, part := range strings.Split(spec, ",")`
expand_loop : Bytes → List Bytes → List Bytes → Result BadPart (List Bytes)
expand_loop flag [] out = ok out
expand_loop flag (raw ∷ parts) out = elim (trim_space raw) [
  | [] ↦ expand_loop flag parts out
  | c ∷ part ↦ expand_part flag (c ∷ part) out >>= λ next. expand_loop flag parts next
]

-- `expandRecipients`
pub expand_recipients : Bytes → Bytes → Result BadPart (List Bytes)
expand_recipients flag spec = elim (trim_space spec) [
  | [] ↦ ok []
  | c ∷ s ↦ expand_loop flag (split (c ∷ s) b',') []
]

split_list_loop : List Bytes → List Bytes → List Bytes
split_list_loop [] out = out
split_list_loop (raw ∷ parts) out =
    split_list_loop parts (elim (trim_space raw) [ [] ↦ out | c ∷ p ↦ out ++ (c ∷ p) ∷ [] ])

-- `splitList`
pub split_list : Bytes → List Bytes
split_list s = split_list_loop (split s b',') []
