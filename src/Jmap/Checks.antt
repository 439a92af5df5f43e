-- ===== src/Jmap/Checks.antt =====
-- Which answers a JMAP client takes for a success (internal/jmapdrv/jmap.go: checkMethodErrors), and why
-- it fails.
use yarilo_loadtest.Base.{
  Bool, List, [], ◌∷◌, ◌++◌, Option, none, some, Bytes, codes, length, take, ltb, if◌then◌else◌,
}
use yarilo_loadtest.Base.Result.{Result, ok, err}
use yarilo_loadtest.Text.{bytes_eq, trim_space}
use yarilo_loadtest.Jmap.Calls.{Value}

-- `session`, as far as the driver reads it. The accounts stand in the order in which Go runs through
-- them; a capability that is not in `primary` has the empty text.
pub record Resource : Type 0 where
  pub api_url : Bytes
  pub accounts : List Bytes
  pub primary : Bytes → Bytes

-- what the driver uses of other packages
pub record Packages : Type 0 where
  -- `json.Unmarshal` into each of the types that the driver decodes
  pub decode_session : Bytes → Option Resource
  pub decode_envelope : Bytes → Option (List Bytes)
  pub decode_array : Bytes → Option (List Bytes)
  pub decode_text : Bytes → Option Bytes
  -- `json.Marshal`
  pub encode : Value → Option Bytes
  -- `base64.StdEncoding.EncodeToString`
  pub base64 : Bytes → Bytes
  -- whether `http.NewRequestWithContext` takes a URL
  pub is_url : Bytes → Bool

pub data Method : Type 0 where
  get post : Method

pub data Error : Type 0 where
  building : Method → (url : Bytes) → Error
  requesting : Method → (url : Bytes) → Error
  reading : Method → (url : Bytes) → Error
  status : Method → (url shown body : Bytes) → Error
  no_envelope : Error
  no_responses : Error
  malformed : (raw : Bytes) → Error
  unnamed : (raw : Bytes) → Error
  method_failed : (raw : Bytes) → Error
  no_session : Error
  no_api_url : Error
  no_account : Error
  encoding : (name : Bytes) → Error

-- `snippet`
unfoldable pub snippet : Bytes → Bytes
snippet b =
    let s = trim_space b in if ltb 200 (length s) then take 200 s ++ 226 ∷ 128 ∷ 166 ∷ [] else s

module _ (p : Packages) where
  -- the body of the loop of `checkMethodErrors` behind the array: its first two entries
  unfoldable pub check_name : (raw name argument : Bytes) → Result Error (Unit {0})
  check_name raw name argument = elim (p.decode_text name) [
    | none ↦ err (unnamed (snippet raw))
    | some s ↦ if bytes_eq s (codes "error") then err (method_failed (snippet argument)) else ok tt
  ]

  -- the body of the loop of `checkMethodErrors`
  unfoldable pub check_response : (raw : Bytes) → Result Error (Unit {0})
  check_response raw = elim (p.decode_array raw) [
    | none ↦ err (malformed (snippet raw))
    | some triple ↦ elim triple [
      | [] ↦ err (malformed (snippet raw))
      | name ∷ rest ↦ elim rest [
        | [] ↦ err (malformed (snippet raw))
        | argument ∷ more ↦ check_name raw name argument
      ]
    ]
  ]

  -- the loop of `checkMethodErrors`
  unfoldable pub check_loop : List Bytes → Result Error (Unit {0})
  check_loop [] = ok tt
  check_loop (raw ∷ raws) =
      let rest = check_loop raws in elim (check_response raw) [ ok a ↦ rest | err e ↦ err e ]

  -- `checkMethodErrors`
  unfoldable pub check_method_errors : Bytes → Result Error (Unit {0})
  check_method_errors body = elim (p.decode_envelope body) [
    | none ↦ err no_envelope
    | some raws ↦ elim raws [ [] ↦ err no_responses | raw ∷ more ↦ check_loop (raw ∷ more) ]
  ]
