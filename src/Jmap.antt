-- ===== src/Jmap.antt =====
-- The JMAP driver (internal/jmapdrv/jmap.go). What the network answers is a list, one entry for each
-- request to come. `encoding/json`, `encoding/base64` and the parsing of URLs are parameters.
pub mod Settings
pub mod Checks
pub mod Calls
pub mod Replies
pub mod Posting
pub mod Credentials
pub mod Discovery
pub mod Setup
mod Tests
use yarilo_loadtest.Base.{
  ℕ, zero, suc, ◌+◌, ◌-◌, ◌%◌, Bool, true, false, ◌||◌, List, [], ◌∷◌, ◌++◌, Option, none, some,
  Bytes, codes, length, take, get_or, ltb, ◌==◌, if◌then◌else◌, ℤ, pos, negsuc, word, signed,
  index_of, is_nonpos,
}
use yarilo_loadtest.Base.Result.{Result, ok, err}
use yarilo_loadtest.Text.{bytes_eq, has_prefix, has_suffix, trim_space}
use yarilo_loadtest.Jmap.Calls.{Value, Values, cap_mail, envelope, mailbox_get, chain}
use yarilo_loadtest.Jmap.Settings.{Config}
use yarilo_loadtest.Jmap.Checks.{
  Resource, Packages, Method, get, post, Error, building, requesting, reading, status, no_envelope,
  no_responses, malformed, unnamed, method_failed, no_session, no_api_url, no_account, encoding,
  snippet, check_method_errors,
}

-- a request, but for the headers that are always the same
pub record Request : Type 0 where
  pub method : Method
  pub url : Bytes
  pub authorization : Bytes
  pub payload : Option Bytes

-- What `c.http.Do` and the reading of the body give: `shown` is the text of the status.
pub data Reply : Type 0 where
  failed : Reply
  broken_off : Reply
  answered : (code : ℕ) (shown body : Bytes) → Reply

pub record Client : Type 0 where
  pub base : Bytes
  pub user : Bytes
  pub pass : Bytes
  pub sess : Option Resource
  pub account : Bytes

pub record Sample : Type 0 where
  pub name : Bytes
  pub failure : Option Error

-- A client at work: `requests` are those that it gives to `http.Do`, the latest last, and `coming` what
-- that returns for each. What net/http sends besides to follow a redirect is not among them.
pub record World : Type 0 where
  pub client : Client
  pub requests : List Request
  pub coming : List Reply
  pub samples : List Sample

abbrev pub Code : Type 0 → Type 0
Code A = World → Result Error A × World

infixl 5 ◌>>=◌
abbrev pub ◌>>=◌ : {A B : Type 0} → Code A → (A → Code B) → Code B
◌>>=◌ m f w = let (r, w') = m w in elim r [ ok a ↦ f a w' | err e ↦ (err e, w') ]

abbrev pub return : {A : Type 0} → A → Code A
return a w = (ok a, w)

abbrev pub fail : {A : Type 0} → Error → Code A
fail e w = (err e, w)

-- `col.Observe(name, …, err)` behind a step
abbrev pub observed : {A : Type 0} → Bytes → Code A → Code A
observed name m w =
    let (r, w') = m w in
    (
      r,
      record w' {
        samples =
            w'.samples
            ++ record { name = name; failure = elim r [ ok a ↦ none | err e ↦ some e ] } ∷ [];
      },
    )

-- `accountID`
pub account_id : Resource → Result Error Bytes
account_id s = elim (s.primary cap_mail) [
  | c ∷ id ↦ ok (c ∷ id)
  | [] ↦ elim s.accounts [ id ∷ more ↦ ok id | [] ↦ err no_account ]
]

-- `NewClient`, from the sequence number; `none` is the panic on a negative index
pub new_client : Config → ℕ → Option Client × ℕ
new_client c seq =
    let client : Option Client = elim (index_of (signed seq) (length c.users)) [
      | none ↦ none
      | some i ↦ some (record {
        base = c.base_url;
        user = get_or c.users i [];
        pass = c.password;
        sess = none;
        account = [];
      })
    ] in
    (client, (seq + 1) % word)

-- the name under which the second request is counted
pub chain_name : (threads : Bool) → Bytes
chain_name threads = if threads then codes "Email/query+get+Thread/get" else codes "Email/query+get"

-- what `do` makes of the answer
pub take_reply : Method → (url : Bytes) → Reply → Result Error Bytes
take_reply m url failed = err (requesting m url)
take_reply m url broken_off = err (reading m url)
take_reply m url (answered code shown body) =
    if code == 200 then ok body else err (status m url shown (snippet body))

-- what `http.Do` returns for a request
pub answer : Request → World → Result Error Bytes × World
answer r w =
    let w' = record w { requests = w.requests ++ r ∷ [] } in
    elim w.coming [
      | [] ↦ (err (requesting r.method r.url), w')
      | reply ∷ more ↦ (take_reply r.method r.url reply, record w' { coming = more })
    ]

-- `apiURL`
pub api_url : Client → Resource → Bytes
api_url c s = if has_prefix s.api_url (codes "http") then s.api_url else c.base ++ s.api_url

-- the end of `discover`
pub keep_session : Resource → Code Resource
keep_session s w = if length s.api_url == 0 then (err no_api_url, w) else elim (account_id s) [
  | err e ↦ (err e, w)
  | ok id ↦ (ok s, record w { client = record w.client { sess = some s; account = id } })
]

module _ (p : Packages) where
  -- `do`
  pub perform : Method → (url : Bytes) → Option Bytes → Code Bytes
  perform m url payload w =
      let credentials = w.client.user ++ 58 ∷ w.client.pass in
      if p.is_url url
      then answer
          (record {
            method = m;
            url = url;
            authorization = codes "Basic " ++ p.base64 credentials;
            payload = payload;
          })
          w
      else (err (building m url), w)

  -- the answer of a request and what its methods say
  pub perform_checked : (url payload : Bytes) → Code Bytes
  perform_checked url payload = do
    body ← perform post url (some payload)
    checked ← λ w. (check_method_errors p body, w)
    return body

  -- `call`, with the session of the client
  pub call : Resource → (name : Bytes) → Values → Code Bytes
  call s name calls w = elim (p.encode (envelope calls)) [
    | none ↦ (err (encoding name), w)
    | some payload ↦ observed name (perform_checked (api_url w.client s) payload) w
  ]

  -- `discover` behind its request
  pub open_session : (body : Bytes) → Code Resource
  open_session body w = elim (p.decode_session body) [
    | none ↦ (err no_session, w)
    | some s ↦ keep_session s w
  ]

  -- `discover`
  pub discover : Code Resource
  discover w =
      (do
        body ←
            observed (codes "session")
              (perform get (w.client.base ++ codes "/.well-known/jmap") none)
        open_session body)
        w

  -- the session that `Iterate` works with
  pub session_of : Code Resource
  session_of w = elim w.client.sess [ some s ↦ (ok s, w) | none ↦ discover w ]

  -- `Iterate` behind its session
  pub exchange : Config → Resource → Code Bytes
  exchange c s w =
      let account = w.client.account in
      (do
        first ← call s (codes "Mailbox/get") (mailbox_get account)
        call s (chain_name c.threads) (chain account c.window c.fetch_bodies c.threads))
        w

  -- `Iterate`
  pub iterate : Config → Code Bytes
  iterate c = do s ← session_of; exchange c s

  -- calls of `Iterate` on one client
  pub iterations : ℕ → Config → World → World
  iterations zero c w = w
  iterations (suc n) c w = iterations n c (iterate c w).1
