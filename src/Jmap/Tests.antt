-- ===== src/Jmap/Tests.antt =====
-- A JMAP client at concrete inputs, with packages that know a few texts.
use yarilo_loadtest.Base.{
  index_of, All, ◌≡◌, ◌↔◌, ◌+◌, refl, true, false, [], ◌∷◌, none, some, Bytes, codes, pos, negsuc,
  if◌then◌else◌,
}
use yarilo_loadtest.Base.Result.{ok, err}
use yarilo_loadtest.Text.{bytes_eq, has_prefix, has_suffix, trim_space, trim_left, trim_right}
use yarilo_loadtest.Jmap.Calls.{
  Value, Values, item, field, empty, null, method, texts, text, array, cap_mail, result_of, chain,
}
use yarilo_loadtest.Jmap.{
  Reply, answered, broken_off, World, account_id, new_client, take_reply, answer, api_url,
  keep_session, chain_name, perform, perform_checked, call, open_session, discover, session_of,
  exchange, iterate, iterations,
}
use yarilo_loadtest.Jmap.Checks.{
  Resource, Packages, get, status, no_account, snippet, check_name, check_response, check_loop,
  check_method_errors,
}
use yarilo_loadtest.Jmap.Settings.{Config, no_users, no_base_url, no_window, trim_slash, new}
use yarilo_loadtest.Jmap.Replies.{AllSucceed, check_method_errors_iff}
use yarilo_loadtest.Jmap.Posting.{gets}
use yarilo_loadtest.Jmap.Credentials.{IsOwn, iterations-IsOwn}
use yarilo_loadtest.Jmap.Discovery.{missing, iterations-discovery}

abbrev resource : Resource
resource = record {
  api_url = codes "/jmap";
  accounts = codes "A1" ∷ [];
  primary = λ capability. if bytes_eq capability cap_mail then codes "A2" else [];
}

-- one session, one envelope, and one response in it
abbrev packages : Packages
packages = record {
  decode_session = λ body. if bytes_eq body (codes "S") then some resource else none;
  decode_envelope = λ body. if bytes_eq body (codes "E") then some (codes "R" ∷ []) else none;
  decode_array =
      λ raw. if bytes_eq raw (codes "R") then some (codes "N" ∷ codes "A" ∷ []) else none;
  decode_text = λ raw. if bytes_eq raw (codes "N") then some (codes "Email/get") else none;
  encode = λ v. some (codes "Q");
  base64 = λ s. s;
  is_url = λ s. true;
}

check_method_errors_iff_example :
    (check_method_errors packages (codes "E") ≡ ok tt) ↔ AllSucceed packages (codes "E")
check_method_errors_iff_example = check_method_errors_iff packages (codes "E")

abbrev config : Config
config = record {
  base_url = codes "http://h/";
  users = codes "u" ∷ codes "v" ∷ [];
  password = codes "p";
  insecure = false;
  timeout = pos 1;
  window = pos 20;
  fetch_bodies = true;
  threads = true;
}

abbrev fine : Bytes → Reply
fine body = answered 200 (codes "200 OK") body

abbrev at_start : World
at_start = record {
  client = record {
    base = codes "http://h";
    user = codes "u";
    pass = codes "p";
    sess = none;
    account = [];
  };
  requests = [];
  coming =
      fine (codes "S") ∷ fine (codes "E") ∷ fine (codes "E") ∷ broken_off ∷ fine (codes "E") ∷ [];
  samples = [];
}

iterations-discovery_example :
    gets (iterations packages 2 config (iterate packages config at_start).1).requests
    ≡ gets at_start.requests + missing packages at_start.client
unfolding iterate session_of discover open_session keep_session account_id exchange call perform
    perform_checked answer take_reply check_method_errors check_loop check_response check_name
    bytes_eq api_url has_prefix
iterations-discovery_example = iterations-discovery packages config at_start 2 refl

checked_config :
    (new (record config { users = [] }) ≡ err no_users)
    × (new (record config { base_url = [] }) ≡ err no_base_url)
    × (new (record config { window = negsuc 0 }) ≡ err no_window)
    × (new config ≡ ok (record config { base_url = codes "http://h" }))
unfolding new trim_slash has_suffix bytes_eq
checked_config = (refl, refl, refl, refl)

-- the primary account, else the first, else none
accounts :
    (account_id resource ≡ ok (codes "A2"))
    × (account_id (record resource { primary = λ s. [] }) ≡ ok (codes "A1"))
    × (account_id (record resource { primary = λ s. []; accounts = [] }) ≡ err no_account)
unfolding account_id bytes_eq
accounts = (refl, refl, refl)

second_user : new_client config 1 ≡ (
  some (record {
    base = codes "http://h/";
    user = codes "v";
    pass = codes "p";
    sess = none;
    account = [];
  }),
  2,
)
unfolding new_client index_of
second_user = refl

refused :
    take_reply get (codes "x") (answered 401 (codes "401") (codes " no "))
    ≡ err (status get (codes "x") (codes "401") (codes "no"))
unfolding take_reply snippet trim_space trim_left trim_right
refused = refl

named : chain_name false ≡ codes "Email/query+get"
unfolding chain_name
named = refl

-- the get refers to the result of the query, so that both travel in one request
abbrev second_call : Values → Value
second_call (item first (item second rest)) = second
second_call _ = null

joined :
    second_call (chain (codes "A") (pos 20) false false)
    ≡ method
        (codes "Email/get")
        (field (codes "accountId") (text (codes "A")) (
          field (codes "#ids") (result_of (codes "q0") (codes "Email/query") (codes "/ids")) (
            field
              (codes "properties")
              (array (
                texts (
                  codes "id"
                  ∷ codes "subject"
                  ∷ codes "from"
                  ∷ codes "receivedAt"
                  ∷ codes "threadId"
                  ∷ [])))
              empty)))
        (codes "g0")
joined = refl

iterations-IsOwn_example :
    All (IsOwn packages at_start.client) (iterations packages 3 config at_start).requests
iterations-IsOwn_example = iterations-IsOwn packages config 3 at_start refl
