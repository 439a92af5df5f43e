-- ===== src/Stallwatch/Api.antt =====
-- The requests of a stall watch to the cluster, and its log (internal/stallwatch/stallwatch.go: apiGet, pods,
-- logf).
mod Tests
use yarilo_loadtest.Base.{
  ℕ, Bool, List, [], ◌∷◌, ◌++◌, Option, none, some, Bytes, codes, take, ◌==◌, if◌then◌else◌,
}
use yarilo_loadtest.Base.Result.{Result, ok, err}
use yarilo_loadtest.Text.{trim_space}
use yarilo_loadtest.Stallwatch.Settings.{System, Watcher}
use yarilo_loadtest.Stallwatch.Cluster.{Pod, Poll}

-- Other packages' part: whether a text is an address that `http.NewRequest` takes, and how encoding/json
-- reads a `podList`.
pub record Web : Type 0 where
  pub is_url : Bytes → Bool
  pub decode : Bytes → Option (List Pod)

-- a GET request, with its one header
pub record Request : Type 0 where
  pub url : Bytes
  pub authorization : Bytes

pub record Response : Type 0 where
  pub code : ℕ
  pub status : Bytes
  pub body : Bytes

pub data ApiError : Type 0 where
  not_built not_answered bad_list : ApiError
  bad_status : (path status body : Bytes) → ApiError

abbrev pub api_server : Bytes
api_server = codes "https://kubernetes.default.svc"

-- a round of `targetPod` as the cluster answers it
pub record Round : Type 0 where
  pub answer : Option Response
  pub too_late : Bool
  pub ended : Bool

-- what `logf` prints, and what it appends to which file
pub record Logged : Type 0 where
  pub printed : Bytes
  pub path : Bytes
  pub appended : Bytes

-- `logf`, at a time of the clock
unfoldable pub logf : System → Watcher → (clock text : Bytes) → Logged
logf sys w clock text =
    let line = clock ++ 32 ∷ text in
    record {
      printed = line ++ 10 ∷ [];
      path = sys.join w.out (codes "watch.log");
      appended = line ++ 10 ∷ [];
    }

module _ (web : Web) (w : Watcher) where
  -- `apiGet`, with what its client answers: the request that it makes, and what it returns
  unfoldable pub api_get : (path : Bytes) → Option Response → Option Request × Result ApiError Bytes
  api_get path answer =
      if web.is_url (api_server ++ path)
      then (
        some (record { url = api_server ++ path; authorization = codes "Bearer " ++ w.token }),
        elim answer [
          | none ↦ err not_answered
          | some r ↦
              if r.code == 200
              then ok r.body
              else err (bad_status path r.status (trim_space (take 512 r.body)))
        ],
      )
      else (none, err not_built)

  unfoldable pub decoded : Result ApiError Bytes → Result ApiError (List Pod)
  decoded (err e) = err e
  decoded (ok body) = elim (web.decode body) [ none ↦ err bad_list | some pods ↦ ok pods ]

  -- `pods`
  unfoldable pub pods :
      (query : Bytes) → Option Response → Option Request × Result ApiError (List Pod)
  pods query answer =
      let (request, result) =
        api_get (codes "/api/v1/namespaces/" ++ (w.ns ++ (codes "/pods" ++ query))) answer in
      (request, decoded result)

  -- the pods that `backends` and `targetPod` see, who return the error as it is
  unfoldable pub seen : Result ApiError (List Pod) → Option (List Pod)
  seen (err e) = none
  seen (ok ps) = some ps

  -- the request of a round of `targetPod`
  unfoldable pub poll_of : Round → Poll
  poll_of r = record {
    pods = seen (pods (codes "?labelSelector=job-name%3D" ++ w.target) r.answer).1;
    too_late = r.too_late;
    ended = r.ended;
  }
