-- ===== src/Stallwatch/Cluster.antt =====
-- The pods that a stall watch looks for (internal/stallwatch/stallwatch.go: backends, targetPod).
use yarilo_loadtest.Base.{
  Bool, not, ◌&&◌, ◌||◌, List, [], ◌∷◌, map, Option, none, some, Bytes, codes, keep_if,
  if◌then◌else◌,
}
use yarilo_loadtest.Base.Result.{Result, ok, err}
use yarilo_loadtest.Text.{bytes_eq, has_prefix, less}
use yarilo_loadtest.Stallwatch.Settings.{Error, no_list, no_backends, never_started, cut_off}

-- an item of `podList`
pub record Pod : Type 0 where
  pub name : Bytes
  pub uid : Bytes
  pub ip : Bytes
  pub phase : Bytes

pub record Backend : Type 0 where
  pub name : Bytes
  pub ip : Bytes
  pub uid : Bytes

unfoldable pub is_backend : Pod → Bool
is_backend p = has_prefix p.name (codes "yarilo-backend-") && not (bytes_eq p.ip [])

-- `sort.Slice` by name; the names of pods differ, so any sort gives this list
unfoldable pub insert : Backend → List Backend → List Backend
insert b [] = b ∷ []
insert b (c ∷ cs) = let rest = insert b cs in if less c.name b.name then c ∷ rest else b ∷ c ∷ cs

unfoldable pub sort : List Backend → List Backend
sort [] = []
sort (b ∷ bs) = insert b (sort bs)

-- `backends`, on what `pods` returned
unfoldable pub backends : Option (List Pod) → Result Error (List Backend)
backends none = err no_list
backends (some pods) =
    let out =
      map (λ (p : Pod). let b : Backend = record { name = p.name; ip = p.ip; uid = p.uid } in b)
        (keep_if is_backend pods) in
    elim out [ [] ↦ err no_backends | b ∷ bs ↦ ok (sort (b ∷ bs)) ]

-- the first pod that runs or has run
unfoldable pub started : List Pod → Option Bytes
started [] = none
started (p ∷ pods) =
    let rest = started pods in
    if bytes_eq p.phase (codes "Running") || bytes_eq p.phase (codes "Succeeded")
    then some p.name
    else rest

-- a round of `targetPod`: what `pods` returned, whether the deadline had passed behind it, and whether
-- the context ended while it waited
pub record Poll : Type 0 where
  pub pods : Option (List Pod)
  pub too_late : Bool
  pub ended : Bool

-- `targetPod`, over the rounds that are made at most; `none` where they are used up
unfoldable pub target_pod : List Poll → Option (Result Error Bytes)
target_pod [] = none
target_pod (p ∷ polls) =
    let rest = target_pod polls in
    elim p.pods [
      | none ↦ some (err no_list)
      | some pods ↦ elim (started pods) [
        | some name ↦ some (ok name)
        | none ↦
            if p.too_late
            then some (err never_started)
            else if p.ended
            then some (err cut_off)
            else rest
      ]
    ]
