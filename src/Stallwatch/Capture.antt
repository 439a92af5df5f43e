-- ===== src/Stallwatch/Capture.antt =====
-- What a stall watch captures (internal/stallwatch/stallwatch.go: capture, save, cpuStat).
use yarilo_loadtest.Base.{
  ℕ, ◌*◌, List, [], ◌∷◌, ◌++◌, map, Option, none, some, Bytes, codes, length, take, leb, ◌==◌,
  if◌then◌else◌, ℤ, pos, ◌+ℤ◌,
}
use yarilo_loadtest.Text.Number.{print_int}
use yarilo_loadtest.Stallwatch.Settings.{System, Watcher, second}
use yarilo_loadtest.Stallwatch.Cluster.{Backend}

-- what a watch does to the outside
pub data Action : Type 0 where
  save : (url path : Bytes) (timeout : ℤ) → Action
  copy : (path content : Bytes) → Action
  log : Bytes → Action

-- `strings.ReplaceAll(uid, "-", "_")`
unfoldable pub underscored : Bytes → Bytes
underscored uid = map (λ c. if c == b'-' then b'_' else c) uid

-- the patterns of `cpuStat`, with the uid in its two spellings
unfoldable pub stat_patterns : (uid : Bytes) → List Bytes
stat_patterns uid =
    let slice = λ (id : Bytes).
      codes "/host/sys/fs/cgroup/kubepods.slice/*/*pod" ++ (id ++ codes ".slice/*/cpu.stat") in
    let plain =
      λ (id : Bytes). codes "/host/sys/fs/cgroup/kubepods/*/pod" ++ (id ++ codes "/*/cpu.stat") in
    slice (underscored uid) ∷ slice uid ∷ plain (underscored uid) ∷ plain uid ∷ []

-- `truncate`
unfoldable pub truncate : Bytes → ℕ → Bytes
truncate s n = if leb (length s) n then s else take n s

module _ (sys : System) (w : Watcher) where
  unfoldable pub first_readable : List Bytes → Option Bytes
  first_readable [] = none
  first_readable (path ∷ paths) =
      let rest = first_readable paths in elim (sys.read_file path) [ some b ↦ some b | none ↦ rest ]

  unfoldable pub first_hit : (patterns : List Bytes) → Option Bytes
  first_hit [] = none
  first_hit (pattern ∷ patterns) =
      let rest = first_hit patterns in
      elim (first_readable (sys.glob pattern)) [ some b ↦ some b | none ↦ rest ]

  -- `cpuStat`
  unfoldable pub cpu_stat : (uid path : Bytes) → List Action
  cpu_stat uid path = elim (first_hit (stat_patterns uid)) [ none ↦ [] | some b ↦ copy path b ∷ [] ]

  -- the address of a page of a backend's telemetry
  unfoldable pub page : Backend → Bytes → Bytes
  page b path = codes "http://" ++ (b.ip ++ 58 ∷ (w.telemetry ++ path))

  abbrev pub minute : ℤ
  minute = pos (60 * second)

  -- the loop of `capture`
  unfoldable pub capture_loop : (tag : Bytes) → List Backend → List Action
  capture_loop tag [] = []
  capture_loop tag (b ∷ bs) =
      let base = sys.join w.out (tag ++ b'-' ∷ b.name) in
      save (page b (codes "/debug/pprof/goroutine?debug=2")) (base ++ codes "-goroutine.txt") minute
      ∷ save (page b (codes "/metrics")) (base ++ codes "-metrics.txt") minute
      ∷ (cpu_stat b.uid (base ++ codes "-cpu.stat") ++ capture_loop tag bs)

  -- `capture`; `first` is the head of the backends
  unfoldable pub capture : (tag : Bytes) (first : Backend) → List Backend → List Action
  capture tag first rest =
      capture_loop tag (first ∷ rest)
      ++ (save
            (page first
              (codes "/debug/pprof/profile?seconds=" ++ print_int (sys.whole_seconds w.profile)))
            (sys.join w.out (tag ++ b'-' ∷ (first.name ++ codes "-cpu.pb.gz")))
            (w.profile +ℤ pos (30 * second))
          ∷ log (codes "captured " ++ tag)
          ∷ [])
