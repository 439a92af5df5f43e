-- ===== src/Stats/Live/Counts.antt =====
-- The columns of the live table (internal/stats/live.go), as they are read under their headers.
use yarilo_loadtest.Base.{
  ◌+◌, ◌%◌, ◌≡◌, refl, sym, ap, ◌∙◌, Bool, false, List, [], ◌∷◌, if◌then◌else◌, arith, Bytes, ℤ,
  pos, ◌+ℤ◌, ◌==◌,
}
use yarilo_loadtest.Stats.{
  Command, Commands, Collector, Observation, observe, observe_all, Floats, CmdStat, summary,
  count_outcome, cancelling, record_sample,
}
use yarilo_loadtest.Stats.Live.{
  Live, new_live, errors_loop, count_in, names_loop, sort, deltas_loop, print_row, print_some, tick,
  watch,
}
use yarilo_loadtest.Stats.Live.Names.{has, shown, has-change}
use yarilo_loadtest.Stats.Live.Summed.{summary-shown}
use yarilo_loadtest.Stats.Live.Columns.{
  listed, cell, read_from, column_total, listed-choice, deltas_loop-cell, deltas_loop-prev,
  names_loop-IsNamed, count_in-absent, read_from-more, balance,
}

-- For one name: what is read of the table is what the map keeps, under the columns there are.
record IsShown (name : Bytes) (cmds : Commands) (l : Live) : Type 0 where
  read_so_far : read_from name (pos 0, []) l.out ≡ (pos (l.prev name), l.columns)
  known_listed : (k : Bytes) → l.known k ≡ listed k l.columns
  absent : has name cmds ≡ false → l.prev name ≡ 0

observe-IsShown :
    (name : Bytes) (c : Collector) (o : Observation) (l : Live)
    → IsShown name c.cmds l
    → IsShown name (observe c o).cmds l
unfolding observe
observe-IsShown name c o l h =
    let g =
      λ (cmd : Command). count_outcome o.error (cancelling c o) (record_sample o.duration cmd) in
    record {
      read_so_far = h.read_so_far;
      known_listed = h.known_listed;
      absent = λ missing. h.absent (ground (arith, missing, has-change name o.name g c.cmds));
    }

observe_all-IsShown :
    (name : Bytes) (c : Collector) (os : List Observation) (l : Live)
    → IsShown name c.cmds l
    → IsShown name (observe_all c os).cmds l
unfolding observe_all
observe_all-IsShown name c [] l h = h
observe_all-IsShown name c (o ∷ os) l h =
    observe_all-IsShown name (observe c o) os l (observe-IsShown name c o l h)

module _ (f : Floats) (name : Bytes) where
  -- a tick that saw these commands
  record IsTicked (cmds : Commands) (l : Live) : Type 0 where
    is_shown : IsShown name cmds l
    up_to_date : l.prev name ≡ count_in (shown f cmds) name

  print_row-IsTicked :
      (clock : Bytes) (cmds : Commands) (l : Live)
      → IsShown name cmds l
      → IsTicked cmds (print_row clock (shown f cmds) l)
  unfolding print_row
  print_row-IsTicked clock cmds l h =
      let stats = shown f cmds in
      let after = names_loop stats false l.columns l.known in
      let named = names_loop-IsNamed f cmds false l.columns l.known in
      let in_table = if after.0 then sort after.1 else after.1 in
      let ended = deltas_loop in_table stats l.prev in
      let here = listed name in_table in
      let known_now = named.all_listed h.known_listed in
      let sorted = λ (k : Bytes). listed-choice k after.0 after.1 in
      let same : after.0 ≡ false → in_table ≡ l.columns =
        λ stale. ap (λ b. if b then sort after.1 else after.1) stale ∙ (named.unchanged stale).1 in
      let shows : pos (l.prev name) +ℤ cell name in_table ended.0 ≡ pos (ended.1 name) =
        ap (λ d. pos (l.prev name) +ℤ d) (deltas_loop-cell name in_table stats l.prev)
        ∙ balance here (count_in stats name) (l.prev name)
        ∙ ap pos (sym (deltas_loop-prev name in_table stats l.prev)) in
      let current : ended.1 name ≡ count_in stats name = ground (
        arith,
        deltas_loop-prev name in_table stats l.prev,
        h.absent,
        count_in-absent f name cmds,
        sorted name,
        known_now name,
        named.all_known name,
      ) in
      record {
        is_shown = record {
          read_so_far =
              read_from-more name (pos (l.prev name)) l.columns in_table l.out after.0
                ((l.rows + 1) % 20 == 0) clock ended.0 (errors_loop stats (pos 0) l.prev_errors).0
                h.read_so_far same
              ∙ ap (λ (n : ℤ). (n, in_table)) shows;
          known_listed = λ k. known_now k ∙ sym (sorted k);
          absent = λ missing. current ∙ count_in-absent f name cmds missing;
        };
        up_to_date = current;
      }

  print_some-IsTicked :
      (clock : Bytes) (cmds : Commands) (l : Live)
      → IsShown name cmds l
      → IsTicked cmds (print_some clock (shown f cmds) l)
  unfolding print_some count_in
  print_some-IsTicked clock [] l h = record { is_shown = h; up_to_date = h.absent refl }
  print_some-IsTicked clock ((k, cmd) ∷ cmds) l h = print_row-IsTicked clock ((k, cmd) ∷ cmds) l h

  watch-IsTicked :
      (batches : List (Bytes × List Observation)) (c : Collector) (l : Live)
      → IsTicked c.cmds l
      → IsTicked (watch f batches c l).0.cmds (watch f batches c l).1
  unfolding watch tick
  watch-IsTicked [] c l h = h
  watch-IsTicked ((clock, os) ∷ batches) c l h =
      let now = observe_all c os in
      let seen = observe_all-IsShown name c os l h.is_shown in
      watch-IsTicked batches now (tick f clock now l)
        (rw (summary-shown f now) (print_some-IsTicked clock now.cmds l seen))

  -- Over a run whose collector is bound to it or not, whatever is observed between the ticks: when the
  -- last tick has printed, the numbers of the rows that stand under a name in the header last printed
  -- before them add up to the count that the summary has for this name, which is 0 for a name it has not.
  pub column_total-watch :
      (bound : Bool) (batches : List (Bytes × List Observation))
      → column_total name (watch f batches (record { cmds = []; bound = bound }) new_live).1.out
        ≡ pos (
            count_in
              (summary f
                (watch f batches (record { cmds = []; bound = bound }) new_live).0).commands
              name)
  unfolding count_in
  column_total-watch bound batches =
      let start : Collector = record { cmds = []; bound = bound } in
      let none_yet : IsTicked [] new_live = record {
        is_shown = record { read_so_far = refl; known_listed = λ k. refl; absent = λ h. refl };
        up_to_date = refl;
      } in
      let ended = watch f batches start new_live in
      let done = watch-IsTicked batches start new_live none_yet in
      ap (λ (r : ℤ × List Bytes). r.0) done.is_shown.read_so_far
      ∙ ap pos (
          done.up_to_date
          ∙ ap (λ (s : List (Bytes × CmdStat)). count_in s name) (sym (summary-shown f ended.0)))
