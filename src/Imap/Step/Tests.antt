-- ===== src/Imap/Step/Tests.antt =====
-- Steps of a session at concrete inputs.
use yarilo_loadtest.Base.{
  ◌+◌, ◌≤◌, ◌≡◌, refl, List, [], ◌∷◌, ◌++◌, none, codes, pos, add_int, sub_int, ◌^◌, arith, ◌+ℤ◌,
  ◌-ℤ◌,
}
use yarilo_loadtest.Text.Number.{print_nat, print_int}
use yarilo_loadtest.Imap.Profile.{Weighted, weigh, pick, pick_loop, total, fetch, append, expunge}
use yarilo_loadtest.Imap.View.{
  View, empty_view, apply_untagged, selected, authenticated, legal, is_selected,
}
use yarilo_loadtest.Imap.Step.{
  issue, open_mailbox, retry_loop, by_profile, held, choose, at_least_one, range_cmd,
}
use yarilo_loadtest.Imap.View.Server.{exists_line}
use yarilo_loadtest.Imap.Step.Filling.{choices, times, choices-fill}
use yarilo_loadtest.Imap.Step.Window.{window_start, window_size, range_cmd-window}

abbrev fifty : View
fifty = record {
  mailbox = codes "INBOX";
  exists = pos 50;
  baseline = pos 50;
  appended = pos 1;
  mismatch = none;
}

abbrev fetches : List Weighted
fetches = weigh fetch 2 ∷ []

choices-fill_example :
    choices 3 fetches
      (λ i. i + 7)
      (apply_untagged (exists_line 1 ∷ []) (empty_view (codes "INBOX")))
      4
      (authenticated, fifty)
      0
    ≡ open_mailbox ∷ (times 2 (issue append) ++ issue (pick fetches 10) ∷ [])
unfolding is_selected
choices-fill_example =
    choices-fill 3 1 fetches (λ i. i + 7) (codes "INBOX") authenticated fifty refl (omega arith)
      (omega arith)

range_cmd-window_example :
    (range_cmd fifty (codes "FETCH") (codes "FLAGS")
      ≡ codes "FETCH"
        ++ 32 ∷ (print_nat (window_start 50) ++ 58 ∷ (print_nat 50 ++ 32 ∷ codes "FLAGS")))
    × (1 ≤ window_start 50)
    × (window_start 50 ≤ 50)
    × (51 ≡ window_start 50 + window_size 50)
range_cmd-window_example =
    range_cmd-window fifty (codes "FETCH") (codes "FLAGS") 50 refl (omega arith) (omega arith)

-- there is no message 1 in an empty mailbox
empty_range :
    range_cmd (record fifty { exists = pos 0 }) (codes "FETCH") (codes "FLAGS")
    ≡ codes "FETCH 1:1 FLAGS"
unfolding range_cmd at_least_one add_int sub_int ◌+ℤ◌ ◌-ℤ◌ print_int print_nat
empty_range = refl

-- twice a target that is too large wraps round, and everything looks like too much
wrapped_target :
    choose (pos (2 ^ 62)) fetches selected (record fifty { exists = pos (2 ^ 62) }) 3
    ≡ issue expunge
unfolding choose is_selected held add_int ◌+ℤ◌
wrapped_target = refl

steady :
    (choose (pos 52) fetches selected fifty 3 ≡ issue append)
    × (choose (pos 25) fetches selected fifty 3 ≡ issue expunge)
    × (choose (pos 25) fetches authenticated fifty 3 ≡ open_mailbox)
unfolding choose is_selected held add_int ◌+ℤ◌
steady = (refl, refl, refl)

newest : range_cmd fifty (codes "FETCH") (codes "FLAGS") ≡ codes "FETCH 31:50 FLAGS"
unfolding range_cmd at_least_one add_int sub_int ◌+ℤ◌ ◌-ℤ◌ print_int print_nat
newest = refl

drawn : by_profile selected fetches 1 ≡ fetch
unfolding by_profile retry_loop pick pick_loop total legal is_selected
drawn = refl
