-- ===== src/Imap/Profile/Tests.antt =====
-- Profiles at concrete inputs.
use yarilo_loadtest.Base.{◌≡◌, refl, [], ◌∷◌, map, arith, codes}
use yarilo_loadtest.Base.Result.{ok, err}
use yarilo_loadtest.Text.{less, bytes_eq, cut, split, to_lower, trim_left, trim_right, trim_space}
use yarilo_loadtest.Text.Number.{atoi}
use yarilo_loadtest.Imap.Profile.{
  weights, total, pick, default_profile, zero_profile, fetch, all_zero, assign, parse_part,
  parse_loop, is_zero_profile, parse_profile, insert, sort, name, weigh, append, Weighted,
}
use yarilo_loadtest.Imap.Profile.Pick.{occurrences, is_choice}
use yarilo_loadtest.Text.Joined.{join_commas}
use yarilo_loadtest.Imap.Profile.Written.{written, profile_of, parse_profile-written}
use yarilo_loadtest.Imap.Profile.Mix.{weight_in, pick-weights}

pick-weights_example :
    occurrences
      (λ n. is_choice fetch (pick (weights default_profile) n))
      (total (weights default_profile))
      3
    ≡ weight_in default_profile fetch
unfolding total weights sort insert less name
pick-weights_example = pick-weights default_profile fetch 3 (omega arith) (omega arith)

parsed :
    (parse_profile (codes " Fetch=40, list=1") ≡ ok (record zero_profile { fetch = 40; list = 1 }))
    × (parse_profile (codes "list=0") ≡ err all_zero)
unfolding parse_profile parse_loop parse_part assign is_zero_profile bytes_eq cut split to_lower
    trim_left trim_right trim_space atoi
parsed = (refl, refl)

abbrev appending : Weighted
appending = weigh append 7

parse_profile-written_example :
    parse_profile (join_commas (map written (weigh fetch 40 ∷ appending ∷ weigh fetch 2 ∷ [])))
    ≡ ok (profile_of (weigh fetch 40 ∷ appending ∷ weigh fetch 2 ∷ []) zero_profile)
parse_profile-written_example =
    parse_profile-written (weigh fetch 40) (appending ∷ weigh fetch 2 ∷ []) append (omega arith)
      (omega arith)

-- the last assignment counts
reassigned :
    profile_of (weigh fetch 40 ∷ appending ∷ weigh fetch 2 ∷ []) zero_profile
    ≡ record zero_profile { fetch = 2; append = 7 }
reassigned = refl
