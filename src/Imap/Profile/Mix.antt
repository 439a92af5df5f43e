-- ===== src/Imap/Profile/Mix.antt =====
-- The list that `weights` makes of a profile.
use yarilo_loadtest.Base.{
  ℕ, ◌^◌, ◌<◌, ◌≡◌, refl, ◌∙◌, List, [], ◌∷◌, arith, keep_if, ltb, Bool-cases, inl, inr,
}
use yarilo_loadtest.Text.{less, bytes_eq}
use yarilo_loadtest.Imap.Profile.{
  Command, list, status, select, fetch, fetch2, store, delete, expunge, search_text, noop, append,
  logout, name, Profile, Weighted, table, insert, sort, weights, total, pick,
}
use yarilo_loadtest.Imap.Profile.Pick.{weight_of, occurrences, is_choice, pick_proportions}

-- The weight that a profile gives to a command.
abbrev pub weight_in : Profile → Command → ℕ
weight_in p list = p.list
weight_in p status = p.status
weight_in p select = p.select
weight_in p fetch = p.fetch
weight_in p fetch2 = p.fetch2
weight_in p store = p.store
weight_in p delete = p.delete
weight_in p expunge = p.expunge
weight_in p search_text = p.search_text
weight_in p noop = p.noop
weight_in p append = p.append
weight_in p logout = p.logout

weight_of-insert :
    (c : Command) (w : Weighted) (ws : List Weighted)
    → weight_of c (insert w ws) ≡ weight_of c (w ∷ ws)
unfolding insert
weight_of-insert c w [] = refl
weight_of-insert c w (v ∷ vs) = elim (Bool-cases (less (name v.cmd) (name w.cmd))) [
  | inl before ↦ rw before (omega (arith, weight_of-insert c w vs))
  | inr after ↦ rw after
]

weight_of-sort : (c : Command) (ws : List Weighted) → weight_of c (sort ws) ≡ weight_of c ws
unfolding sort
weight_of-sort c [] = refl
weight_of-sort c (w ∷ ws) = omega (arith, weight_of-insert c w (sort ws), weight_of-sort c ws)

weight_of-keep_if :
    (c : Command) (ws : List Weighted)
    → weight_of c (keep_if (λ w. ltb 0 w.weight) ws) ≡ weight_of c ws
weight_of-keep_if c [] = refl
weight_of-keep_if c (w ∷ ws) = ground (arith, weight_of-keep_if c ws)

weight_of-table : (c : Command) (p : Profile) → weight_of c (table p) ≡ weight_in p c
unfolding bytes_eq
weight_of-table list p = omega arith
weight_of-table _ p = omega arith

-- Every command has in the list the weight that the profile gives it, zero included.
pub weight_of-weights : (c : Command) (p : Profile) → weight_of c (weights p) ≡ weight_in p c
unfolding weights
weight_of-weights c p =
    weight_of-sort c (keep_if (λ w. ltb 0 w.weight) (table p))
    ∙ weight_of-keep_if c (table p)
    ∙ weight_of-table c p

-- At consecutive values of its counter, as many as the weights add up to, `pick` returns each command as
-- often as the profile weighs it, and one of weight zero never, from whatever value on. The weights add
-- up to a positive `int`.
pub pick-weights :
    (p : Profile) (c : Command) (start : ℕ)
    → 0 < total (weights p)
    → total (weights p) < 2 ^ 63
    → occurrences (λ n. is_choice c (pick (weights p) n)) (total (weights p)) start ≡ weight_in p c
pick-weights p c start h k = pick_proportions (weights p) c start h k ∙ weight_of-weights c p
