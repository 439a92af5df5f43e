-- ===== src/Imap/Step/Filling.antt =====
-- How a session fills its mailbox (internal/imapdrv/driver.go: step).
use yarilo_loadtest.Base.{
  ℕ, zero, suc, ◌+◌, ◌-◌, ◌≤◌, ◌<◌, ◌≡◌, refl, ap, ◌∙◌, true, false, List, [], ◌∷◌, ◌++◌, arith,
  Bytes, length, pos, add_int, add_int_exact,
}
use yarilo_loadtest.Text.Number.{max_int}
use yarilo_loadtest.Imap.Profile.{
  Command, list, status, select, fetch, fetch2, store, delete, expunge, search_text, noop, append,
  logout, Weighted, pick,
}
use yarilo_loadtest.Imap.View.{
  State, View, selected, is_selected, is_logged_in, legal, empty_view, report, apply_untagged,
  note_append,
}
use yarilo_loadtest.Imap.View.Server.{exists_line, apply-exists_line}
use yarilo_loadtest.Imap.Step.{Choice, open_mailbox, issue, retry_loop, by_profile, held, choose}

legal-selected : (c : Command) → legal selected c ≡ true
unfolding legal is_selected is_logged_in
legal-selected list = refl
legal-selected status = refl
legal-selected select = refl
legal-selected fetch = refl
legal-selected fetch2 = refl
legal-selected store = refl
legal-selected delete = refl
legal-selected expunge = refl
legal-selected search_text = refl
legal-selected noop = refl
legal-selected append = refl
legal-selected logout = refl

retry_loop-selected :
    (rounds i : ℕ) (ws : List Weighted) (n : ℕ) (c : Command)
    → retry_loop rounds i selected ws n c ≡ c
unfolding retry_loop
retry_loop-selected zero i ws n c = refl
retry_loop-selected (suc rounds) i ws n c = rw (legal-selected c) refl

-- with a mailbox open every command is legal, so that the profile's own choice is taken
by_profile-selected : (ws : List Weighted) (n : ℕ) → by_profile selected ws n ≡ pick ws n
unfolding by_profile
by_profile-selected ws n =
    rw (retry_loop-selected (length ws) 0 ws n (pick ws n), legal-selected (pick ws n)) refl

-- A choice many times.
abbrev pub times : ℕ → Choice → List Choice
times zero c = []
times (suc k) c = c ∷ times k c

-- A session whose SELECT is answered by a view, and whose appends are acknowledged; nothing else is told.
abbrev pub after : (fresh : View) → Choice → State × View → State × View
after fresh open_mailbox q = (selected, fresh)
after fresh (issue append) q = (q.0, note_append q.1)
after fresh (issue c) q = q

module _ (t : ℕ) (ws : List Weighted) (counter : ℕ → ℕ) (fresh : View) where
  -- The choices of so many steps, where the i-th of the session takes the counter to `counter i`.
  abbrev pub choices : ℕ → State × View → ℕ → List Choice
  choices zero q i = []
  choices (suc k) q i =
      let c = choose (pos t) ws q.0 q.1 (counter i) in c ∷ choices k (after fresh c q) (i + 1)

  choose-opens :
      (s : State) (v : View) (n : ℕ)
      → is_selected s ≡ false
      → choose (pos t) ws s v n ≡ open_mailbox
  unfolding choose
  choose-opens s v n h = rw (h, choose) refl

  choose-missing :
      (v : View) (n h : ℕ) → held v ≡ pos h → h < t → choose (pos t) ws selected v n ≡ issue append
  unfolding choose is_selected
  choose-missing v n h e l = ground (arith, e, l)

  choose-full :
      (v : View) (n : ℕ)
      → held v ≡ pos t
      → t + t ≤ max_int
      → choose (pos t) ws selected v n ≡ issue (pick ws n)
  unfolding choose is_selected
  choose-full v n e l = ground (arith, e, by_profile-selected ws n, add_int_exact t t (omega arith))

  held-exact :
      (v : View) (e a : ℕ)
      → v.exists ≡ pos e
      → v.appended ≡ pos a
      → e + a ≤ max_int
      → held v ≡ pos (e + a)
  unfolding held
  held-exact v e a p q l = rw (p, q, add_int_exact e a (omega arith)) refl

  choices-selected :
      (j i : ℕ) (v : View) (e a : ℕ)
      → v.exists ≡ pos e
      → v.appended ≡ pos a
      → e + a + j ≡ t
      → t + t ≤ max_int
      → choices (suc j) (selected, v) i
        ≡ times j (issue append) ++ issue (pick ws (counter (i + j))) ∷ []
  unfolding note_append
  choices-selected zero i v e a p q f l =
      let all_held : held v ≡ pos t = held-exact v e a p q (omega arith) ∙ ap pos (omega arith) in
      ap (λ (c : Choice). c ∷ []) (choose-full v (counter i) all_held l)
      ∙ ap (λ (k : ℕ). issue (pick ws (counter k)) ∷ []) (omega arith)
  choices-selected (suc j) i v e a p q f l =
      let less = held-exact v e a p q (omega arith) in
      let now = choose-missing v (counter i) (e + a) less (omega arith) in
      let one_more = ap (λ x. add_int x (pos 1)) q ∙ add_int_exact a 1 (omega arith) in
      ap (λ c. c ∷ choices (suc j) (after fresh c (selected, v)) (i + 1)) now
      ∙ ap (◌∷◌ (issue append)) (
          choices-selected j (i + 1) (note_append v) e (a + 1) p one_more (omega arith) l
          ∙ ap (λ (k : ℕ). times j (issue append) ++ issue (pick ws (counter k)) ∷ [])
              (omega arith))

  choices-opened :
      (e : ℕ) (s : State) (v : View)
      → is_selected s ≡ false
      → fresh.exists ≡ pos e
      → fresh.appended ≡ pos 0
      → e ≤ t
      → t + t ≤ max_int
      → choices (suc (suc (t - e))) (s, v) 0
        ≡ open_mailbox
          ∷ (times (t - e) (issue append) ++ issue (pick ws (counter (t - e + 1))) ∷ [])
  choices-opened e s v h p q k l =
      ap (λ c. c ∷ choices (suc (t - e)) (after fresh c (s, v)) (0 + 1))
        (choose-opens s v (counter 0) h)
      ∙ ap (◌∷◌ open_mailbox) (
          choices-selected (t - e) 1 fresh e 0 p q (omega arith) l
          ∙ ap (λ (k : ℕ). times (t - e) (issue append) ++ issue (pick ws (counter k)) ∷ [])
              (omega arith))

-- A session without a mailbox first opens one, in which the server counts e messages. While nothing else
-- is told and its appends are acknowledged, it then appends exactly the messages that are missing to the
-- target, whatever the profile and the values of the counter that the sessions share, and goes on with
-- the choice of the profile itself; twice the target is an `int`.
pub choices-fill :
    (t e : ℕ) (ws : List Weighted) (counter : ℕ → ℕ) (mailbox : Bytes) (s : State) (v : View)
    → is_selected s ≡ false
    → e ≤ t
    → t + t ≤ max_int
    → choices t ws counter
        (apply_untagged (exists_line e ∷ []) (empty_view mailbox))
        (suc (suc (t - e)))
        (s, v)
        0
      ≡ open_mailbox ∷ (times (t - e) (issue append) ++ issue (pick ws (counter (t - e + 1))) ∷ [])
unfolding apply_untagged report
choices-fill t e ws counter mailbox s v h k l =
    let known = apply-exists_line e (empty_view mailbox) (omega arith) in
    choices-opened t ws counter (apply_untagged (exists_line e ∷ []) (empty_view mailbox)) e s v h
      (ap (λ (u : View). u.exists) known) (ap (λ (u : View). u.appended) known) k l
