-- ===== src/Jmap/Discovery.antt =====
-- When a JMAP client (internal/jmapdrv/jmap.go) fetches the session resource.
use yarilo_loadtest.Base.{
  ℕ, zero, suc, ◌+◌, ◌≡◌, refl, ap, ◌∙◌, true, [], ◌∷◌, ◌++◌, Option, none, some, Bytes, codes,
  arith, Option-cases, Bool-cases, inl, inr, if◌then◌else◌,
}
use yarilo_loadtest.Base.Result.{Result, ok, err}
use yarilo_loadtest.Jmap.{
  Request, Client, World, observed, perform, open_session, discover, session_of, exchange, iterate,
  iterations,
}
use yarilo_loadtest.Jmap.Checks.{Resource, Packages, get, Error}
use yarilo_loadtest.Jmap.Settings.{Config}
use yarilo_loadtest.Jmap.Posting.{
  gets, gets-append, has_session, is_ok, follow, keep_session-kept, answer-requests,
  exchange-IsPosting,
}

module _ (p : Packages) where
  perform-fetched :
      (url : Bytes) (w : World)
      → is_ok (perform p get url none w).0 ≡ true
      → gets (perform p get url none w).1.requests ≡ gets w.requests + 1
  unfolding perform
  perform-fetched url w h = elim (Bool-cases (p.is_url url)) [
    | inl fine ↦
        let r : Request = record {
          method = get;
          url = url;
          authorization = codes "Basic " ++ p.base64 (w.client.user ++ 58 ∷ w.client.pass);
          payload = none;
        } in
        rw (perform, fine) (ap gets (answer-requests r w) ∙ gets-append w.requests (r ∷ []))
    | inr bad ↦ ground (arith, h, bad)
  ]

  open_session-kept :
      (body : Bytes) (w : World)
      → is_ok (open_session p body w).0 ≡ true
      → (has_session (open_session p body w).1.client ≡ true)
        × ((open_session p body w).1.requests ≡ w.requests)
  unfolding open_session
  open_session-kept body w h = elim (Option-cases (p.decode_session body)) [
    | inl no_json ↦ ground (arith, h, no_json)
    | inr (s, json) ↦ rw (open_session, json) (keep_session-kept s w (ground (arith, h, json)))
  ]

  -- a client that has just fetched its session, `before` requests for one later
  abbrev Fetched : ℕ → World → Type 0
  Fetched before w = (has_session w.client ≡ true) × (gets w.requests ≡ before + 1)

  open_session-Fetched :
      (before : ℕ) (q : Result Error Bytes × World)
      → (is_ok q.0 ≡ true → gets q.1.requests ≡ before + 1)
      → is_ok (follow (open_session p) q).0 ≡ true
      → Fetched before (follow (open_session p) q).1
  open_session-Fetched before (ok body, w) sent h =
      let kept = open_session-kept body w h in (kept.0, ap gets kept.1 ∙ sent refl)
  open_session-Fetched before (err e, w) sent h = cc

  discover-Fetched :
      (w : World) → is_ok (discover p w).0 ≡ true → Fetched (gets w.requests) (discover p w).1
  unfolding discover
  discover-Fetched w h =
      let url = w.client.base ++ codes "/.well-known/jmap" in
      open_session-Fetched (gets w.requests) (observed (codes "session") (perform p get url none) w)
        (perform-fetched url w) h

  -- how often a client still has to fetch its session
  abbrev pub missing : Client → ℕ
  missing c = if has_session c then 0 else 1

  has_session-had :
      (w : World) (s : Resource) → w.client.sess ≡ some s → has_session w.client ≡ true
  has_session-had w s h = ground (arith, h)

  session_of-had : (w : World) (s : Resource) → w.client.sess ≡ some s → session_of p w ≡ (ok s, w)
  unfolding session_of
  session_of-had w s h =
      let choose : Option Resource → Result Error Resource × World =
        λ o. elim o [ some s ↦ (ok s, w) | none ↦ discover p w ] in
      ap choose h

  session_of-Fetched :
      (w : World)
      → is_ok (session_of p w).0 ≡ true
      → (has_session (session_of p w).1.client ≡ true)
        × (gets (session_of p w).1.requests ≡ gets w.requests + missing w.client)
  unfolding session_of
  session_of-Fetched w h = elim (Option-cases w.client.sess) [
    | inl no_session ↦
        rw (session_of, no_session) (discover-Fetched w (ground (arith, h, no_session)))
    | inr (s, session) ↦
        let had = session_of-had w s session in
        (
          ap (λ (q : Result Error Resource × World). has_session q.1.client) had
              ∙ has_session-had w s session,
          ground (
            arith,
            has_session-had w s session,
            ap (λ (q : Result Error Resource × World). gets q.1.requests) had,
          ),
        )
  ]

  exchange-Fetched :
      (c : Config) (n : ℕ) (q : Result Error Resource × World)
      → (is_ok q.0 ≡ true → (has_session q.1.client ≡ true) × (gets q.1.requests ≡ n))
      → is_ok (follow (exchange p c) q).0 ≡ true
      → (has_session (follow (exchange p c) q).1.client ≡ true)
        × (gets (follow (exchange p c) q).1.requests ≡ n)
  exchange-Fetched c n (ok s, w) found h =
      let after = (exchange-IsPosting p c s).posts w in
      (ap has_session after.0 ∙ (found refl).0, after.1 ∙ (found refl).1)
  exchange-Fetched c n (err e, w) found h = cc

  iterate-kept :
      (c : Config) (w : World)
      → has_session w.client ≡ true
      → (has_session (iterate p c w).1.client ≡ true)
        × (gets (iterate p c w).1.requests ≡ gets w.requests)
  unfolding iterate
  iterate-kept c w h = elim (Option-cases w.client.sess) [
    | inl no_session ↦ ground (arith, h, no_session)
    | inr (s, session) ↦
        let after = (exchange-IsPosting p c s).posts w in
        let run : iterate p c w ≡ exchange p c s w =
          ap (follow (exchange p c)) (session_of-had w s session) in
        (
          ap (λ (q : Result Error Bytes × World). has_session q.1.client) run
              ∙ ap has_session after.0
              ∙ h,
          ap (λ (q : Result Error Bytes × World). gets q.1.requests) run ∙ after.1,
        )
  ]

  iterations-gets :
      (n : ℕ) (c : Config) (w : World)
      → has_session w.client ≡ true
      → gets (iterations p n c w).requests ≡ gets w.requests
  unfolding iterations
  iterations-gets zero c w h = refl
  iterations-gets (suc n) c w h =
      let kept = iterate-kept c w h in iterations-gets n c (iterate p c w).1 kept.0 ∙ kept.1

  -- When an iteration of a client succeeds, it has asked for the session once if the client had none,
  -- and not at all if it had one. No iteration after it, whether it succeeds or not, asks again.
  pub iterations-discovery :
      (c : Config) (w : World) (n : ℕ)
      → is_ok (iterate p c w).0 ≡ true
      → gets (iterations p n c (iterate p c w).1).requests ≡ gets w.requests + missing w.client
  unfolding iterate
  iterations-discovery c w n h =
      let found =
        exchange-Fetched c (gets w.requests + missing w.client) (session_of p w)
          (session_of-Fetched w) h in
      iterations-gets n c (iterate p c w).1 found.0 ∙ found.1
