-- ===== src/Jmap/Credentials.antt =====
-- What the requests of a JMAP client (internal/jmapdrv/jmap.go) carry, and where it asks for its session.
use yarilo_loadtest.Base.{
  subst, ℕ, zero, suc, ◌≡◌, refl, sym, ap, Bool, true, false, [], ◌∷◌, ◌++◌, Option, none, some,
  Bytes, codes, All, All-append, Option-cases, Bool-cases, inl, inr, length, ◌==◌, if◌then◌else◌,
}
use yarilo_loadtest.Base.Result.{Result, ok, err}
use yarilo_loadtest.Jmap.{
  Request, Client, World, Code, ◌>>=◌, observed, perform, api_url, perform_checked, call,
  account_id, keep_session, open_session, discover, session_of, exchange, chain_name, iterate,
  iterations,
}
use yarilo_loadtest.Jmap.Checks.{
  Resource, Packages, Method, get, post, Error, no_api_url, check_method_errors,
}
use yarilo_loadtest.Jmap.Settings.{Config}
use yarilo_loadtest.Jmap.Calls.{Values, envelope, mailbox_get, chain}
use yarilo_loadtest.Jmap.Posting.{is_get, follow, answer-requests, answer-client}

-- the credentials of basic authentication
abbrev pub basic : Packages → Client → Bytes
basic p c = codes "Basic " ++ p.base64 (c.user ++ 58 ∷ c.pass)

module _ (p : Packages) (owner : Client) where
  -- A request with the owner's credentials, that fetches nothing but the session resource of its server.
  abbrev pub IsOwn : Request → Type 0
  IsOwn r =
      (r.authorization ≡ basic p owner)
      × (is_get r.method ≡ true → r.url ≡ owner.base ++ codes "/.well-known/jmap")

  -- A world whose client is the owner's, whatever its session is, and whose requests are its own.
  abbrev IsSafe : World → Type 0
  IsSafe w =
      (w.client.user ≡ owner.user)
      × (w.client.pass ≡ owner.pass)
      × (w.client.base ≡ owner.base)
      × All IsOwn w.requests

  record IsFaithful {A : Type 0} (m : Code A) : Type 0 where
    keeps : (w : World) → IsSafe w → IsSafe (m w).1

  follow-IsSafe :
      {A B : Type 0} (f : A → Code B) (q : Result Error A × World)
      → IsSafe q.1
      → ((a : A) → IsFaithful (f a))
      → IsSafe (follow f q).1
  follow-IsSafe f (ok a, w) h hf = (hf a).keeps w h
  follow-IsSafe f (err e, w) h hf = h

  bind-IsFaithful :
      {A B : Type 0} {m : Code A} {f : A → Code B}
      → IsFaithful m
      → ((a : A) → IsFaithful (f a))
      → IsFaithful (m >>= f)
  bind-IsFaithful {m = m} {f = f} hm hf = record {
    keeps = λ w h. follow-IsSafe f (m w) (hm.keeps w h) hf;
  }

  still-IsFaithful : {A : Type 0} (f : World → Result Error A) → IsFaithful (λ w. (f w, w))
  still-IsFaithful f = record { keeps = λ w h. h }

  observed-IsFaithful :
      {A : Type 0} {m : Code A} (name : Bytes) → IsFaithful m → IsFaithful (observed name m)
  observed-IsFaithful name h = record { keeps = λ w. h.keeps w }

  perform-IsSafe :
      (m : Method) (url : Bytes) (payload : Option Bytes) (w : World)
      → (is_get m ≡ true → url ≡ owner.base ++ codes "/.well-known/jmap")
      → IsSafe w
      → IsSafe (perform p m url payload w).1
  unfolding perform
  perform-IsSafe m url payload w e h =
      let r : Request = record {
        method = m;
        url = url;
        authorization = basic p w.client;
        payload = payload;
      } in
      let same = answer-client r w in
      let own : basic p w.client ≡ basic p owner = cc (h.0, h.1) in
      elim (Bool-cases (p.is_url url)) [
        | inl fine ↦
            rw (perform, fine, same, answer-requests r w)
              (h.0, h.1, h.2, All-append IsOwn w.requests (r ∷ []) h.3 ((own, e), tt))
        | inr bad ↦ rw (perform, bad) h
      ]

  perform_checked-IsFaithful : (url payload : Bytes) → IsFaithful (perform_checked p url payload)
  unfolding perform_checked
  perform_checked-IsFaithful url payload =
      let posted : IsFaithful (perform p post url (some payload)) = record {
        keeps = λ w h. perform-IsSafe post url (some payload) w (λ b. absurd (cc b)) h;
      } in
      bind-IsFaithful posted (λ body.
        bind-IsFaithful (still-IsFaithful (λ w. check_method_errors p body))
          (λ checked. still-IsFaithful (λ w. ok body)))

  call-IsFaithful :
      (s : Resource) (name : Bytes) (calls : Values) → IsFaithful (call p s name calls)
  unfolding call
  call-IsFaithful s name calls = record {
    keeps = λ w h. elim (Option-cases (p.encode (envelope calls))) [
      | inl no_text ↦ rw (call, no_text) h
      | inr (payload, text) ↦
          rw (call, text)
            ((observed-IsFaithful name
                (perform_checked-IsFaithful (api_url w.client s) payload)).keeps
              w h)
    ];
  }

  kept-IsSafe :
      (s : Resource) (w : World) (no_url : Bool) (account : Result Error Bytes)
      → IsSafe w
      → IsSafe
          (let end : Result Error Resource × World =
              if no_url then (err no_api_url, w) else elim account [
                | err e ↦ (err e, w)
                | ok id ↦
                    (ok s, record w { client = record w.client { sess = some s; account = id } })
              ] in
            end).1
  kept-IsSafe s w true account h = h
  kept-IsSafe s w false (err e) h = h
  kept-IsSafe s w false (ok id) h = h

  open_session-IsFaithful : (body : Bytes) → IsFaithful (open_session p body)
  unfolding open_session keep_session
  open_session-IsFaithful body = record {
    keeps = λ w h. elim (Option-cases (p.decode_session body)) [
      | inl nothing ↦ rw (open_session, nothing) h
      | inr (s, found) ↦
          rw (open_session, found) (kept-IsSafe s w (length s.api_url == 0) (account_id s) h)
    ];
  }

  discover-IsFaithful : IsFaithful (discover p)
  unfolding discover
  discover-IsFaithful = record {
    keeps = λ w h.
        follow-IsSafe (open_session p)
          (observed (codes "session")
            (perform p get (w.client.base ++ codes "/.well-known/jmap") none) w)
          (perform-IsSafe get (w.client.base ++ codes "/.well-known/jmap") none w
            (λ b. ap (λ (s : Bytes). s ++ codes "/.well-known/jmap") h.2) h)
          open_session-IsFaithful;
  }

  session_of-IsFaithful : IsFaithful (session_of p)
  unfolding session_of
  session_of-IsFaithful = record {
    keeps = λ w h. elim (Option-cases w.client.sess) [
      | inl none_yet ↦ rw (session_of, none_yet) (discover-IsFaithful.keeps w h)
      | inr (s, kept) ↦ rw (session_of, kept) h
    ];
  }

  exchange-IsFaithful : (c : Config) (s : Resource) → IsFaithful (exchange p c s)
  unfolding exchange
  exchange-IsFaithful c s = record {
    keeps = λ w.
        let m =
          bind-IsFaithful (call-IsFaithful s (codes "Mailbox/get") (mailbox_get w.client.account))
            (λ first.
              call-IsFaithful s (chain_name c.threads)
                (chain w.client.account c.window c.fetch_bodies c.threads)) in
        m.keeps w;
  }

  iterations-IsSafe : (c : Config) (n : ℕ) (w : World) → IsSafe w → IsSafe (iterations p n c w)
  unfolding iterations iterate
  iterations-IsSafe c zero w h = h
  iterations-IsSafe c (suc n) w h =
      iterations-IsSafe c n (iterate p c w).1
        ((bind-IsFaithful session_of-IsFaithful (exchange-IsFaithful c)).keeps w h)

-- Whatever `http.Do` returns for them and whatever session it gives, each request that a client gives to
-- `http.Do` carries the client's own credentials, and what it asks for by GET is the session resource of
-- its own server only. What net/http sends by itself to follow a redirect is not among these requests.
pub iterations-IsOwn :
    (p : Packages) (c : Config) (n : ℕ) (w : World)
    → w.requests ≡ []
    → All (IsOwn p w.client) (iterations p n c w).requests
iterations-IsOwn p c n w e =
    (iterations-IsSafe p w.client c n w
      (refl, refl, refl, subst (All (IsOwn p w.client)) (sym e) tt)).3
