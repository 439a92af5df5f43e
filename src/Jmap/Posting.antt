-- ===== src/Jmap/Posting.antt =====
-- What a JMAP client (internal/jmapdrv/jmap.go) does besides fetching its session.
use yarilo_loadtest.Base.{
  ℕ, ◌+◌, ◌≡◌, refl, ap, ◌∙◌, Bool, true, false, List, [], ◌∷◌, ◌++◌, Option, none, some, Bytes,
  codes, arith, Option-cases, Bool-cases, inl, inr, if◌then◌else◌,
}
use yarilo_loadtest.Base.Result.{Result, ok, err}
use yarilo_loadtest.Jmap.{
  Request, Client, World, Code, ◌>>=◌, observed, answer, perform, api_url, perform_checked, call,
  keep_session, exchange, chain_name,
}
use yarilo_loadtest.Jmap.Checks.{Resource, Packages, Method, get, post, Error, check_method_errors}
use yarilo_loadtest.Jmap.Settings.{Config}
use yarilo_loadtest.Jmap.Calls.{Values, envelope, mailbox_get, chain}

abbrev pub is_get : Method → Bool
is_get get = true
is_get post = false

-- How often the session resource was asked for: nothing else is fetched by GET.
abbrev pub gets : List Request → ℕ
gets [] = 0
gets (r ∷ rs) = (if is_get r.method then 1 else 0) + gets rs

pub gets-append : (xs ys : List Request) → gets (xs ++ ys) ≡ gets xs + gets ys
gets-append [] ys = omega arith
gets-append (r ∷ xs) ys = ground (arith, gets-append xs ys)

abbrev pub has_session : Client → Bool
has_session c = elim c.sess [ none ↦ false | some s ↦ true ]

abbrev pub is_ok : {A : Type 0} → Result Error A → Bool
is_ok (ok a) = true
is_ok (err e) = false

-- Two worlds that differ in no session and in no request of a session.
abbrev pub SameSession : World → World → Type 0
SameSession w w' = (w'.client ≡ w.client) × (gets w'.requests ≡ gets w.requests)

-- Code that fetches no session and keeps the one there is.
pub record IsPosting {A : Type 0} (m : Code A) : Type 0 where
  pub posts : (w : World) → SameSession w (m w).1

abbrev pub follow : {A B : Type 0} → (A → Code B) → Result Error A × World → Result Error B × World
follow f (r, w) = elim r [ ok a ↦ f a w | err e ↦ (err e, w) ]

follow-SameSession :
    {A B : Type 0} (f : A → Code B) (w : World) (q : Result Error A × World)
    → SameSession w q.1
    → ((a : A) → IsPosting (f a))
    → SameSession w (follow f q).1
follow-SameSession f w (ok a, w') h hf =
    let after = (hf a).posts w' in (after.0 ∙ h.0, after.1 ∙ h.1)
follow-SameSession f w (err e, w') h hf = h

bind-IsPosting :
    {A B : Type 0} {m : Code A} {f : A → Code B}
    → IsPosting m
    → ((a : A) → IsPosting (f a))
    → IsPosting (m >>= f)
bind-IsPosting {m = m} {f = f} hm hf = record {
  posts = λ w. follow-SameSession f w (m w) (hm.posts w) hf;
}

still-IsPosting : {A : Type 0} (f : World → Result Error A) → IsPosting (λ w. (f w, w))
still-IsPosting f = record { posts = λ w. (refl, refl) }

observed-IsPosting :
    {A : Type 0} {m : Code A} (name : Bytes) → IsPosting m → IsPosting (observed name m)
observed-IsPosting name h = record { posts = λ w. h.posts w }

pub keep_session-kept :
    (s : Resource) (w : World)
    → is_ok (keep_session s w).0 ≡ true
    → (has_session (keep_session s w).1.client ≡ true)
      × ((keep_session s w).1.requests ≡ w.requests)
unfolding keep_session
keep_session-kept s w h = (ground (arith, h), ground (arith, h))

pub answer-requests : (r : Request) (w : World) → (answer r w).1.requests ≡ w.requests ++ r ∷ []
unfolding answer
answer-requests r w = ground arith

pub answer-client : (r : Request) (w : World) → (answer r w).1.client ≡ w.client
unfolding answer
answer-client r w = ground arith

module _ (p : Packages) where
  perform-IsPosting :
      (url : Bytes) (payload : Option Bytes) → IsPosting (perform p post url payload)
  unfolding perform
  perform-IsPosting url payload = record {
    posts = λ w.
        let r : Request = record {
          method = post;
          url = url;
          authorization = codes "Basic " ++ p.base64 (w.client.user ++ 58 ∷ w.client.pass);
          payload = payload;
        } in
        elim (Bool-cases (p.is_url url)) [
          | inl fine ↦
              rw (perform, fine)
                (
                  answer-client r w,
                  ap gets (answer-requests r w) ∙ gets-append w.requests (r ∷ []) ∙ omega arith,
                )
          | inr bad ↦ rw (perform, bad) (refl, refl)
        ];
  }

  perform_checked-IsPosting : (url payload : Bytes) → IsPosting (perform_checked p url payload)
  unfolding perform_checked
  perform_checked-IsPosting url payload =
      bind-IsPosting (perform-IsPosting url (some payload)) (λ body.
        bind-IsPosting (still-IsPosting (λ w. check_method_errors p body))
          (λ checked. still-IsPosting (λ w. ok body)))

  call-IsPosting : (s : Resource) (name : Bytes) (calls : Values) → IsPosting (call p s name calls)
  unfolding call
  call-IsPosting s name calls = record {
    posts = λ w. elim (Option-cases (p.encode (envelope calls))) [
      | inl no_text ↦ rw (call, no_text) (refl, refl)
      | inr (payload, text) ↦
          rw (call, text)
            ((observed-IsPosting name
                (perform_checked-IsPosting (api_url w.client s) payload)).posts
              w)
    ];
  }

  pub exchange-IsPosting : (c : Config) (s : Resource) → IsPosting (exchange p c s)
  unfolding exchange
  exchange-IsPosting c s = record {
    posts = λ w.
        let m =
          bind-IsPosting (call-IsPosting s (codes "Mailbox/get") (mailbox_get w.client.account))
            (λ first.
              call-IsPosting s (chain_name c.threads)
                (chain w.client.account c.window c.fetch_bodies c.threads)) in
        m.posts w;
  }
