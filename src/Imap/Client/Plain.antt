-- ===== src/Imap/Client/Plain.antt =====
-- Client code (internal/imapdrv/client.go) that leaves the reports to the statistics alone.
use yarilo_loadtest.Base.{
  ℕ, zero, suc, ◌+◌, ◌||◌, ◌≡◌, refl, ◌∙◌, Bool, true, false, List, [], ◌∷◌, ◌++◌, Option, none,
  some, Bytes, codes, if◌then◌else◌, length, drop,
}
use yarilo_loadtest.Base.Result.{Result, ok, err, map_err}
use yarilo_loadtest.Text.{trim_space, trim_crlf, has_prefix, crlf}
use yarilo_loadtest.Net.{read_line, write, IoError, Conn, Session}
use yarilo_loadtest.Net.Monad.{M, follow, ◌>>=◌, return, fail, on_shared, on_conn, failure_of}
use yarilo_loadtest.Imap.Client.{
  Error, mismatched, discarding, reading, discard_bytes, Linked, tagged_loop, read_until_tagged,
  perform, completed, append_message, append_literal, literal_size, skip_literal, discard,
  continuation, writing, next_tag, append_writing, declined, append_continuation, append_body,
  append_end, append_refused, append_line, greet, login, greeting, greeting_refused,
}

-- What an error counts for: a mismatch is found behind the report, and counts for nothing.
abbrev pub blamed : Error → Option Error
blamed (mismatched mailbox m) = none
blamed e = some e

abbrev pub counted : {A : Type 0} → Result Error A → Option Error
counted (ok a) = none
counted (err e) = blamed e

module _ {D : Type 0} where
  -- a result, and the session behind it, of code that reported nothing and failed with nothing that a
  -- report would not count
  abbrev pub Keeps : {A : Type 0} → Session Error D → Result Error A × Session Error D → Type 0
  Keeps s (r, s') = (s'.samples ≡ s.samples) × (counted r ≡ failure_of r)

  -- Code of that kind.
  pub record IsPlain {A : Type 0} (m : M Error D A) : Type 0 where
    pub keeps : (s : Session Error D) → Keeps s (m s)

  follow-Keeps :
      {A B : Type 0} (f : A → M Error D B) (s : Session Error D)
      (p : Result Error A × Session Error D)
      → Keeps s p
      → ((a : A) → IsPlain (f a))
      → Keeps s (follow f p)
  follow-Keeps f s (ok a, s') h hf = let after = (hf a).keeps s' in (after.0 ∙ h.0, after.1)
  follow-Keeps f s (err e, s') h hf = h

  pub return-IsPlain : {A : Type 0} (a : A) → IsPlain (return a)
  return-IsPlain a = record { keeps = λ s. (refl, refl) }

  pub fail-IsPlain : {A : Type 0} (e : Error) → blamed e ≡ some e → IsPlain (fail {A = A} e)
  fail-IsPlain e h = record { keeps = λ s. (refl, h) }

  pub bind-IsPlain :
      {A B : Type 0} {m : M Error D A} {f : A → M Error D B}
      → IsPlain m
      → ((a : A) → IsPlain (f a))
      → IsPlain (m >>= f)
  bind-IsPlain {m = m} {f = f} hm hf = record {
    keeps = λ s. follow-Keeps f s (m s) (hm.keeps s) hf;
  }

  pub on_shared-IsPlain : {A : Type 0} (f : D → A × D) → IsPlain (on_shared f)
  on_shared-IsPlain f = record { keeps = λ s. (refl, refl) }

  wrap-Keeps :
      {A : Type 0} (wrap : IoError → Error) (s : Session Error D) (p : Result IoError A × Conn)
      → ((e : IoError) → blamed (wrap e) ≡ some (wrap e))
      → Keeps s (map_err wrap p.0, record s { conn = p.1 })
  wrap-Keeps wrap s (ok a, c) h = (refl, refl)
  wrap-Keeps wrap s (err e, c) h = (refl, h e)

  pub on_conn-IsPlain :
      {A : Type 0} (wrap : IoError → Error) (io : Conn → Result IoError A × Conn)
      → ((e : IoError) → blamed (wrap e) ≡ some (wrap e))
      → IsPlain (on_conn wrap io)
  on_conn-IsPlain wrap io h = record { keeps = λ s. wrap-Keeps wrap s (io s.conn) h }

  pub if-IsPlain :
      {A : Type 0} {m k : M Error D A} (b : Bool)
      → IsPlain m
      → IsPlain k
      → IsPlain (if b then m else k)
  if-IsPlain true hm hk = hm
  if-IsPlain false hm hk = hk

module _ {S : Type 0} where
  skip_literal-IsPlain : (n : Option ℕ) → IsPlain {D = Linked S} (skip_literal n)
  unfolding skip_literal discard
  skip_literal-IsPlain none = return-IsPlain tt
  skip_literal-IsPlain (some n) = on_conn-IsPlain discarding (discard_bytes n) (λ e. refl)

  completed-IsPlain :
      (cmd rest : Bytes) (untagged : List Bytes)
      → IsPlain {D = Linked S} (completed cmd rest untagged)
  unfolding completed
  completed-IsPlain cmd rest untagged =
      if-IsPlain (has_prefix rest (codes "OK")) (return-IsPlain untagged)
        (fail-IsPlain (declined cmd rest) refl)

  tagged_loop-IsPlain :
      (fuel : ℕ) (tag cmd : Bytes) (untagged : List Bytes)
      → IsPlain {D = Linked S} (tagged_loop fuel tag cmd untagged)
  unfolding tagged_loop
  tagged_loop-IsPlain zero tag cmd untagged = return-IsPlain untagged
  tagged_loop-IsPlain (suc fuel) tag cmd untagged =
      bind-IsPlain (on_conn-IsPlain (reading cmd) read_line (λ e. refl)) (λ raw.
        let line = trim_crlf raw in
        let more =
          bind-IsPlain (skip_literal-IsPlain (literal_size line))
            (λ _. tagged_loop-IsPlain fuel tag cmd (untagged ++ drop 2 line ∷ [])) in
        if-IsPlain (has_prefix line (tag ++ 32 ∷ []))
          (completed-IsPlain cmd (drop (length tag + 1) line) untagged)
          (if-IsPlain (has_prefix line (codes "* ")) more (
            if-IsPlain (has_prefix line (codes "+ ")) (fail-IsPlain (continuation cmd) refl)
              (tagged_loop-IsPlain fuel tag cmd untagged))))

  read_until_tagged-IsPlain : (tag cmd : Bytes) → IsPlain {D = Linked S} (read_until_tagged tag cmd)
  unfolding read_until_tagged
  read_until_tagged-IsPlain tag cmd = record {
    keeps = λ s. (tagged_loop-IsPlain (suc (length s.conn.incoming)) tag cmd []).keeps s;
  }

  pub perform-IsPlain : (cmd : Bytes) → IsPlain {D = Linked S} (perform cmd)
  unfolding perform
  perform-IsPlain cmd = bind-IsPlain (on_shared-IsPlain next_tag) (λ tag.
      bind-IsPlain (on_conn-IsPlain (writing cmd) (write (tag ++ 32 ∷ (cmd ++ crlf))) (λ e. refl))
        (λ _. read_until_tagged-IsPlain tag cmd))

  pub login-IsPlain : (user pass : Bytes) → IsPlain {D = Linked S} (login user pass)
  unfolding login
  login-IsPlain user pass = perform-IsPlain _

  pub greet-IsPlain : IsPlain {D = Linked S} greet
  unfolding greet
  greet-IsPlain = bind-IsPlain (on_conn-IsPlain greeting read_line (λ e. refl)) (λ line.
      if-IsPlain (has_prefix line (codes "* OK") || has_prefix line (codes "* PREAUTH"))
        (return-IsPlain tt) (fail-IsPlain (greeting_refused (trim_space line)) refl))

  append_literal-IsPlain :
      (tag body line : Bytes) → IsPlain {D = Linked S} (append_literal tag body line)
  unfolding append_literal
  append_literal-IsPlain tag body line =
      if-IsPlain (has_prefix line (codes "+"))
        (bind-IsPlain (on_conn-IsPlain append_body (write body) (λ e. refl)) (λ _.
          bind-IsPlain (on_conn-IsPlain append_end (write crlf) (λ e. refl))
            (λ _. read_until_tagged-IsPlain tag (codes "APPEND"))))
        (fail-IsPlain (append_refused (trim_space line)) refl)

  pub append_message-IsPlain :
      (mailbox body : Bytes) → IsPlain {D = Linked S} (append_message mailbox body)
  unfolding append_message
  append_message-IsPlain mailbox body = bind-IsPlain (on_shared-IsPlain next_tag) (λ tag.
      bind-IsPlain
        (on_conn-IsPlain append_writing (write (append_line tag mailbox (length body))) (λ e. refl))
        (λ _.
          bind-IsPlain (on_conn-IsPlain append_continuation read_line (λ e. refl))
            (append_literal-IsPlain tag body)))
