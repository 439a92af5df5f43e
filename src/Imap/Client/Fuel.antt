-- ===== src/Imap/Client/Fuel.antt =====
-- The fuel of `readUntilTagged` (internal/imapdrv/client.go).
use yarilo_loadtest.Base.{
  ℕ, zero, suc, ◌+◌, ◌≤◌, ◌<◌, ◌≡◌, refl, List, [], ◌∷◌, ◌++◌, Option, none, some, Bytes, codes,
  arith, if◌then◌else◌, length, drop,
}
use yarilo_loadtest.Base.Result.{Result, ok, err, map_err-ok}
use yarilo_loadtest.Text.{trim_crlf, has_prefix}
use yarilo_loadtest.Net.{read_line, Session}
use yarilo_loadtest.Net.Lines.{read_line_shorter}
use yarilo_loadtest.Net.Monad.{M, ◌>>◌, fail, on_conn}
use yarilo_loadtest.Imap.Client.{
  Error, reading, discard_bytes, Linked, tagged_loop, completed, literal_size, skip_literal,
  discard, continuation,
}

-- Two ways to go on from a result that agree where there is one.
abbrev follow :
    {D A B : Type 0}
    → (A → M Error D B)
    → Result Error A × Session Error D
    → Result Error B × Session Error D
follow f (r, s) = elim r [ ok a ↦ f a s | err e ↦ (err e, s) ]

follow-same :
    {D A B : Type 0} (f g : A → M Error D B) (q : Result Error A × Session Error D)
    → ((a : A) → q.0 ≡ ok a → f a q.1 ≡ g a q.1)
    → follow f q ≡ follow g q
follow-same f g (ok a, s) h = h a refl
follow-same f g (err e, s) h = refl

length-drop-le : {A : Type 0} (n : ℕ) (xs : List A) → length (drop n xs) ≤ length xs
length-drop-le zero xs = omega arith
length-drop-le (suc n) [] = omega arith
length-drop-le (suc n) (x ∷ xs) = omega (arith, length-drop-le n xs)

module _ {S : Type 0} where
  skip_literal-shorter :
      (n : Option ℕ) (s : Session Error (Linked S))
      → length (skip_literal n s).1.conn.incoming ≤ length s.conn.incoming
  unfolding skip_literal discard discard_bytes
  skip_literal-shorter none s = omega arith
  skip_literal-shorter (some n) s = ground (arith, length-drop-le n s.conn.incoming)

  taken-shorter :
      (cmd raw : Bytes) (s : Session Error (Linked S))
      → (on_conn (reading cmd) read_line s).0 ≡ ok raw
      → length (on_conn (reading cmd) read_line s).1.conn.incoming < length s.conn.incoming
  taken-shorter cmd raw s h =
      read_line_shorter s.conn raw (map_err-ok (reading cmd) (read_line s.conn).0 raw h)

  -- a round of the loop behind its line, with what the loop does from there
  abbrev turn :
      (tag cmd : Bytes) (untagged : List Bytes)
      → (List Bytes → M Error (Linked S) (List Bytes))
      → Bytes
      → M Error (Linked S) (List Bytes)
  turn tag cmd untagged loop raw =
      let line = trim_crlf raw in
      let more = skip_literal (literal_size line) >> loop (untagged ++ drop 2 line ∷ []) in
      if has_prefix line (tag ++ 32 ∷ [])
      then completed cmd (drop (length tag + 1) line) untagged
      else if has_prefix line (codes "* ")
      then more
      else if has_prefix line (codes "+ ")
      then fail (continuation cmd)
      else loop untagged

  -- The loop that reads up to its tag does not depend on its fuel, once that is more than the bytes that
  -- are still to come.
  pub tagged_loop-fuel :
      (n m : ℕ) (tag cmd : Bytes) (untagged : List Bytes) (s : Session Error (Linked S))
      → length s.conn.incoming < n
      → length s.conn.incoming < m
      → tagged_loop n tag cmd untagged s ≡ tagged_loop m tag cmd untagged s
  unfolding tagged_loop
  tagged_loop-fuel zero m tag cmd untagged s hn hm = ground (arith, hn)
  tagged_loop-fuel (suc n) zero tag cmd untagged s hn hm = ground (arith, hm)
  tagged_loop-fuel (suc n) (suc m) tag cmd untagged s hn hm =
      follow-same (turn tag cmd untagged (tagged_loop n tag cmd))
        (turn tag cmd untagged (tagged_loop m tag cmd)) (on_conn (reading cmd) read_line s)
        (λ raw found.
          let s1 = (on_conn (reading cmd) read_line s).1 in
          let line = trim_crlf raw in
          let shorter = taken-shorter cmd raw s found in
          let s2 = (skip_literal (literal_size line) s1).1 in
          let shorter2 = skip_literal-shorter (literal_size line) s1 in
          let other =
            tagged_loop-fuel n m tag cmd untagged s1 (omega (arith, hn, shorter))
              (omega (arith, hm, shorter)) in
          let more =
            tagged_loop-fuel n m tag cmd (untagged ++ drop 2 line ∷ []) s2
              (omega (arith, hn, shorter, shorter2)) (omega (arith, hm, shorter, shorter2)) in
          ground (arith, other, more))
