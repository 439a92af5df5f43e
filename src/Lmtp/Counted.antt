-- ===== src/Lmtp/Counted.antt =====
-- A worker's deliveries (internal/lmtp/lmtp.go: Deliver) one after another, and what the summary
-- (internal/stats/stats.go) says of them.
use yarilo_loadtest.Base.{
  ℕ, zero, suc, ◌+◌, ◌*◌, ◌≡◌, refl, ap, ap₂, subst, ◌∙◌, sym, Bool, not, ◌&&◌, List, [], ◌∷◌, ◌++◌,
  map, none, some, arith, Bytes, codes, length, append_assoc, append-nil,
}
use yarilo_loadtest.Text.{bytes_eq}
use yarilo_loadtest.Corpus.{Source}
use yarilo_loadtest.Net.{Conn, Session}
use yarilo_loadtest.Net.Script.{success}
use yarilo_loadtest.Lmtp.{Config, Error, Shared, take_loop, fan_out, next_recipients, deliver_to}
use yarilo_loadtest.Lmtp.Commands.{Answers, IsAccepting, conversation}
use yarilo_loadtest.Lmtp.Delivery.{delivery_names, deliver_to-accepted}
use yarilo_loadtest.Stats.{Floats, new, bind_run, observe_all, summary}
use yarilo_loadtest.Stats.Totals.{summary_counts, one_if, failed, tally}
use yarilo_loadtest.Stats.Table.{stat_of}
use yarilo_loadtest.Stats.Sessions.{
  observations, summary-count, mentions, mentions-append, tally-observations, tally_unfailed,
}
use mathlib.Core.List.{map-append}

length-take_loop :
    (n i first : ℕ) (recipients : List Bytes) → length (take_loop n i first recipients) ≡ n
unfolding take_loop
length-take_loop zero i first recipients = refl
length-take_loop (suc n) i first recipients = ap suc (length-take_loop n (i + 1) first recipients)

length-next_recipients : (c : Config) (seq : ℕ) → length (next_recipients c seq).0 ≡ fan_out c
unfolding next_recipients
length-next_recipients c seq = length-take_loop (fan_out c) 0 _ c.recipients

module _ (src : Source) (c : Config) where
  -- one delivery over each connection
  abbrev pub deliver_each : List Conn → Session Error (Shared src) → Session Error (Shared src)
  deliver_each [] s = s
  deliver_each (conn ∷ conns) s = deliver_each conns (deliver_to src c (some conn) s).1

  -- A connection to a server that accepts the whole of the delivery that begins at a counter.
  pub record Accepts (conn : Conn) (seq : ℕ) : Type 0 where
    pub answers : Answers
    pub rest : Bytes
    pub unbroken : conn.writes_left ≡ none
    pub says : conn.incoming ≡ conversation answers ++ rest
    pub accepting : IsAccepting (length (next_recipients c seq).0) answers

  abbrev pub AllAccept : List Conn → ℕ → Type 0
  AllAccept [] seq = Unit {0}
  AllAccept (conn ∷ conns) seq = Accepts conn seq × AllAccept conns (next_recipients c seq).1

  -- the names under which the deliveries report
  abbrev names_of : List Conn → ℕ → List Bytes
  names_of [] seq = []
  names_of (conn ∷ conns) seq =
      (codes "connect" ∷ delivery_names (next_recipients c seq).0)
      ++ names_of conns (next_recipients c seq).1

  deliver_each-samples :
      (conns : List Conn) (s : Session Error (Shared src))
      → AllAccept conns s.shared.seq
      → (deliver_each conns s).samples ≡ s.samples ++ map success (names_of conns s.shared.seq)
  deliver_each-samples [] s h = sym (append-nil s.samples)
  deliver_each-samples (conn ∷ conns) s h =
      let names = codes "connect" ∷ delivery_names (next_recipients c s.shared.seq).0 in
      let more = names_of conns (next_recipients c s.shared.seq).1 in
      let here =
        deliver_to-accepted src c conn h.0.answers s h.0.rest h.0.unbroken h.0.says h.0.accepting in
      let seq_here = ap (λ r. r.1.shared.seq) here in
      deliver_each-samples conns (deliver_to src c (some conn) s).1
        (subst (AllAccept conns) (sym seq_here) h.1)
      ∙ ap₂ (λ l n. l ++ map success (names_of conns n)) (ap (λ r. r.1.samples) here) seq_here
      ∙ append_assoc s.samples (map success names) (map success more)
      ∙ ap (λ l. s.samples ++ l) (sym (map-append success names more))

  mentions_each :
      (k name : Bytes) (rcpts : List Bytes)
      → mentions k (map (λ rcpt. name) rcpts) ≡ one_if (bytes_eq name k) * length rcpts
  mentions_each k name [] = ground arith
  mentions_each k name (r ∷ rcpts) = ground (arith, mentions_each k name rcpts)

  mentions_delivery :
      (rcpts : List Bytes)
      → (mentions (codes "RCPT") (delivery_names rcpts) ≡ length rcpts)
        × (mentions (codes "BODY") (delivery_names rcpts) ≡ 1)
  unfolding bytes_eq
  mentions_delivery rcpts =
      let tail = codes "DATA" ∷ codes "BODY" ∷ codes "QUIT" ∷ [] in
      let named = map (λ rcpt. codes "RCPT") rcpts in
      (
        omega (
          arith,
          mentions-append (codes "RCPT") named tail,
          mentions_each (codes "RCPT") (codes "RCPT") rcpts,
        ),
        omega (
          arith,
          mentions-append (codes "BODY") named tail,
          mentions_each (codes "BODY") (codes "RCPT") rcpts,
        ),
      )

  mentions_all :
      (conns : List Conn) (seq : ℕ)
      → (mentions (codes "RCPT") (names_of conns seq) ≡ length conns * fan_out c)
        × (mentions (codes "BODY") (names_of conns seq) ≡ length conns)
  unfolding bytes_eq
  mentions_all [] seq = (omega arith, refl)
  mentions_all (conn ∷ conns) seq =
      let rcpts = (next_recipients c seq).0 in
      let more = names_of conns (next_recipients c seq).1 in
      let here = mentions_delivery rcpts in
      let rest = mentions_all conns (next_recipients c seq).1 in
      let each = length-next_recipients c seq in
      (
        omega (
          arith,
          mentions-append (codes "RCPT") (delivery_names rcpts) more,
          here.0,
          rest.0,
          each,
        ),
        omega (arith, mentions-append (codes "BODY") (delivery_names rcpts) more, here.1, rest.1),
      )

  -- Deliveries one after another from a fresh list of reports, each over a new connection to a server
  -- that accepts all of it: whatever time each step takes, and whether or not the run ends meanwhile,
  -- the summary shows no error and nothing cancelled, as many bodies as deliveries, and for
  -- each delivery as many recipients as it takes.
  pub deliver_each-summary :
      (f : Floats) (text : Error → Bytes) (clock : ℕ → ℕ) (over : ℕ → Bool) (conns : List Conn)
      (s : Session Error (Shared src))
      → s.samples ≡ []
      → AllAccept conns s.shared.seq
      → let sum = summary f (
          observe_all
            (bind_run new)
            (observations text clock over 0 (deliver_each conns s).samples)) in
        (sum.errors ≡ 0)
        × (sum.cancelled ≡ 0)
        × ((stat_of sum.commands (codes "BODY")).count ≡ length conns)
        × ((stat_of sum.commands (codes "RCPT")).count ≡ length conns * fan_out c)
  deliver_each-summary f text clock over conns s e h =
      let names = names_of conns s.shared.seq in
      let os = observations text clock over 0 (deliver_each conns s).samples in
      let reports : os ≡ observations text clock over 0 (map success names) =
        ap (observations text clock over 0)
          (deliver_each-samples conns s h ∙ ap (λ l. l ++ map success names) e) in
      let counts = summary_counts f os in
      let met = mentions_all conns s.shared.seq in
      (
        counts.0
            ∙ ap (tally (λ o. failed o && not o.run_done)) reports
            ∙ tally_unfailed text clock over (λ o. not o.run_done) 0 names,
        counts.1
            ∙ ap (tally (λ o. failed o && o.run_done)) reports
            ∙ tally_unfailed text clock over (λ o. o.run_done) 0 names,
        summary-count f (codes "BODY") os
            ∙ ap (tally (λ o. bytes_eq o.name (codes "BODY"))) reports
            ∙ tally-observations text clock over (codes "BODY") 0 names
            ∙ met.1,
        summary-count f (codes "RCPT") os
            ∙ ap (tally (λ o. bytes_eq o.name (codes "RCPT"))) reports
            ∙ tally-observations text clock over (codes "RCPT") 0 names
            ∙ met.0,
      )
