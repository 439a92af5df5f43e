-- ===== src/Imap/View/Floor.antt =====
-- The client's floor under the server's counts (internal/imapdrv/session.go), beside the mailbox on
-- the server.
use yarilo_loadtest.Base.{
  ℕ, ◌+◌, ◌≤◌, ◌<◌, ◌≡◌, true, [], ◌∷◌, none, some, arith, Bytes, ltb, pos, word, signed, ◌%◌,
  add_int_exact,
}
use yarilo_loadtest.Text.Number.{max_int}
use yarilo_loadtest.Imap.View.{View, report, apply_untagged, check_mismatch}
use yarilo_loadtest.Imap.View.Server.{
  exists_line, apply-exists_line, World, reported, Reach, opened,
}

-- What the view knows of the mailbox.
pub record IsFloor (w : World) : Type 0 where
  appends : ℕ
  counted : w.view.appended ≡ signed (appends % word)
  held : w.view.exists ≡ pos w.server.told
  based : w.view.baseline ≡ pos w.server.told
  below : w.server.told + appends ≤ w.server.count
  pub silent : w.view.mismatch ≡ none

-- Whatever appends, reports and announced removals followed a SELECT, let `b` be the count the session
-- was last told of and `a` the appends acknowledged to it since, whose sum is an
-- `int`. A report of fewer than `b + a` messages is found out: `check_mismatch` returns the report, the appends and the count it contradicts, and the view takes up the report.
pub lost_message-found :
    (mailbox : Bytes) (m : ℕ) (w : World) (n a b : ℕ)
    → Reach (opened mailbox m) w
    → w.view.appended ≡ pos a
    → w.view.baseline ≡ pos b
    → n ≤ max_int
    → b + a ≤ max_int
    → n < b + a
    → let v = apply_untagged (exists_line n ∷ []) w.view in
      check_mismatch v ≡ (
        some (record { reported = pos n; added = pos a; last_seen = pos b }),
        record {
          mailbox = w.view.mailbox;
          exists = pos n;
          baseline = pos n;
          appended = pos 0;
          mismatch = none;
        },
      )
unfolding check_mismatch apply_untagged report
lost_message-found mailbox m w n a b r p q h l k =
    let t : ltb (n + 0) (b + a + 0) ≡ true = ground (arith, k) in
    rw (apply-exists_line n w.view h, report, p, q, add_int_exact b a (omega arith), t)
