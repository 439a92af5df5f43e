-- ===== src/Imap/View/Tests.antt =====
-- Mailbox views at concrete inputs.
use yarilo_loadtest.Base.{
  ◌≡◌, refl, true, false, [], ◌∷◌, none, some, arith, codes, pos, add_int, sub_int, ◌+ℤ◌, ◌-ℤ◌,
}
use yarilo_loadtest.Text.{has_prefix, cut}
use yarilo_loadtest.Text.Number.{print_nat, atoi}
use yarilo_loadtest.Imap.Profile.{fetch, append, logout}
use yarilo_loadtest.Imap.View.{
  report, drop_one, on_expunge, split_num, apply_line, apply_untagged, check_mismatch, empty_view,
  note_append, is_selected, is_logged_in, legal, disconnected, authenticated, selected,
}
use yarilo_loadtest.Imap.View.Server.{
  exists_line, opened, World, Reach, here, next, reported, own_append,
}
use yarilo_loadtest.Imap.View.Floor.{lost_message-found}

-- a mailbox of two messages, selected, and one message appended to it
abbrev selected_inbox : World
selected_inbox = record {
  server = record { count = 2; told = 2 };
  view = apply_untagged (exists_line 2 ∷ []) (empty_view (codes "INBOX"));
}

abbrev appended_inbox : World
appended_inbox = record {
  server = record { count = 3; told = 2 };
  view = note_append selected_inbox.view;
}

after_append : Reach (opened (codes "INBOX") 2) appended_inbox
after_append =
    next (next here (reported 2 0 (empty_view (codes "INBOX")) (omega arith)))
      (own_append 2 2 selected_inbox.view)

lost_message-found_example :
    check_mismatch (apply_untagged (exists_line 2 ∷ []) appended_inbox.view) ≡ (
      some (record { reported = pos 2; added = pos 1; last_seen = pos 2 }),
      record {
        mailbox = codes "INBOX";
        exists = pos 2;
        baseline = pos 2;
        appended = pos 0;
        mismatch = none;
      },
    )
unfolding note_append apply_untagged apply_line split_num report has_prefix cut atoi print_nat
    add_int ◌+ℤ◌
lost_message-found_example =
    lost_message-found (codes "INBOX") 2 appended_inbox 2 1 2 after_append refl refl (omega arith)
      (omega arith) (omega arith)

states :
    (legal authenticated fetch ≡ false)
    × (legal selected append ≡ true)
    × (legal disconnected logout ≡ false)
unfolding legal is_selected is_logged_in
states = (refl, refl, refl)

expunged : (apply_line (codes "1 EXPUNGE") selected_inbox.view).baseline ≡ pos 1
unfolding apply_untagged apply_line on_expunge drop_one split_num report has_prefix cut atoi
    print_nat sub_int add_int ◌+ℤ◌ ◌-ℤ◌
expunged = refl
