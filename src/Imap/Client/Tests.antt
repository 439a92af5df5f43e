-- ===== src/Imap/Client/Tests.antt =====
-- The IMAP client at concrete inputs.
use yarilo_loadtest.Base.{ℕ, ◌≡◌, refl, List, [], ◌∷◌, ◌++◌, map, none, some, arith, Bytes, codes}
use yarilo_loadtest.Base.Result.{ok, err}
use yarilo_loadtest.Text.{
  crlf, has_prefix, has_suffix, contains, cut_last, bytes_eq, trim_crlf, trim_space, trim_left,
  trim_right,
}
use yarilo_loadtest.Text.Number.{print_nat, atoi}
use yarilo_loadtest.Net.{Session, eof, read_string, read_line, write}
use yarilo_loadtest.Imap.Client.{
  Error, declined, greeting_refused, Texts, describe, Linked, pad3, quote_loop, quoted, trim_plus,
  literal_spec, literal_size, discard_bytes, append_line, next_tag, discard, skip_literal,
  completed, tagged_loop, read_until_tagged, perform, greet, login, append_literal, append_message,
  exists_already, create,
}
use yarilo_loadtest.Imap.Client.Response.{
  Item, text, literal, kept, items_wire, done_line, left_with, read_until_tagged-wire,
}
use yarilo_loadtest.Imap.Client.Append.{written, announcement, append_message-wire}

abbrev odd_name : Bytes
odd_name = b'a' ∷ b'"' ∷ b'\\' ∷ []

-- the literal holds what would end the command outside of it
abbrev answers : List Item
answers =
    text (codes "2 EXISTS")
    ∷ literal (codes "1 FETCH (BODY[] ") (codes "a001 OK" ++ crlf) (codes ")")
    ∷ []

abbrev at_answer : Session Error (Linked ℕ)
at_answer = record {
  conn = record {
    incoming =
        items_wire answers ++ (done_line (codes "a001") (codes " done") ++ (crlf ++ codes "* BYE"));
    ending = eof;
    writes_left = none;
    sent = [];
  };
  samples = [];
  shared = record { tag = 0; rest = 7 };
}

read_until_tagged-wire_example :
    read_until_tagged (codes "a001") (codes "FETCH") at_answer
    ≡ (ok (map kept answers), left_with at_answer (codes "* BYE"))
unfolding literal_size has_suffix has_prefix bytes_eq trim_crlf trim_right
read_until_tagged-wire_example =
    read_until_tagged-wire answers (codes "001") (codes "FETCH") (codes " done") (codes "* BYE")
      at_answer (ground arith) (ground arith) refl

abbrev before_append : Session Error (Linked ℕ)
before_append = record {
  conn = record {
    incoming =
        (b'+' ∷ codes " go")
        ++ (crlf
            ++ (items_wire (text (codes "3 EXISTS") ∷ [])
                ++ (done_line (codes "a001") [] ++ (crlf ++ []))));
    ending = eof;
    writes_left = none;
    sent = [];
  };
  samples = [];
  shared = record { tag = 0; rest = 7 };
}

append_message-wire_example : append_message (codes "INBOX") (codes "hi") before_append ≡ (
  ok (map kept (text (codes "3 EXISTS") ∷ [])),
  written before_append
      (announcement before_append (codes "INBOX") (codes "hi") ∷ codes "hi" ∷ crlf ∷ [])
      [],
)
unfolding next_tag pad3 print_nat literal_size has_suffix has_prefix bytes_eq trim_crlf trim_right
append_message-wire_example =
    append_message-wire (codes "INBOX") (codes "hi") (codes " go") [] [] (codes "001")
      (text (codes "3 EXISTS") ∷ []) before_append refl refl (ground arith) (ground arith)
      (ground arith) refl

-- the line of the first command, with its message announced
announced :
    announcement before_append (codes "INBOX") (codes "hi")
    ≡ codes "a001 APPEND \"INBOX\" {2}" ++ crlf
unfolding next_tag pad3 append_line quoted quote_loop print_nat
announced = refl

abbrev plain : Texts
plain = record { in_marks = λ s. s; of_io = λ e. []; of_dial = []; of_context = [] }

abbrev fresh : Bytes → Session Error (Linked ℕ)
fresh incoming = record {
  conn = record { incoming = incoming; ending = eof; writes_left = none; sent = [] };
  samples = [];
  shared = record { tag = 0; rest = 7 };
}

-- a mailbox that is there already is no failure, another refusal is
created :
    ((create plain (codes "Load1") (fresh (codes "a001 NO [ALREADYEXISTS] x" ++ crlf))).0 ≡ ok tt)
    × ((create plain (codes "Load1") (fresh (codes "a001 NO quota" ++ crlf))).0
        ≡ err (declined (codes "CREATE \"Load1\"") (codes "NO quota")))
unfolding create perform next_tag pad3 print_nat quoted quote_loop write read_until_tagged
    tagged_loop completed read_line read_string trim_crlf trim_right has_prefix bytes_eq describe
    exists_already contains
created = (refl, refl)

greeted :
    ((greet (fresh (codes "* OK hi" ++ crlf))).0 ≡ ok tt)
    × ((greet (fresh (codes "* BYE" ++ crlf))).0 ≡ err (greeting_refused (codes "* BYE")))
unfolding greet read_line read_string has_prefix bytes_eq trim_space trim_left trim_right
greeted = (refl, refl)

logged_in :
    (login (codes "u") (codes "p\"") (fresh (codes "a001 OK" ++ crlf))).1.conn.sent
    ≡ (codes "a001 LOGIN \"u\" \"p\\\"\"" ++ crlf) ∷ []
unfolding login perform next_tag pad3 print_nat quoted quote_loop write read_until_tagged
    tagged_loop completed read_line read_string trim_crlf trim_right has_prefix bytes_eq
logged_in = refl

sized : literal_size (codes "* 1 FETCH {12+}") ≡ some 12
unfolding literal_size literal_spec trim_plus has_suffix bytes_eq cut_last atoi
sized = refl

skipped : (skip_literal (some 2) (fresh (codes "abc"))).1.conn.incoming ≡ codes "c"
unfolding skip_literal discard discard_bytes
skipped = refl

refused : (append_literal (codes "a001") [] (codes "a001 NO") (fresh [])).1.conn.sent ≡ []
unfolding append_literal has_prefix bytes_eq
refused = refl
