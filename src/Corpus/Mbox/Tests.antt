-- ===== src/Corpus/Mbox/Tests.antt =====
-- The mbox replay at concrete inputs.
use yarilo_loadtest.Base.{
  ◌<◌, ◌≡◌, refl, false, List, [], ◌∷◌, ◌++◌, map, arith, Bytes, codes, length, All,
}
use yarilo_loadtest.Base.Result.{ok, err}
use yarilo_loadtest.Text.{has_prefix, has_suffix, bytes_eq, trim_right, trim_crlf, crlf}
use yarilo_loadtest.Corpus.Mbox.{
  Mbox, cannot_open, first_octets, normalise, wire_form, lines_of, add, flush, take_line, scan_loop,
  check_lines, check_messages, accept, readable, missing, start, load,
}
use yarilo_loadtest.Corpus.Mbox.Load.{IsDeliverable, messages_of, load-IsDeliverable, load_complete}
use yarilo_loadtest.Corpus.Mbox.Arrival.{Arrives, load-Arrives}
use yarilo_loadtest.Corpus.Mbox.Replay.{body, write_mbox, load-write_mbox}

abbrev short_message : Bytes
short_message = codes "hi" ++ crlf

-- two messages, the second of which quotes the start of a separator
abbrev two_mails : List (List Bytes)
two_mails = (codes "Subject: x" ∷ [] ∷ codes "hi" ∷ []) ∷ (codes "From here" ∷ []) ∷ []

load-write_mbox_example :
    load (readable (write_mbox two_mails) false)
    ≡ ok (record { messages = map (λ m. wire_form (body m)) two_mails; seq = 0 })
unfolding wire_form lines_of normalise trim_crlf trim_right has_prefix
load-write_mbox_example = load-write_mbox two_mails (ground arith) (omega arith) (ground arith)

abbrev content : Bytes
content = codes "From a" ++ 10 ∷ codes "hi" ++ 10 ∷ []

abbrev loaded : Mbox
loaded = record { messages = short_message ∷ []; seq = 0 }

content_loads : load (readable content false) ≡ ok loaded
unfolding load accept check_messages check_lines flush scan_loop take_line add wire_form normalise
    lines_of trim_crlf trim_right has_prefix has_suffix bytes_eq start
content_loads = refl

load-IsDeliverable_example :
    All IsDeliverable loaded.messages × (0 < length loaded.messages) × (loaded.seq ≡ 0)
load-IsDeliverable_example = load-IsDeliverable (readable content false) loaded content_loads

load-Arrives_example : All (Arrives (codes "QUIT")) loaded.messages
load-Arrives_example = load-Arrives (readable content false) loaded (codes "QUIT") content_loads

load_complete_example :
    load (readable content false) ≡ ok (record { messages = messages_of content; seq = 0 })
unfolding flush scan_loop take_line add wire_form normalise lines_of trim_crlf trim_right has_prefix
    has_suffix bytes_eq start messages_of
load_complete_example = load_complete content (omega arith) (ground arith)

abbrev three_messages : Mbox
three_messages = record { messages = codes "a" ∷ codes "b" ∷ codes "c" ∷ []; seq = 2 }

refused : load missing ≡ err cannot_open
unfolding load
refused = refl

shown : first_octets (codes "abc" ++ 13 ∷ 13 ∷ []) 2 ≡ codes "ab"
unfolding first_octets trim_right
shown = refl
