-- ===== src/Imap/Client/Response.antt =====
-- What the client reads of a server's response (internal/imapdrv/client.go).
use yarilo_loadtest.Base.{
  ℕ, zero, suc, ◌+◌, ◌<◌, ◌≤◌, ◌≡◌, refl, ap, ◌∙◌, true, false, List, [], ◌∷◌, ◌++◌, none, some,
  append_assoc, append-nil, All, arith, Bytes, codes, length, length-append, drop, map, ltb,
}
use yarilo_loadtest.Base.Result.{ok}
use yarilo_loadtest.Text.{crlf, has_prefix, trim_crlf}
use yarilo_loadtest.Text.Laws.{Lacks, has_prefix-append}
use yarilo_loadtest.Text.Number.{max_int}
use yarilo_loadtest.Net.{Session}
use yarilo_loadtest.Net.Lines.{read_line-append, trim_crlf-append}
use yarilo_loadtest.Imap.Client.{
  Error, Linked, literal_size, discard_bytes, skip_literal, discard, completed, tagged_loop,
  read_until_tagged,
}
use yarilo_loadtest.Imap.Client.Literal.{
  drop-append, announcing, literal_size-announcing, trim_crlf-announcing, announcing-Lacks,
}

-- An untagged response: a line, or a line that announces a literal, the literal and the line behind it.
pub data Item : Type 0 where
  text : Bytes → Item
  literal : (head content tail : Bytes) → Item

-- What the client keeps of an item.
abbrev pub kept : Item → Bytes
kept (text t) = t
kept (literal head content tail) = announcing head (length content)

abbrev pub item_wire : Item → Bytes
item_wire (text t) = (codes "* " ++ t) ++ crlf
item_wire (literal head content tail) =
    (codes "* " ++ announcing head (length content)) ++ (crlf ++ (content ++ (tail ++ crlf)))

abbrev pub items_wire : List Item → Bytes
items_wire [] = []
items_wire (i ∷ is) = item_wire i ++ items_wire is

-- A line as it stands between two line ends.
abbrev pub IsBare : Bytes → Type 0
IsBare line = Lacks 10 line × (trim_crlf line ≡ line)

-- A line that the loop passes over.
abbrev pub IsOther : Bytes → Bytes → Type 0
IsOther tag line =
    (has_prefix line (tag ++ 32 ∷ []) ≡ false)
    × (has_prefix line (codes "* ") ≡ false)
    × (has_prefix line (codes "+ ") ≡ false)

-- The content of a literal is any text whatever.
abbrev pub IsItem : Bytes → Item → Type 0
IsItem tag (text t) = IsBare (codes "* " ++ t) × (literal_size (codes "* " ++ t) ≡ none)
IsItem tag (literal head content tail) =
    Lacks 10 head × (length content ≤ max_int) × IsBare tail × IsOther tag tail

-- The line that ends a command.
abbrev pub done_line : (tag info : Bytes) → Bytes
done_line tag info = (tag ++ 32 ∷ []) ++ (codes "OK" ++ info)

literal_line_starts :
    (tag head : Bytes) (n : ℕ) → has_prefix (codes "* " ++ announcing head n) (codes "* ") ≡ true
literal_line_starts tag head n = has_prefix-append (codes "* ") (announcing head n)

skipped :
    {S : Type 0} (n : ℕ) (content rest : Bytes) (s : Session Error (Linked S))
    → s.conn.incoming ≡ content ++ rest
    → n ≡ length content
    → skip_literal (some n) s ≡ (ok tt, record s { conn = record s.conn { incoming = rest } })
unfolding skip_literal discard discard_bytes
skipped n content rest s e h =
    let enough : ltb (length s.conn.incoming) n ≡ false =
      rw e (ground (arith, h, length-append {0} content rest)) in
    let left : drop n s.conn.incoming ≡ rest = rw (h, e) (drop-append content rest) in
    ground (arith, enough, left)

literal_wire :
    (l c t b : Bytes)
    → (l ++ (crlf ++ (c ++ (t ++ crlf)))) ++ b ≡ l ++ (crlf ++ (c ++ (t ++ (crlf ++ b))))
literal_wire l c t b = simp (append_assoc)

module _ {S : Type 0} where
  -- the session behind a read
  abbrev pub left_with : Session Error (Linked S) → Bytes → Session Error (Linked S)
  left_with s rest = record s { conn = record s.conn { incoming = rest } }

  tagged_loop-done :
      (tag cmd info rest : Bytes) (acc : List Bytes) (fuel : ℕ) (s : Session Error (Linked S))
      → IsBare (done_line tag info)
      → s.conn.incoming ≡ done_line tag info ++ (crlf ++ rest)
      → tagged_loop (suc fuel) tag cmd acc s ≡ (ok acc, left_with s rest)
  unfolding tagged_loop completed
  tagged_loop-done tag cmd info rest acc fuel s h e =
      let line = done_line tag info in
      let behind : drop (length tag + 1) line ≡ codes "OK" ++ info =
        ap (λ (k : ℕ). drop k line) (omega (arith, length-append {0} tag (32 ∷ [])))
        ∙ drop-append (tag ++ 32 ∷ []) (codes "OK" ++ info) in
      ground (
        arith,
        read_line-append s.conn line rest h.0 e,
        trim_crlf-append line h.1,
        has_prefix-append (tag ++ 32 ∷ []) (codes "OK" ++ info),
        behind,
        has_prefix-append (codes "OK") info,
      )

  tagged_loop-text :
      (tag cmd t rest : Bytes) (acc : List Bytes) (fuel : ℕ) (s : Session Error (Linked S))
      → has_prefix (codes "* " ++ t) (tag ++ 32 ∷ []) ≡ false
      → IsItem tag (text t)
      → s.conn.incoming ≡ (codes "* " ++ t) ++ (crlf ++ rest)
      → tagged_loop (suc fuel) tag cmd acc s
        ≡ tagged_loop fuel tag cmd (acc ++ t ∷ []) (left_with s rest)
  unfolding tagged_loop skip_literal
  tagged_loop-text tag cmd t rest acc fuel s n h e = ground (
    arith,
    n,
    read_line-append s.conn (codes "* " ++ t) rest h.0.0 e,
    trim_crlf-append (codes "* " ++ t) h.0.1,
    has_prefix-append (codes "* ") t,
    h.1,
  )

  tagged_loop-other :
      (tag cmd line rest : Bytes) (acc : List Bytes) (fuel : ℕ) (s : Session Error (Linked S))
      → IsBare line
      → IsOther tag line
      → s.conn.incoming ≡ line ++ (crlf ++ rest)
      → tagged_loop (suc fuel) tag cmd acc s ≡ tagged_loop fuel tag cmd acc (left_with s rest)
  unfolding tagged_loop
  tagged_loop-other tag cmd line rest acc fuel s h o e =
      ground (arith, o, read_line-append s.conn line rest h.0 e, trim_crlf-append line h.1)

  tagged_loop-announcing :
      (tag cmd head content rest : Bytes) (acc : List Bytes) (fuel : ℕ)
      (s : Session Error (Linked S))
      → has_prefix (codes "* " ++ announcing head (length content)) (tag ++ 32 ∷ []) ≡ false
      → Lacks 10 head
      → length content ≤ max_int
      → s.conn.incoming
        ≡ (codes "* " ++ announcing head (length content)) ++ (crlf ++ (content ++ rest))
      → tagged_loop (suc fuel) tag cmd acc s
        ≡ tagged_loop fuel tag cmd (acc ++ announcing head (length content) ∷ []) (left_with s rest)
  unfolding tagged_loop
  tagged_loop-announcing tag cmd head content rest acc fuel s n h m e =
      let line = codes "* " ++ announcing head (length content) in
      let full = codes "* " ++ head in
      let s1 = left_with s (content ++ rest) in
      ground (
        arith,
        n,
        read_line-append s.conn line (content ++ rest)
            (announcing-Lacks full (length content) (omega arith, (omega arith, h))) e,
        trim_crlf-append line (trim_crlf-announcing full (length content)),
        has_prefix-append (codes "* ") (announcing head (length content)),
        literal_size-announcing full (length content) m,
        skipped (length content) content rest s1 refl refl,
      )

  -- fuel for the lines of the response is enough
  tagged_loop-wire :
      (items : List Item) (tag cmd info rest : Bytes) (acc : List Bytes) (fuel : ℕ)
      (s : Session Error (Linked S))
      → ((t : Bytes) → has_prefix (codes "* " ++ t) (tag ++ 32 ∷ []) ≡ false)
      → All (IsItem tag) items
      → IsBare (done_line tag info)
      → length s.conn.incoming < fuel
      → s.conn.incoming ≡ items_wire items ++ (done_line tag info ++ (crlf ++ rest))
      → tagged_loop fuel tag cmd acc s ≡ (ok (acc ++ map kept items), left_with s rest)
  tagged_loop-wire items tag cmd info rest acc zero s n h d f e = elim f [ ]
  tagged_loop-wire [] tag cmd info rest acc (suc fuel) s n h d f e =
      rw (append-nil acc) (tagged_loop-done tag cmd info rest acc fuel s d e)
  tagged_loop-wire (text t ∷ items) tag cmd info rest acc (suc fuel) s n h d f e =
      let behind = items_wire items ++ (done_line tag info ++ (crlf ++ rest)) in
      let line = codes "* " ++ t in
      let e' : s.conn.incoming ≡ line ++ (crlf ++ behind) =
        e
        ∙ append_assoc (item_wire (text t)) (items_wire items) _
        ∙ append_assoc line crlf behind in
      let shorter : length behind < fuel =
        omega (arith, f, ap length e', length-append {0} line (crlf ++ behind)) in
      tagged_loop-text tag cmd t behind acc fuel s (n t) h.0 e'
      ∙ tagged_loop-wire items tag cmd info rest (acc ++ t ∷ []) fuel (left_with s behind) n h.1 d
          shorter refl
      ∙ ap (λ ls. (ok ls, left_with s rest)) (append_assoc acc (t ∷ []) (map kept items))
  tagged_loop-wire (literal head content tail ∷ items) tag cmd info rest acc (suc zero) s n h d f
        e =
      absurd (
        omega (
          arith,
          f,
          ap length e,
          length-append {0} (items_wire (literal head content tail ∷ items))
              (done_line tag info ++ (crlf ++ rest)),
          length-append {0} (item_wire (literal head content tail)) (items_wire items),
        ))
  tagged_loop-wire (literal head content tail ∷ items) tag cmd info rest acc (suc (suc fuel)) s n h
        d f e =
      let behind = items_wire items ++ (done_line tag info ++ (crlf ++ rest)) in
      let line = codes "* " ++ announcing head (length content) in
      let after = tail ++ (crlf ++ behind) in
      let e' : s.conn.incoming ≡ line ++ (crlf ++ (content ++ after)) =
        e
        ∙ append_assoc (item_wire (literal head content tail)) (items_wire items) _
        ∙ literal_wire line content tail behind in
      let shorter : length behind < fuel = omega (
        arith,
        f,
        ap length e',
        length-append {0} line (crlf ++ (content ++ after)),
        length-append {0} content after,
        length-append {0} tail (crlf ++ behind),
      ) in
      let acc' = acc ++ announcing head (length content) ∷ [] in
      tagged_loop-announcing tag cmd head content after acc (suc fuel) s
        (n (announcing head (length content))) h.0.0 h.0.1 e'
      ∙ tagged_loop-other tag cmd tail behind acc' fuel (left_with s after) h.0.2 h.0.3 refl
      ∙ tagged_loop-wire items tag cmd info rest acc' fuel (left_with s behind) n h.1 d shorter refl
      ∙ ap (λ ls. (ok ls, left_with s rest))
          (append_assoc acc (announcing head (length content) ∷ []) (map kept items))

  -- Let the server answer a command with untagged lines, each with a literal behind it or not, and end
  -- the answer with the command's tag, which starts with an `a`, and OK. Then the client returns those
  -- lines, and leaves exactly what follows. The bytes of a literal are never taken for a response, even
  -- where they read like the end of the command; the line behind one is passed over.
  pub read_until_tagged-wire :
      (items : List Item) (digits cmd info rest : Bytes) (s : Session Error (Linked S))
      → All (IsItem (b'a' ∷ digits)) items
      → IsBare (done_line (b'a' ∷ digits) info)
      → s.conn.incoming ≡ items_wire items ++ (done_line (b'a' ∷ digits) info ++ (crlf ++ rest))
      → read_until_tagged (b'a' ∷ digits) cmd s ≡ (ok (map kept items), left_with s rest)
  unfolding read_until_tagged has_prefix
  read_until_tagged-wire items digits cmd info rest s h d e =
      tagged_loop-wire items (b'a' ∷ digits) cmd info rest [] (suc (length s.conn.incoming)) s
        (λ t. refl) h d (omega arith) e
