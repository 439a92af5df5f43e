-- ===== src/Lmtp/Reply.antt =====
-- What the driver reads of the server's replies.
use yarilo_loadtest.Base.{
  ℕ, zero, suc, ◌+◌, ◌<◌, ◌≤◌, ◌≡◌, ◌≢◌, refl, ap, ◌∙◌, true, List, [], ◌∷◌, ◌++◌, append_assoc,
  All, arith, Bytes, codes, length, length-append, get_or,
}
use yarilo_loadtest.Base.Result.{ok}
use yarilo_loadtest.Text.{crlf, has_prefix, trim_crlf}
use yarilo_loadtest.Text.Laws.{Lacks}
use yarilo_loadtest.Net.{Session}
use yarilo_loadtest.Net.Lines.{read_line-append, trim_crlf-append}
use yarilo_loadtest.Lmtp.{Error, final, more, judge, reply_loop, read_reply, replies_loop}

-- A line of a reply, without its line end: it starts with the code, and its fourth byte says
-- whether another line follows.
abbrev pub IsReplyLine : Bytes → Bytes → Type 0
IsReplyLine code line =
    Lacks 10 line × (trim_crlf line ≡ line) × (4 ≤ length line) × (has_prefix line code ≡ true)

abbrev pub IsMore : Bytes → Bytes → Type 0
IsMore code line = IsReplyLine code line × (get_or line 3 0 ≢ 32)

abbrev pub IsFinal : Bytes → Bytes → Type 0
IsFinal code line = IsReplyLine code line × (get_or line 3 0 ≡ 32)

-- A reply: the lines before its last, and its last.
pub record Reply : Type 0 where
  pub before : List Bytes
  pub last : Bytes

abbrev pub IsReply : Bytes → Reply → Type 0
IsReply code r = All (IsMore code) r.before × IsFinal code r.last

abbrev pub wire : List Bytes → Bytes → Bytes
wire [] last = last ++ crlf
wire (l ∷ ls) last = l ++ (crlf ++ wire ls last)

judge-more : (code line : Bytes) → IsMore code line → judge code line ≡ more
unfolding judge
judge-more code line h = ground arith

judge-final : (code line : Bytes) → IsFinal code line → judge code line ≡ final
unfolding judge
judge-final code line h = ground arith

length-wire :
    (before : List Bytes) (last rest : Bytes) → length before < length (wire before last ++ rest)
length-wire [] last rest =
    omega (arith, length-append {0} (last ++ crlf) rest, length-append {0} last crlf)
length-wire (l ∷ ls) last rest =
    rw (append_assoc l (crlf ++ wire ls last) rest) (
      omega (arith, length-append {0} l (crlf ++ (wire ls last ++ rest)), length-wire ls last rest))

abbrev pub wires : List Reply → Bytes
wires [] = []
wires (r ∷ rs) = wire r.before r.last ++ wires rs

module _ {D : Type 0} where
  -- the session behind a read
  abbrev pub left_with : Session Error D → Bytes → Session Error D
  left_with s rest = record s { conn = record s.conn { incoming = rest } }

  -- fuel for the lines of the reply is enough
  reply_loop-wire :
      (before : List Bytes) (last code rest : Bytes) (fuel : ℕ) (s : Session Error D)
      → All (IsMore code) before
      → IsFinal code last
      → length before < fuel
      → s.conn.incoming ≡ wire before last ++ rest
      → reply_loop fuel code s ≡ (ok tt, left_with s rest)
  unfolding reply_loop
  reply_loop-wire before last code rest zero s h hl f e = elim f [ ]
  reply_loop-wire [] last code rest (suc fuel) s h hl f e = ground (
    arith,
    read_line-append s.conn last rest hl.0.0 (e ∙ append_assoc last crlf rest),
    trim_crlf-append last hl.0.1,
    judge-final code last hl,
  )
  reply_loop-wire (l ∷ ls) last code rest (suc fuel) s h hl f e =
      let behind = wire ls last ++ rest in
      ground (
        arith,
        read_line-append s.conn l behind h.0.0.0 (e ∙ append_assoc l (crlf ++ wire ls last) rest),
        trim_crlf-append l h.0.0.1,
        judge-more code l h.0,
        reply_loop-wire ls last code rest fuel (left_with s behind) h.1 hl (omega arith) refl,
      )

  -- A reply is read to its end, however many lines it has, and nothing behind it is.
  pub read_reply-wire :
      (code : Bytes) (r : Reply) (rest : Bytes) (s : Session Error D)
      → IsReply code r
      → s.conn.incoming ≡ wire r.before r.last ++ rest
      → read_reply code s ≡ (ok tt, left_with s rest)
  unfolding read_reply
  read_reply-wire code r rest s h e =
      reply_loop-wire r.before r.last code rest (suc (length s.conn.incoming)) s h.0 h.1
        (rw e (omega (arith, length-wire r.before r.last rest))) e

  -- If the server sends one 250 reply for each recipient, each of any number of lines, then reading as
  -- many replies succeeds and leaves exactly what stands behind them.
  pub replies_loop-wires :
      (rs : List Reply) (i : ℕ) (rest : Bytes) (s : Session Error D)
      → All (IsReply (codes "250")) rs
      → s.conn.incoming ≡ wires rs ++ rest
      → replies_loop (length rs) i s ≡ (ok tt, left_with s rest)
  unfolding replies_loop
  replies_loop-wires [] i rest s h e = ap (λ b. (ok tt, left_with s b)) e
  replies_loop-wires (r ∷ rs) i rest s h e =
      let behind = wires rs ++ rest in
      ground (
        arith,
        read_reply-wire (codes "250") r behind s h.0
            (e ∙ append_assoc (wire r.before r.last) (wires rs) rest),
        replies_loop-wires rs (i + 1) rest (left_with s behind) h.1 refl,
      )
