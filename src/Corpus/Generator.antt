-- ===== src/Corpus/Generator.antt =====
-- The message generator (internal/corpus/corpus.go). The random source of math/rand, the fractions
-- that it is compared with and the printed date are parameters.
pub mod Filler
pub mod Sizes
mod Tests
pub use yarilo_loadtest.Text.{crlf}
use Prim.Native.Nat.{bit_xor}
use yarilo_loadtest.Base.{
  ℕ, zero, suc, ◌+◌, ◌-◌, ◌*◌, ◌/◌, ◌%◌, ◌<◌, Bool, true, false, ◌&&◌, List, [], ◌∷◌, ◌++◌, Bytes,
  codes, length, get_or, ltb, ◌==◌, if◌then◌else◌, ℤ, pos, negsuc, is_nonpos, pos_part, word,
}
use yarilo_loadtest.Text.Number.{print_nat}

abbrev pub words : List Bytes
words =
    codes "delivery"
    ∷ codes "mailbox"
    ∷ codes "index"
    ∷ codes "search"
    ∷ codes "message"
    ∷ codes "attachment"
    ∷ codes "throughput"
    ∷ codes "latency"
    ∷ codes "checkpoint"
    ∷ codes "tokenise"
    ∷ []

-- what one round of `writeFiller` appends, `line` being the rounds before it
pub filler_word : ℕ → Bytes
filler_word line = get_or words (line % 10) [] ++ (32 ∷ (if (line + 1) % 10 == 0 then crlf else []))

-- `for b.Len() < target`, with fuel for the rounds
pub filler_loop : ℕ → ℕ → ℕ → Bytes → Bytes
filler_loop zero target line b = b
filler_loop (suc fuel) target line b =
    let more = filler_loop fuel target (line + 1) (b ++ filler_word line) in
    if ltb (length b) target then more else b

-- `writeFiller`: every round adds a byte at least, so `target` rounds are enough
pub write_filler : Bytes → ℕ → Bytes
write_filler b target = if ltb (length b) target then filler_loop target target 0 b ++ crlf else b

abbrev pub alphabet : Bytes
alphabet = codes "ABCDEFGHIJKLMNOPQRSTUVWXYZabcdefghijklmnopqrstuvwxyz0123456789+/"

-- `for i := 0; i < 76 && written < n; i++`, with `left` for 76 - i; the line and `written` behind it
pub base64_line : (left i n written : ℕ) → Bytes → Bytes × ℕ
base64_line zero i n written line = (line, written)
base64_line (suc left) i n written line =
    let more =
      base64_line left (i + 1) n (written + 1)
        (line ++ get_or alphabet ((written + i) % 64) 0 ∷ []) in
    if ltb written n then more else (line, written)

-- `for written < n`, with fuel for the lines
pub base64_loop : ℕ → ℕ → ℕ → Bytes → Bytes
base64_loop zero n written b = b
base64_loop (suc fuel) n written b =
    let (line, written') = base64_line 76 0 n written [] in
    let more = base64_loop fuel n written' (b ++ (line ++ crlf)) in
    if ltb written n then more else b

-- `writeBase64Filler`; a count that is not positive is 0 here, and a line holds a byte at least
pub write_base64 : Bytes → ℕ → Bytes
write_base64 b n = base64_loop n n 0 b

-- the FNV-1a hash of `recipientTag`
pub fnv_loop : ℕ → Bytes → ℕ
fnv_loop h [] = h
fnv_loop h (c ∷ s) = fnv_loop ((bit_xor h c * 1099511628211) % word) s

abbrev hex_digit : ℕ → ℕ
hex_digit d = if ltb d 10 then b'0' + d else b'a' + (d - 10)

-- the last `n` hexadecimal digits, most significant first
pub hex : ℕ → ℕ → Bytes
hex zero h = []
hex (suc n) h = hex n (h / 16) ++ hex_digit (h % 16) ∷ []

-- `recipientTag`
pub recipient_tag : Bytes → Bytes
recipient_tag to = hex 16 (fnv_loop 14695981039346656037 to)

abbrev pub is_zero : ℤ → Bool
is_zero (pos n) = n == 0
is_zero (negsuc n) = false

-- What the generator asks of math/rand and of the clock.
pub record Platform : Type 1 where
  pub Rng : Type 0
  pub Ratio : Type 0
  pub Time : Type 0
  pub new_source : ℤ → Rng
  pub intn : ℕ → Rng → ℕ × Rng
  pub below : Ratio → Rng → Bool × Rng
  pub int63 : Rng → ℕ × Rng
  pub fixed_date : Time
  pub date_after : Time → ℕ → Bytes
  -- `Intn(n)` is below n.
  pub intn_lt : (n : ℕ) (r : Rng) → 0 < n → (intn n r).0 < n

-- `Spec`, with the sizes as they were given
pub record Spec (p : Platform) : Type 0 where
  pub min_size : ℤ
  pub max_size : ℤ
  pub attachment_ratio : p.Ratio
  pub seed : ℤ

pub record Generator (p : Platform) : Type 0 where
  pub min_size : ℕ
  pub max_size : ℕ
  pub attachment_ratio : p.Ratio
  pub base : p.Time
  pub rnd : p.Rng
  pub seq : ℕ

module _ (p : Platform) where
  open p use {Rng, Ratio, Time, new_source, intn, below, int63, fixed_date, date_after}

  pub smallest : ℤ → ℕ
  smallest size = if is_nonpos size then 2048 else pos_part size

  -- `New`; `clock` is the time in nanoseconds that seeds an unseeded run, and `now` its date
  pub new : Spec p → (clock : ℤ) → (now : Time) → Generator p
  new spec clock now =
      let low = smallest spec.min_size in
      let unseeded = is_zero spec.seed in
      record {
        min_size = low;
        max_size = if ltb (pos_part spec.max_size) low then low else pos_part spec.max_size;
        attachment_ratio = spec.attachment_ratio;
        base = if unseeded then now else fixed_date;
        rnd = new_source (if unseeded then clock else spec.seed);
        seq = 0;
      }

  -- what `Generate` draws under the lock
  pub record Draw : Type 0 where
    pub seq : ℕ
    pub size : ℕ
    pub with_attachment : Bool
    pub msg_id : ℕ

  pub draw_size : Generator p → ℕ × Rng
  draw_size g =
      if ltb g.min_size g.max_size
      then (let (extra, rnd) = intn (g.max_size - g.min_size) g.rnd in (g.min_size + extra, rnd))
      else (g.min_size, g.rnd)

  pub draw : Generator p → Draw × Generator p
  draw g =
      let (size, rnd) = draw_size g in
      let (with_attachment, rnd') = below g.attachment_ratio rnd in
      let (msg_id, rnd'') = int63 rnd' in
      (
        record { seq = g.seq + 1; size = size; with_attachment = with_attachment; msg_id = msg_id },
        record g { seq = g.seq + 1; rnd = rnd'' },
      )

  -- the header fields up to MIME-Version
  pub headers : Time → Draw → Bytes → Bytes → Bytes
  headers base d from to =
      codes "From: "
      ++ (from
          ++ (crlf
              ++ (codes "To: "
                  ++ (to
                      ++ (crlf
                          ++ (codes "Subject: loadtest message "
                              ++ (print_nat d.seq
                                  ++ (crlf
                                      ++ (codes "Message-Id: <lt-"
                                          ++ (print_nat d.msg_id
                                              ++ (b'-' ∷ print_nat d.seq
                                                  ++ (b'-' ∷ recipient_tag to
                                                      ++ (codes "@yarilo-loadtest>"
                                                          ++ (crlf
                                                            ++ (codes "Date: "
                                                            ++ (date_after base d.seq
                                                            ++ (crlf
                                                            ++ (codes "MIME-Version: 1.0"
                                                            ++ crlf))))))))))))))))))

  abbrev boundary : Bytes
  boundary = codes "yarilo-loadtest-boundary"

  -- the message without an attachment: its last header field, and the filler
  pub plain_head : Bytes → Bytes
  plain_head b = b ++ (codes "Content-Type: text/plain; charset=utf-8" ++ (crlf ++ crlf))

  pub plain : Bytes → ℕ → Bytes
  plain b size = write_filler (plain_head b) size

  -- the text part and the header of the attachment
  pub multipart_head : Bytes → Bytes
  multipart_head b =
      let opened =
        b
        ++ (codes "Content-Type: multipart/mixed; boundary="
            ++ (boundary
                ++ (crlf
                    ++ (crlf
                        ++ (codes "--"
                            ++ (boundary
                                ++ (crlf
                                    ++ (codes "Content-Type: text/plain; charset=utf-8"
                                        ++ (crlf ++ crlf))))))))) in
      write_filler opened (length opened + 512)
      ++ (crlf
          ++ (codes "--"
              ++ (boundary
                  ++ (crlf
                      ++ (codes "Content-Type: application/octet-stream; name=payload.bin"
                          ++ (crlf
                              ++ (codes "Content-Transfer-Encoding: base64"
                                  ++ (crlf
                                      ++ (codes
                                            "Content-Disposition: attachment; filename=payload.bin"
                                          ++ (crlf ++ crlf))))))))))

  pub multipart : Bytes → ℕ → Bytes
  multipart b size =
      let head = multipart_head b in
      write_base64 head (size - length head)
      ++ (crlf ++ (codes "--" ++ (boundary ++ (codes "--" ++ crlf))))

  -- what `Generate` renders outside the lock: the two kinds of message
  pub body : (with_attachment : Bool) → Bytes → ℕ → Bytes
  body true b size = multipart b size
  body false b size = plain b size

  pub render : Time → Draw → Bytes → Bytes → Bytes
  render base d from to = body d.with_attachment (headers base d from to) d.size

  -- `Generate`
  pub generate : Generator p → Bytes → Bytes → Bytes × Generator p
  generate g from to = let (d, g') = draw g in (render g.base d from to, g')
