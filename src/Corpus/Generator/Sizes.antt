-- ===== src/Corpus/Generator/Sizes.antt =====
-- The size of a generated message against the size that was drawn for it.
use yarilo_loadtest.Base.{
  ℕ, ◌+◌, ◌-◌, ◌*◌, ◌/◌, ◌≤◌, ◌<◌, ◌≡◌, refl, true, false, Bool, ◌++◌, arith, Bytes, codes, length,
  length-append, ltb, Bool-cases, inl, inr, ◌⊎◌, ltb→lt, ℤ,
}
use yarilo_loadtest.Corpus.Generator.{
  crlf, Platform, Spec, Generator, new, smallest, draw, draw_size, headers, plain, plain_head, body,
  multipart, multipart_head, boundary, render, generate, write_base64,
}
use yarilo_loadtest.Corpus.Generator.Filler.{write_filler-length, length-write_base64}

-- The bounds of a generator as `New` leaves them.
pub record IsOrdered {p : Platform} (g : Generator p) : Type 0 where
  pub some_bytes : 0 < g.min_size
  pub ordered : g.min_size ≤ g.max_size

module _ (p : Platform) where
  pub new-IsOrdered : (s : Spec p) (clock : ℤ) (now : p.Time) → IsOrdered (new p s clock now)
  unfolding new smallest
  new-IsOrdered s clock now = ground arith

  draw_size_bounds :
      (g : Generator p)
      → IsOrdered g
      → (g.min_size ≤ (draw_size p g).0)
        × ((draw_size p g).0 ≤ g.max_size)
        × (((draw_size p g).0 ≡ g.min_size) ⊎ ((draw_size p g).0 < g.max_size))
  unfolding draw_size
  draw_size_bounds g h = elim (Bool-cases (ltb g.min_size g.max_size)) [
    | inl spread ↦
        let below = p.intn_lt (g.max_size - g.min_size) g.rnd (omega (arith, ltb→lt _ _ spread)) in
        rw spread (omega arith, omega arith, inr (omega arith))
    | inr point ↦ rw point (omega arith, h.ordered, inl refl)
  ]

  -- Whatever bounds are asked for, the size that is drawn is at least the smallest size of the
  -- generator and at most the largest; it is the smallest itself or below the largest.
  pub draw_bounds :
      (s : Spec p) (clock : ℤ) (now : p.Time) (g : Generator p)
      → g ≡ new p s clock now
      → (g.min_size ≤ (draw p g).0.size)
        × ((draw p g).0.size ≤ g.max_size)
        × (((draw p g).0.size ≡ g.min_size) ⊎ ((draw p g).0.size < g.max_size))
  unfolding draw
  draw_bounds s clock now g e = draw_size_bounds g (rw e (new-IsOrdered s clock now))

  -- What stands before the bytes that fill a message up to its size, behind the header `b`.
  unfoldable pub preamble : Bool → Bytes → Bytes
  preamble true b = multipart_head p b
  preamble false b = plain_head p b

  length-multipart :
      (b : Bytes) (size : ℕ)
      → length (multipart_head p b) < size
      → length (multipart p b size)
        ≡ size + 32 + 2 * ((size - length (multipart_head p b) + 75) / 76)
  unfolding multipart boundary
  length-multipart b size h =
      let head = multipart_head p b in
      let filled = write_base64 head (size - length head) in
      omega (
        arith,
        length-write_base64 head (size - length head),
        length-append {0} filled
            (crlf ++ (codes "--" ++ (codes "yarilo-loadtest-boundary" ++ (codes "--" ++ crlf)))),
      )

  body-length :
      (attached : Bool) (b : Bytes) (size : ℕ)
      → length (preamble attached b) < size
      → (size + 2 ≤ length (body p attached b size))
        × (length (body p attached b size) ≤ size + 32 + 2 * ((size + 75) / 76))
  unfolding body preamble plain
  body-length true b size h = omega (arith, length-multipart b size h)
  body-length false b size h = omega (arith, write_filler-length (plain_head p b) size h)

  -- A message whose preamble is shorter than the size drawn for it is longer than that size, by 2
  -- bytes at least, and by 32 and the line ends of a payload of that size at most.
  pub generate_length :
      (g : Generator p) (from to : Bytes)
      → length (preamble (draw p g).0.with_attachment (headers p g.base (draw p g).0 from to))
        < (draw p g).0.size
      → ((draw p g).0.size + 2 ≤ length (generate p g from to).0)
        × (length (generate p g from to).0
            ≤ (draw p g).0.size + 32 + 2 * (((draw p g).0.size + 75) / 76))
  unfolding generate render
  generate_length g from to h =
      let d = (draw p g).0 in body-length d.with_attachment (headers p g.base d from to) d.size h
