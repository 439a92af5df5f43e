-- ===== src/Corpus/Generator/Tests.antt =====
-- The generator at concrete inputs, over a random source that counts.
use yarilo_loadtest.Base.{
  ℕ, ◌+◌, ◌*◌, ◌/◌, ◌%◌, ◌≤◌, ◌≡◌, refl, Bool, false, arith, codes, length, pos, pos_part,
}
use yarilo_loadtest.Text.Number.{print_nat}
use yarilo_loadtest.Corpus.Generator.{
  fnv_loop, hex, recipient_tag, Platform, Spec, Generator, smallest, new, draw_size, draw, headers,
  plain_head, multipart_head, generate,
}
use yarilo_loadtest.Corpus.Generator.Sizes.{generate_length, preamble}

abbrev counting : Platform
counting = record {
  Rng = ℕ;
  Ratio = Bool;
  Time = ℕ;
  new_source = pos_part;
  intn = λ n r. (r % n, r + 1);
  below = λ ratio r. (ratio, r + 1);
  int63 = λ r. (r, r + 1);
  fixed_date = 0;
  date_after = λ base n. print_nat (base + n);
  intn_lt = λ n r h. omega (arith, h);
}

abbrev small : Spec counting
small = record { min_size = pos 300; max_size = pos 310; attachment_ratio = false; seed = pos 7 }

abbrev seeded : Generator counting
seeded = new counting small (pos 1) 2

generate_length_example :
    ((draw counting seeded).0.size + 2
      ≤ length (generate counting seeded (codes "a@b") (codes "c@d")).0)
    × (length (generate counting seeded (codes "a@b") (codes "c@d")).0
        ≤ (draw counting seeded).0.size + 32 + 2 * (((draw counting seeded).0.size + 75) / 76))
unfolding preamble plain_head multipart_head headers draw draw_size new smallest recipient_tag
    fnv_loop hex print_nat
generate_length_example = generate_length counting seeded (codes "a@b") (codes "c@d") (omega arith)

tagged : recipient_tag (codes "a") ≡ codes "af63dc4c8601ec8c"
unfolding recipient_tag fnv_loop hex
tagged = refl
