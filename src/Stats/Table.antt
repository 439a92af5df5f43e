-- ===== src/Stats/Table.antt =====
-- The summary as a table (internal/stats/stats.go: WriteTable).
mod Order
mod Names
pub mod Rows
mod Tests
use yarilo_loadtest.Base.{
  ℕ, zero, suc, List, [], ◌∷◌, ◌++◌, map, Bytes, codes, length, ltb, if◌then◌else◌,
}
use yarilo_loadtest.Text.{bytes_eq}
use yarilo_loadtest.Text.Number.{print_nat}
use yarilo_loadtest.Stats.{CmdStat, Summary}
use yarilo_loadtest.Stats.Live.{sort, pad_left}

-- The texts of the floating-point numbers: the seconds of the run and a count by them to one decimal,
-- and a duration in milliseconds to two.
pub record Format : Type 0 where
  pub elapsed : Bytes
  pub rate : ℕ → Bytes
  pub millis : ℕ → Bytes

-- the `%-16s` of a text of single-byte characters
pub pad_right : ℕ → Bytes → Bytes
pad_right zero s = s
pad_right (suc width) [] = 32 ∷ pad_right width []
pad_right (suc width) (c ∷ s) = c ∷ pad_right width s

-- `strings.Repeat(s, n)` with a text of one byte
pub repeat_byte : ℕ → ℕ → Bytes
repeat_byte c zero = []
repeat_byte c (suc n) = c ∷ repeat_byte c n

abbrev pub zero_stat : CmdStat
zero_stat = record {
  count = 0;
  errors = 0;
  cancelled = 0;
  first_error = [];
  least = 0;
  median = 0;
  p95 = 0;
  p99 = 0;
  greatest = 0;
}

-- `s.Commands[name]`
unfoldable pub stat_of : List (Bytes × CmdStat) → Bytes → CmdStat
stat_of [] name = zero_stat
stat_of ((k, s) ∷ stats) name = let rest = stat_of stats name in if bytes_eq k name then s else rest

-- the cells of a line behind its first
pub cells : List (ℕ × Bytes) → Bytes
cells [] = 10 ∷ []
cells ((width, s) ∷ more) = 32 ∷ (pad_left width s ++ cells more)

pub heading : Bytes
heading =
    pad_right 16 (codes "command")
    ++ cells (
        (8, codes "count")
        ∷ (8, codes "errors")
        ∷ (9, codes "cancel")
        ∷ (9, codes "ops/s")
        ∷ (9, codes "min ms")
        ∷ (9, codes "med ms")
        ∷ (9, codes "p95 ms")
        ∷ (9, codes "p99 ms")
        ∷ (9, codes "max ms")
        ∷ [])

-- what is printed below a row
pub explanation : Bytes → Bytes
explanation [] = []
explanation (c ∷ s) = codes "  first error: " ++ ((c ∷ s) ++ 10 ∷ [])

module _ (fmt : Format) where
  pub row : Bytes → CmdStat → Bytes
  row name c =
      pad_right 16 name
      ++ (cells (
            (8, print_nat c.count)
            ∷ (8, print_nat c.errors)
            ∷ (9, print_nat c.cancelled)
            ∷ (9, fmt.rate c.count)
            ∷ (9, fmt.millis c.least)
            ∷ (9, fmt.millis c.median)
            ∷ (9, fmt.millis c.p95)
            ∷ (9, fmt.millis c.p99)
            ∷ (9, fmt.millis c.greatest)
            ∷ [])
          ++ explanation c.first_error)

  -- the loop over the names
  pub rows : List Bytes → List (Bytes × CmdStat) → Bytes
  rows [] stats = []
  rows (name ∷ names) stats = row name (stat_of stats name) ++ rows names stats

  -- `WriteTable`
  pub write_table : Summary → Bytes
  write_table s =
      heading
      ++ (repeat_byte b'-' 110
          ++ (10
              ∷ (rows (sort (map (λ (p : Bytes × CmdStat). p.0) s.commands)) s.commands
                  ++ (10
                      ∷ (codes "ran for "
                          ++ (fmt.elapsed
                              ++ (codes "s, "
                                  ++ (print_nat s.errors
                                      ++ (codes " errors, "
                                          ++ (print_nat s.cancelled
                                              ++ (codes " cancelled at the deadline"
                                                  ++ 10 ∷ [])))))))))))
