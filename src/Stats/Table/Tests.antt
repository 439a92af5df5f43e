-- ===== src/Stats/Table/Tests.antt =====
-- The table at concrete inputs.
use yarilo_loadtest.Base.{◌≡◌, refl, [], ◌∷◌, ◌++◌, codes}
use yarilo_loadtest.Text.Number.{print_nat}
use yarilo_loadtest.Stats.Live.{pad_left, sort}
use yarilo_loadtest.Stats.Table.{
  Format, pad_right, repeat_byte, zero_stat, cells, heading, explanation, row, rows, write_table,
}

abbrev whole_numbers : Format
whole_numbers = record { elapsed = codes "3.0"; rate = print_nat; millis = print_nat }

explained :
    row whole_numbers
      (codes "DATA")
      (record zero_stat { count = 3; errors = 1; first_error = codes "no" })
    ≡ codes
        "DATA                    3        1         0         3         0         0         0         0         0"
      ++ (10 ∷ (codes "  first error: no" ++ 10 ∷ []))
unfolding row pad_right pad_left cells explanation print_nat
explained = refl

headed :
    heading
    ≡ codes
        "command             count   errors    cancel     ops/s    min ms    med ms    p95 ms    p99 ms    max ms"
      ++ 10 ∷ []
unfolding heading pad_right pad_left cells
headed = refl

nothing_run :
    write_table whole_numbers (record { commands = []; errors = 0; cancelled = 0 })
    ≡ heading
      ++ (repeat_byte 45 110
          ++ (10 ∷ 10 ∷ (codes "ran for 3.0s, 0 errors, 0 cancelled at the deadline" ++ 10 ∷ [])))
unfolding write_table rows print_nat sort repeat_byte
nothing_run = refl
