-- ===== src/Recipients/Tests.antt =====
-- Address lists at concrete inputs.
use yarilo_loadtest.Base.{
  ◌≡◌, refl, List, [], ◌∷◌, ◌++◌, map, none, some, arith, codes, ◌==◌, if◌then◌else◌, ◌%◌, word,
  signed,
}
use yarilo_loadtest.Base.Result.{ok}
use yarilo_loadtest.Text.{trim_space, trim_left, trim_right, split}
use yarilo_loadtest.Text.Number.{print_nat}
use yarilo_loadtest.Recipients.{split_count, expand_recipients, split_list_loop, split_list}
use yarilo_loadtest.Recipients.Count.{split_count-print_nat}
use yarilo_loadtest.Text.Joined.{join_commas}
use yarilo_loadtest.Recipients.Expand.{
  Entry, named, numbered, render, meanings, expand_recipients-render,
}

abbrev some_entries : List Entry
some_entries = numbered (codes "u") 9 (codes "x.org") 2 ∷ []

expand_recipients-render_example :
    expand_recipients (codes "-to") (join_commas (map render (named (codes "a@b") ∷ some_entries)))
    ≡ ok (meanings (named (codes "a@b") ∷ some_entries))
expand_recipients-render_example =
    expand_recipients-render (codes "-to") (named (codes "a@b")) some_entries (ground arith)
      (ground arith)

split_count-print_nat_example :
    split_count (codes "u@x" ++ b':' ∷ print_nat 150)
    ≡ (if 150 % word == 0 then none else some (codes "u@x", signed (150 % word)))
split_count-print_nat_example = split_count-print_nat (codes "u@x") 150

listed : split_list (codes " a@b ,,c@d") ≡ codes "a@b" ∷ codes "c@d" ∷ []
unfolding split_list split_list_loop split trim_space trim_left trim_right
listed = refl
