-- ===== src/Imap/Client/Literal.antt =====
-- How a line announces a literal (internal/imapdrv/client.go: literalSize).
use yarilo_loadtest.Base.{
  ℕ, ◌-◌, ◌≤◌, ◌≡◌, ◌≢◌, refl, sym, ap, subst, ◌∙◌, Bool, true, false, [], ◌∷◌, ◌++◌, some,
  append_assoc, All-append, arith, Bytes, codes, length, length-append, take, drop, pos,
}
use yarilo_loadtest.Text.{is_crlf, trim_right, has_suffix, bytes_eq, trim_crlf}
use yarilo_loadtest.Text.Laws.{Lacks, has_suffix-append, cut_last-append}
use yarilo_loadtest.Text.Number.{print_nat, max_int, atoi}
use yarilo_loadtest.Text.Decimal.{atoi-print_nat, print_nat-IsDigit}
use yarilo_loadtest.Recipients.Count.{IsDigit-Lacks}
use yarilo_loadtest.Imap.Client.{trim_plus, literal_spec, literal_size}

take-append : (s t : Bytes) → take (length s) (s ++ t) ≡ s
take-append [] t = refl
take-append (c ∷ s) t = ap (◌∷◌ c) (take-append s t)

pub drop-append : (s t : Bytes) → drop (length s) (s ++ t) ≡ t
drop-append [] t = refl
drop-append (c ∷ s) t = drop-append s t

-- A line that announces a literal of n bytes.
abbrev pub announcing : Bytes → ℕ → Bytes
announcing head n = head ++ b'{' ∷ (print_nat n ++ b'}' ∷ [])

digits_end_no_plus : (s : Bytes) → Lacks b'+' s → has_suffix s (codes "+") ≡ false
unfolding has_suffix bytes_eq
digits_end_no_plus [] h = refl
digits_end_no_plus (c ∷ s) h = ground (arith, digits_end_no_plus s h.1)

trim_plus-print_nat : (n : ℕ) → trim_plus (print_nat n) ≡ print_nat n
unfolding trim_plus
trim_plus-print_nat n =
    rw (digits_end_no_plus (print_nat n) (IsDigit-Lacks b'+' refl _ (print_nat-IsDigit n)))

literal_spec-print_nat : (n : ℕ) → n ≤ max_int → literal_spec (print_nat n ++ b'}' ∷ []) ≡ some n
unfolding literal_spec
literal_spec-print_nat n h =
    let d = print_nat n in
    let same : length (d ++ b'}' ∷ []) - 1 ≡ length d =
      omega (arith, length-append {0} d (b'}' ∷ [])) in
    let t : take (length (d ++ b'}' ∷ []) - 1) (d ++ b'}' ∷ []) ≡ d =
      ap (λ (k : ℕ). take k (d ++ b'}' ∷ [])) same ∙ take-append d (b'}' ∷ []) in
    let value : atoi (trim_plus (take (length (d ++ b'}' ∷ []) - 1) (d ++ b'}' ∷ [])))
        ≡ some (pos n) =
      ap (λ u. atoi (trim_plus u)) t ∙ ap atoi (trim_plus-print_nat n) ∙ atoi-print_nat n h in
    ground (arith, value)

pub literal_size-announcing :
    (head : Bytes) (n : ℕ) → n ≤ max_int → literal_size (announcing head n) ≡ some n
unfolding literal_size
literal_size-announcing head n h =
    let d = print_nat n in
    let closed : has_suffix (announcing head n) (codes "}") ≡ true =
      ap (λ s. has_suffix s (codes "}")) (sym (append_assoc head (b'{' ∷ d) (b'}' ∷ [])))
      ∙ has_suffix-append (head ++ b'{' ∷ d) (codes "}") in
    let lacks : Lacks b'{' (d ++ b'}' ∷ []) =
      All-append (λ c. c ≢ b'{') d (b'}' ∷ []) (IsDigit-Lacks b'{' refl _ (print_nat-IsDigit n))
        (omega arith) in
    rw (closed, cut_last-append head (d ++ b'}' ∷ []) b'{' lacks) (literal_spec-print_nat n h)

-- A text whose last byte ends no line keeps all its bytes when its line end is trimmed.
trim_right_end :
    (p : ℕ → Bool) (s : Bytes) (c : ℕ) → p c ≡ false → trim_right p (s ++ c ∷ []) ≡ s ++ c ∷ []
unfolding trim_right
trim_right_end p [] c h = rw h
trim_right_end p (d ∷ []) c h = rw h
trim_right_end p (d ∷ e ∷ s) c h = rw (trim_right_end p (e ∷ s) c h)

pub trim_crlf-announcing :
    (head : Bytes) (n : ℕ) → trim_crlf (announcing head n) ≡ announcing head n
unfolding trim_crlf
trim_crlf-announcing head n =
    let line = head ++ b'{' ∷ print_nat n in
    let e : line ++ b'}' ∷ [] ≡ announcing head n =
      append_assoc head (b'{' ∷ print_nat n) (b'}' ∷ []) in
    subst (λ t. trim_right is_crlf t ≡ t) e (trim_right_end is_crlf line b'}' refl)

pub announcing-Lacks : (head : Bytes) (n : ℕ) → Lacks 10 head → Lacks 10 (announcing head n)
announcing-Lacks head n h =
    All-append (λ c. c ≢ 10) head _ h
      (
        omega arith,
        All-append (λ c. c ≢ 10) (print_nat n) (b'}' ∷ [])
            (IsDigit-Lacks 10 refl _ (print_nat-IsDigit n)) (omega arith),
      )
