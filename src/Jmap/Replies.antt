-- ===== src/Jmap/Replies.antt =====
-- Which answers the JMAP driver (internal/jmapdrv/jmap.go) takes for a success.
use yarilo_loadtest.Base.{
  ◌≡◌, ◌≢◌, ◌↔◌, refl, false, List, [], ◌∷◌, some, Bytes, codes, arith, All, Option-cases,
  Bool-cases, inl, inr,
}
use yarilo_loadtest.Base.Result.{ok}
use yarilo_loadtest.Text.{bytes_eq}
use yarilo_loadtest.Text.Laws.{bytes_eq_iff, bytes_eq_refl}
use yarilo_loadtest.Jmap.Checks.{
  Packages, check_name, check_response, check_loop, check_method_errors,
}

module _ (p : Packages) where
  -- A method response as RFC 8620 has it, other than an error: an array that begins with a name and
  -- the arguments.
  abbrev pub Succeeds : Bytes → Type 0
  Succeeds raw =
      (name : Bytes) × (argument : Bytes) × (rest : List Bytes) × (s : Bytes) × (p.decode_array raw
        ≡ some (name ∷ argument ∷ rest))
      × (p.decode_text name ≡ some s)
      × (s ≢ codes "error")

  -- An envelope with a response, all of which succeed.
  abbrev pub AllSucceed : Bytes → Type 0
  AllSucceed body =
      (raws : List Bytes) × (p.decode_envelope body ≡ some raws) × (raws ≢ []) × All Succeeds raws

  is_error-other : (s : Bytes) → s ≢ codes "error" → bytes_eq s (codes "error") ≡ false
  is_error-other s h = elim (Bool-cases (bytes_eq s (codes "error"))) [
    | inl same ↦ elim (h ((bytes_eq_iff s (codes "error")).0 same)) [ ]
    | inr other ↦ other
  ]

  check_response-good : (raw : Bytes) → Succeeds raw → check_response p raw ≡ ok tt
  unfolding check_response check_name
  check_response-good raw (name, argument, rest, s, array, text, fine) =
      rw (check_response, array, check_name, text, is_error-other s fine) refl

  check_name-Succeeds :
      (raw name argument : Bytes) (rest : List Bytes)
      → p.decode_array raw ≡ some (name ∷ argument ∷ rest)
      → check_name p raw name argument ≡ ok tt
      → Succeeds raw
  unfolding check_name
  check_name-Succeeds raw name argument rest array h = elim (Option-cases (p.decode_text name)) [
    | inl unnamed ↦ ground (arith, h, unnamed)
    | inr (s, text) ↦ (
      name,
      argument,
      rest,
      s,
      array,
      text,
      λ same. ground (arith, h, text, same, bytes_eq_refl (codes "error")),
    )
  ]

  triple-Succeeds :
      (raw : Bytes) (triple : List Bytes)
      → p.decode_array raw ≡ some triple
      → check_response p raw ≡ ok tt
      → Succeeds raw
  unfolding check_response
  triple-Succeeds raw [] array h = ground (arith, array, h)
  triple-Succeeds raw (name ∷ []) array h = ground (arith, array, h)
  triple-Succeeds raw (name ∷ argument ∷ rest) array h =
      check_name-Succeeds raw name argument rest array (ground (arith, array, h))

  check_response-Succeeds : (raw : Bytes) → check_response p raw ≡ ok tt → Succeeds raw
  unfolding check_response
  check_response-Succeeds raw h = elim (Option-cases (p.decode_array raw)) [
    | inl no_array ↦ ground (arith, h, no_array)
    | inr (triple, array) ↦ triple-Succeeds raw triple array h
  ]

  check_loop-good : (raws : List Bytes) → All Succeeds raws → check_loop p raws ≡ ok tt
  unfolding check_loop
  check_loop-good [] h = refl
  check_loop-good (raw ∷ raws) h =
      rw (check_loop, check_response-good raw h.0) (check_loop-good raws h.1)

  check_loop-All : (raws : List Bytes) → check_loop p raws ≡ ok tt → All Succeeds raws
  unfolding check_loop
  check_loop-All [] h = tt
  check_loop-All (raw ∷ raws) h =
      (check_response-Succeeds raw (ground (arith, h)), check_loop-All raws (ground (arith, h)))

  raws-AllSucceed :
      (body : Bytes) (raws : List Bytes)
      → p.decode_envelope body ≡ some raws
      → check_method_errors p body ≡ ok tt
      → AllSucceed body
  unfolding check_method_errors
  raws-AllSucceed body [] found h = ground (arith, found, h)
  raws-AllSucceed body (raw ∷ raws) found h =
      (raw ∷ raws, found, λ none_left. cc, check_loop-All (raw ∷ raws) (ground (arith, found, h)))

  check_method_errors-AllSucceed :
      (body : Bytes) → check_method_errors p body ≡ ok tt → AllSucceed body
  unfolding check_method_errors
  check_method_errors-AllSucceed body h = elim (Option-cases (p.decode_envelope body)) [
    | inl no_envelope ↦ ground (arith, h, no_envelope)
    | inr (raws, found) ↦ raws-AllSucceed body raws found h
  ]

  raws-good :
      (body : Bytes) (raws : List Bytes)
      → p.decode_envelope body ≡ some raws
      → raws ≢ []
      → All Succeeds raws
      → check_method_errors p body ≡ ok tt
  unfolding check_method_errors
  raws-good body [] found some_left good = elim (some_left refl) [ ]
  raws-good body (raw ∷ raws) found some_left good =
      rw (check_method_errors, found) (check_loop-good (raw ∷ raws) good)

  -- The body of an answer passes exactly when it decodes to an envelope that has a method response at
  -- all and each of its responses is an array of at least two entries that begins with a name other
  -- than "error".
  pub check_method_errors_iff :
      (body : Bytes) → (check_method_errors p body ≡ ok tt) ↔ AllSucceed body
  check_method_errors_iff body = (
    check_method_errors-AllSucceed body,
    λ (raws, found, some_left, good). raws-good body raws found some_left good,
  )
