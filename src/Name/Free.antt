-- ===== src/Name/Free.antt =====
-- The output name: the first candidate that is free.
use iroh_drop.Prelude.{
  ℕ, zero, suc, ◌+◌, ◌≤◌, ◌<◌, ◌≡◌, refl, sym, ap, ◌∙◌, inl, inr, true, false, arith, Bool-cases,
  ◌⊎◌, subst, ℕ_discrete,
}
use iroh_drop.Text.{Text}
use iroh_drop.Error.{
  Result, ok, err, ◌>>◌, ProtocolError, invalid_name, no_free_name, escapes_output_directory,
}
use iroh_drop.Hash.{HexLower, fmt_short}
use iroh_drop.Message.{BlobHash}
use iroh_drop.Name.{
  Directory, try_names, validate_name, collision_safe_path, candidate, split_extension,
}

module _ (dir : Directory) (name : ℕ → Text) where
  -- Every attempt from `from` up to `to` is taken.
  abbrev pub AllTaken : ℕ → ℕ → Type 0
  AllTaken from to = (j : ℕ) → from ≤ j → j < to → dir.exists_there (name j) ≡ true

  -- What the search says of the attempts from `from` up to `to`.
  abbrev pub Chooses : ℕ → ℕ → Result ProtocolError Text → Type 0
  Chooses from to (ok s) =
      (k : ℕ) × (from ≤ k)
      × (k < to)
      × (name k ≡ s)
      × (dir.is_child s ≡ true)
      × (dir.exists_there s ≡ false)
      × AllTaken from k
  Chooses from to (err e) =
      ((e ≡ invalid_name no_free_name) × AllTaken from to)
      ⊎ ((e ≡ invalid_name escapes_output_directory)
          × ((k : ℕ) × (from ≤ k) × (k < to) × (dir.is_child (name k) ≡ false) × AllTaken from k))

  one_more_taken :
      (from to : ℕ)
      → dir.exists_there (name from) ≡ true
      → AllTaken (from + 1) to
      → AllTaken from to
  one_more_taken from to t before j h g = elim (ℕ_discrete from j) [
    | yes p ↦ ap (λ n. dir.exists_there (name n)) (sym p) ∙ t
    | no ne ↦ before j (omega (arith, h, ne)) g
  ]

  one_earlier :
      (from to : ℕ) (r : Result ProtocolError Text)
      → dir.exists_there (name from) ≡ true
      → Chooses (from + 1) to r
      → Chooses from to r
  one_earlier from to (ok s) t (k, lo, hi, same, child, free, before) =
      (k, omega arith, hi, same, child, free, one_more_taken from k t before)
  one_earlier from to (err e) t (inl (same, before)) = inl (same, one_more_taken from to t before)
  one_earlier from to (err e) t (inr (same, (k, lo, hi, out, before))) =
      inr (same, (k, omega arith, hi, out, one_more_taken from k t before))

  nothing_before : (k : ℕ) → AllTaken k k
  nothing_before k j h g = absurd (omega arith)

  try_names-Chooses :
      (left from to : ℕ) → to ≡ from + left → Chooses from to (try_names dir name left from)
  unfolding try_names
  try_names-Chooses zero from to e = inl (refl, λ j h g. absurd (omega arith))
  try_names-Chooses (suc left) from to e = elim (Bool-cases (dir.is_child (name from))) [
    | inr out ↦
        rw (out, try_names) (inr (refl, (from, omega arith, omega arith, out, nothing_before from)))
    | inl child ↦ elim (Bool-cases (dir.exists_there (name from))) [
      | inr free ↦
          rw (child, free, try_names)
            (from, omega arith, omega arith, refl, child, free, nothing_before from)
      | inl taken ↦
          rw (child, taken, try_names)
            (one_earlier from to (try_names dir name left (from + 1)) taken
              (try_names-Chooses left (from + 1) to (omega arith)))
    ]
  ]

-- For a valid name the result is the first of a thousand candidates that is free; before it every one is
-- taken. It fails only where all are taken, or where a candidate would leave the directory.
pub collision_safe_path-Chooses :
    (hex : HexLower) (dir : Directory) (name : Text) (hash : BlobHash)
    → validate_name name ≡ ok tt
    → Chooses dir
        (candidate (split_extension name).0 (fmt_short hex hash) (split_extension name).1)
        0
        1000
        (collision_safe_path hex dir name hash)
unfolding collision_safe_path
collision_safe_path-Chooses hex dir name hash valid =
    subst (Chooses dir choice 0 1000) (sym searched) (try_names-Chooses dir choice 1000 0 1000 refl)
  where
    choice : ℕ → Text
    choice = candidate (split_extension name).0 (fmt_short hex hash) (split_extension name).1

    searched : collision_safe_path hex dir name hash ≡ try_names dir choice 1000 0
    searched = ap (λ r. r >> try_names dir choice 1000 0) valid
