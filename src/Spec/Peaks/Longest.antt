-- ===== src/Spec/Peaks/Longest.antt =====
-- gpu_peak_table.go, `matchModelPeak`: which entry of the table a model name is given.
use mathlib.Core.Path.{subst}
use gpufleet_agent.Prelude.{
  ℕ, ◌≤◌, String, ◌≡◌, ◌⊎◌, inl, inr, refl, sym, ap, Bool, true, false, ◌&&◌, ◌||◌, ◌==◌, eq_iff,
  Option, none, some, List, [], ◌∷◌, All, In, ltb, lookup, arith, if◌then◌else◌, Bool-cases,
}
use gpufleet_agent.Prelude.Text.{has_prefix, contains, text_length}
use gpufleet_agent.Float.{Float64}
use gpufleet_agent.Spec.Peaks.{
  GpuPeakEntry, builtin_gpu_peaks, starts_token, model_of, key_length, longest, entry_in, a100_key,
  h100_key, capacity_of, match_fuzzy, match_normalized, match_model_peak,
}

module _ {F : Type 0} where
  In-lookup :
      (k : String) (rows : List (String × GpuPeakEntry F)) (e : GpuPeakEntry F)
      → lookup k rows ≡ some e
      → In (k, e) rows
  unfolding lookup
  In-lookup k [] e h = ground arith
  In-lookup k ((j, x) ∷ rows) e h = ground (arith, eq_iff j k, In-lookup k rows e)

  abbrev pub NoneLonger : String → ℕ → List (String × GpuPeakEntry F) → Type 0
  NoneLonger n bound rows =
      All (λ row. starts_token n row.0 ≡ true → text_length row.0 ≤ bound) rows

  NoneLonger-mono :
      (n : String) (a b : ℕ) (rows : List (String × GpuPeakEntry F))
      → a ≤ b
      → NoneLonger n a rows
      → NoneLonger n b rows
  NoneLonger-mono n a b [] h g = tt
  NoneLonger-mono n a b (row ∷ rows) h (p, g) =
      (λ s. omega (arith, p s, h), NoneLonger-mono n a b rows h g)

  -- A candidate of the table.
  abbrev Candidate : String → List (String × GpuPeakEntry F) → String × GpuPeakEntry F → Type 0
  Candidate n rows row = In row rows × (starts_token n row.0 ≡ true)

  -- What the loop over `rows` makes of the best candidate so far.
  abbrev Bounds :
      String
      → List (String × GpuPeakEntry F)
      → Option (String × GpuPeakEntry F)
      → Option (String × GpuPeakEntry F)
      → Type 0
  Bounds n rows best r =
      (key_length best ≤ key_length r)
      × NoneLonger n (key_length r) rows
      × ((r ≡ best) ⊎ ((row : String × GpuPeakEntry F) × (r ≡ some row) × Candidate n rows row))

  by_test :
      (n k : String) (e : GpuPeakEntry F) (rows : List (String × GpuPeakEntry F))
      (best : Option (String × GpuPeakEntry F)) (b : Bool)
      → (starts_token n k && ltb (key_length best) (text_length k)) ≡ b
      → ((best' : Option (String × GpuPeakEntry F)) → Bounds n rows best' (longest n rows best'))
      → Bounds n ((k, e) ∷ rows) best (longest n rows (if b then some (k, e) else best))
  by_test n k e rows best true h ih =
      let (more, none_longer, from) = ih (some (k, e)) in
      (
        grind (arith, more, h),
        ((λ s. more), none_longer),
        inr (elim from [
          | inl r ↦ ((k, e), r, (inl refl, grind (arith, h)))
          | inr (row, r, (listed, starts)) ↦ (row, r, (inr listed, starts))
        ]),
      )
  by_test n k e rows best false h ih =
      let (more, none_longer, from) = ih best in
      (
        more,
        ((λ s. grind (arith, more, h, s)), none_longer),
        (elim from [
          | inl r ↦ inl r
          | inr (row, r, (listed, starts)) ↦ inr (row, r, (inr listed, starts))
        ]),
      )

  longest-Bounds :
      (n : String) (rows : List (String × GpuPeakEntry F)) (best : Option (String × GpuPeakEntry F))
      → Bounds n rows best (longest n rows best)
  unfolding longest
  longest-Bounds n [] best = (omega arith, tt, inl refl)
  longest-Bounds n ((k, e) ∷ rows) best =
      by_test n k e rows best (starts_token n k && ltb (key_length best) (text_length k)) refl
        (longest-Bounds n rows)

  none_starts :
      (n : String) (rows : List (String × GpuPeakEntry F))
      → All (λ row. 1 ≤ text_length row.0) rows
      → NoneLonger n 0 rows
      → All (λ row. starts_token n row.0 ≡ false) rows
  none_starts n [] h g = tt
  none_starts n (row ∷ rows) (p, h) (q, g) = (grind (arith, p, q), none_starts n rows h g)

-- A name is that of the key; it is of the A100 or of the H100 family, whose keys the form and the
-- memory tell apart; or the key is the longest that it starts with.
abbrev pub Fits : {F : Type 0} → List (String × GpuPeakEntry F) → String → String → Type 0
Fits rows n key =
    (n ≡ key)
    ⊎ ((starts_token n "a100" ≡ true) × ((key ≡ "a100-40gb") ⊎ (key ≡ "a100-80gb")))
    ⊎ ((has_prefix n "h100" ≡ true)
        × ((key ≡ "h100-sxm") ⊎ (key ≡ "h100-pcie") ⊎ (key ≡ "h100-nvl")))
    ⊎ ((starts_token n key ≡ true) × NoneLonger n (text_length key) rows)

abbrev row_or {ℓ} : {A : Type ℓ} → A → Option A → A
row_or a none = a
row_or a (some b) = b

starts_a100 :
    (n : String)
    → ((n == "a100") || has_prefix n "a100-" || has_prefix n "a100 ") ≡ true
    → starts_token n "a100" ≡ true
starts_a100 n h = ground arith

module _ (F : Type 0) ⦃fl : Float64 F⦄ where
  -- What the table answers for a normalized name.
  abbrev pub Answers : String → Option (GpuPeakEntry F) → Type 0
  Answers n none = (n ≡ "") ⊎ All (λ row. starts_token n row.0 ≡ false) (builtin_gpu_peaks {F = F})
  Answers n (some e) =
      (key : String) × In (key, e) (builtin_gpu_peaks {F = F})
      × Fits (builtin_gpu_peaks {F = F}) n key

  a100-Answers :
      (n : String) (o : Option String)
      → starts_token n "a100" ≡ true
      → Answers n (lookup (a100_key o) (builtin_gpu_peaks {F = F}))
  unfolding lookup builtin_gpu_peaks
  a100-Answers n none h = ("a100-40gb", inr (inl refl), inr (inl (h, inl refl)))
  a100-Answers n (some digits) h = by_size (digits == "80")
    where
      by_size :
          (b : Bool)
          → Answers n (lookup (if b then "a100-80gb" else "a100-40gb") (builtin_gpu_peaks {F = F}))
      by_size true = ("a100-80gb", inr (inr (inl refl)), inr (inl (h, inr refl)))
      by_size false = ("a100-40gb", inr (inl refl), inr (inl (h, inl refl)))

  h100-Answers :
      (n : String)
      → has_prefix n "h100" ≡ true
      → Answers n (lookup (h100_key n) (builtin_gpu_peaks {F = F}))
  unfolding lookup builtin_gpu_peaks
  h100-Answers n h = by_form (contains n "nvl") (contains n "pcie" || contains n "pci-e")
    where
      by_form :
          (a b : Bool)
          → Answers n (
              lookup
                (if a then "h100-nvl" else if b then "h100-pcie" else "h100-sxm")
                (builtin_gpu_peaks {F = F}))
      by_form true b =
          ("h100-nvl", inr (inr (inr (inr (inr (inl refl))))), inr (inr (inl (h, inr (inr refl)))))
      by_form false true =
          ("h100-pcie", inr (inr (inr (inr (inl refl)))), inr (inr (inl (h, inr (inl refl)))))
      by_form false false = ("h100-sxm", inr (inr (inr (inl refl))), inr (inr (inl (h, inl refl))))

  keys_have_length : All (λ row. 1 ≤ text_length row.0) (builtin_gpu_peaks {F = F})
  unfolding builtin_gpu_peaks
  keys_have_length = ground arith

  fuzzy-Answers :
      (n : String) (r : Option (String × GpuPeakEntry F))
      → Bounds n (builtin_gpu_peaks {F = F}) none r
      → Answers n (entry_in r)
  fuzzy-Answers n none (more, longer, from) =
      inr (none_starts n (builtin_gpu_peaks {F = F}) keys_have_length longer)
  fuzzy-Answers n (some (k, e)) (more, longer, inl r) = ground arith
  fuzzy-Answers n (some (k, e)) (more, longer, inr (row, r, (listed, starts))) =
      let same = sym (ap (row_or (k, e)) r) in
      (
        k,
        subst (λ x. In x (builtin_gpu_peaks {F = F})) same listed,
        inr (inr (inr (subst (λ x. starts_token n x.0 ≡ true) same starts, longer))),
      )

  match_fuzzy-Answers : (n : String) → Answers n (match_fuzzy {F = F} n)
  match_fuzzy-Answers n =
      elim (Bool-cases ((n == "a100") || has_prefix n "a100-" || has_prefix n "a100 ")) [
        | inl e ↦ rw e (a100-Answers n (capacity_of n) (starts_a100 n e))
        | inr e ↦ rw e (by_prefix (has_prefix n "h100") refl)
      ]
    where
      by_prefix :
          (b : Bool)
          → has_prefix n "h100" ≡ b
          → Answers n (
              if b
              then lookup (h100_key n) (builtin_gpu_peaks {F = F})
              else entry_in (longest n (builtin_gpu_peaks {F = F}) none))
      by_prefix true h = h100-Answers n h
      by_prefix false h = fuzzy-Answers n _ (longest-Bounds n (builtin_gpu_peaks {F = F}) none)

  -- The peak of a model is always that of a row of the built-in table that fits its normalized
  -- name: the name's own row, a row of the A100 or H100 family that the name belongs to, or the row
  -- with the longest key that the name starts with; a name gets none only if it is empty or starts
  -- with no key.
  pub match_model_peak-Answers :
      (model : String) → Answers (model_of model) (match_model_peak {F = F} model)
  unfolding match_model_peak
  match_model_peak-Answers model = elim (Bool-cases (model_of model == "")) [
    | inl e ↦ rw e (inl ((eq_iff (model_of model) "").0 e))
    | inr e ↦ rw e (by_name (lookup (model_of model) (builtin_gpu_peaks {F = F})) refl)
  ]
    where
      by_name :
          (o : Option (GpuPeakEntry F))
          → lookup (model_of model) (builtin_gpu_peaks {F = F}) ≡ o
          → Answers (model_of model) (match_normalized (model_of model) o)
      by_name none h = match_fuzzy-Answers (model_of model)
      by_name (some e) h = (model_of model, In-lookup _ _ e h, inl refl)
