-- ===== src/Versions/Parser.antt =====
-- internal/kubernetes/version_skew.go: what the parser of versions accepts.
use k8s_panel.Base.{
  ℕ, ◌≤◌, ◌≡◌, ◌≢◌, ◌⊎◌, refl, sym, inl, inr, true, some, [], ◌∷◌, ◌++◌, arith, Option-cases, All,
  Text, byte_length,
}
use k8s_panel.Versions.{
  ComponentVersion, max_numeric_part, is_digit, span_digits, number_of, decimal,
  parse_version_number, parse_part, parse_component_version, valid_version_suffix,
}

-- The digits that a string begins with are what comes before the rest.
span_digits-append : (s : Text) → (span_digits s).0 ++ (span_digits s).1 ≡ s
unfolding span_digits
span_digits-append [] = refl
span_digits-append (c ∷ s) = ground (arith, span_digits-append s)

number_of-le :
    (ds : Text) {n : ℕ}
    → All (λ d. is_digit d ≡ true) ds
    → number_of ds ≡ some n
    → n ≤ max_numeric_part
unfolding number_of
number_of-le [] a h = cc
number_of-le (d ∷ []) a h = ground arith
number_of-le (d ∷ e ∷ ds) a h = ground arith

All-span_digits : (s : Text) → All (λ d. is_digit d ≡ true) (span_digits s).0
unfolding span_digits
All-span_digits [] = tt
All-span_digits (c ∷ s) = ground (arith, All-span_digits s)

-- A decimal digit.
abbrev pub IsDecimal : ℕ → Type 0
IsDecimal d = (48 ≤ d) × (d ≤ 57)

All-IsDecimal : (s : Text) → All IsDecimal (span_digits s).0
unfolding span_digits
All-IsDecimal [] = tt
All-IsDecimal (c ∷ s) = ground (arith, All-IsDecimal s)

-- The digits have no zero in front, unless they are a zero alone.
abbrev pub IsNumeral : Text → Type 0
IsNumeral ds = (d : ℕ) × (tail : Text) × (ds ≡ d ∷ tail) × ((tail ≡ []) ⊎ (d ≢ 48))

number_of-IsNumeral :
    (ds : Text) {n : ℕ} → number_of ds ≡ some n → IsNumeral ds × (decimal 0 ds ≡ n)
unfolding number_of decimal
number_of-IsNumeral [] h = cc
number_of-IsNumeral (d ∷ []) h = ((d, [], refl, inl refl), ground arith)
number_of-IsNumeral (d ∷ e ∷ ds) h = ((d, e ∷ ds, refl, inr (ground arith)), ground arith)

-- A string begins with the decimal digits of a number of at most 16 bits, with no zero in front, and goes on with the rest.
abbrev pub Reads : Text → ℕ → Text → Type 0
Reads s n rest =
    (ds : Text) × (s ≡ ds ++ rest)
    × All IsDecimal ds
    × IsNumeral ds
    × (decimal 0 ds ≡ n)
    × (n ≤ max_numeric_part)

parse_version_number-some :
    (s : Text) {n : ℕ} {rest : Text} → parse_version_number s ≡ some (n, rest) → Reads s n rest
unfolding parse_version_number
parse_version_number-some s {n} {rest} h =
    let e : number_of (span_digits s).0 ≡ some n = ground arith in
    let r : (span_digits s).1 ≡ rest = ground arith in
    (
      (span_digits s).0,
      rw (← r) (sym (span_digits-append s)),
      All-IsDecimal s,
      (number_of-IsNumeral (span_digits s).0 e).0,
      (number_of-IsNumeral (span_digits s).0 e).1,
      number_of-le _ (All-span_digits s) e,
    )

parse_part-some :
    (s : Text) {n : ℕ} {rest : Text} → parse_part s ≡ some (n, rest) → Reads s n (b'.' ∷ rest)
unfolding parse_part
parse_part-some s {n} {rest} h = elim (Option-cases (parse_version_number s)) [
  | inl e ↦ absurd (ground arith)
  | inr ((m, []), e) ↦ absurd (ground arith)
  | inr ((m, c ∷ r), e) ↦
      let p : m ≡ n = ground arith in
      let q : c ∷ r ≡ b'.' ∷ rest = ground arith in
      rw (← p) (rw (← q) (parse_version_number-some s e))
]

-- An accepted version is `v` and three numbers of at most 16 bits, in decimal digits, with dots between them, each with no
-- leading zero, and then a well-formed suffix; and it is no longer than 128 bytes.
pub parse_component_version-some :
    (value : Text) {v : ComponentVersion}
    → parse_component_version value ≡ some v
    → (s t u suffix : Text) × (value ≡ b'v' ∷ s)
      × Reads s v.major (b'.' ∷ t)
      × Reads t v.minor (b'.' ∷ u)
      × Reads u v.patch suffix
      × (valid_version_suffix suffix ≡ true)
      × (byte_length value ≤ 128)
unfolding parse_component_version
parse_component_version-some [] h = cc
parse_component_version-some (c ∷ s) {v} h = elim (Option-cases (parse_part s)) [
  | inl e ↦ absurd (ground arith)
  | inr ((major, t), e) ↦ elim (Option-cases (parse_part t)) [
    | inl e' ↦ absurd (ground arith)
    | inr ((minor, u), e') ↦ elim (Option-cases (parse_version_number u)) [
      | inl e'' ↦ absurd (ground arith)
      | inr ((patch, suffix), e'') ↦
          let i : major ≡ v.major = ground arith in
          let j : minor ≡ v.minor = ground arith in
          let k : patch ≡ v.patch = ground arith in
          (
            s,
            t,
            u,
            suffix,
            ground arith,
            rw (← i) (parse_part-some s e),
            rw (← j) (parse_part-some t e'),
            rw (← k) (parse_version_number-some u e''),
            ground arith,
            ground arith,
          )
    ]
  ]
]
