-- ===== src/Names.antt =====
-- internal/domain/validation.go: the patterns of names. Each regular expression is written out as
-- the test that it makes.
pub mod Labels
use k8s_panel.Base.{
  ℕ, zero, suc, ◌+◌, ◌-◌, ◌*◌, ◌/◌, ◌%◌, ◌^◌, ◌≤◌, ◌<◌, ◌≡◌, refl, sym, ap, ◌∙◌, ◌≢◌, ◌↔◌, ◌⊎◌, inl,
  inr, Bool, true, false, not, ◌&&◌, ◌||◌, Option, none, some, List, [], ◌∷◌, ◌++◌, map, arith,
  ℕ_discrete, ltb, leb, ◌==◌, if◌then◌else◌, holds, Bool-cases, Option-cases, length, take, drop,
  length-append, length-take, length-drop, All, keep, Text, runes, text_dec, same, is_empty, utf8,
  byte_length, is_space, is_control, trim_space, contains_rune, has_prefix, fold, equal_fold,
  Absent, AllDistinct, map_option, Holds,
}

-- `[a-z0-9]`, `[-a-z0-9]`, `[-a-z0-9.]`
abbrev pub lower_alnum : ℕ → Bool
lower_alnum c = (leb b'a' c && leb c b'z') || (leb b'0' c && leb c b'9')

abbrev pub label_rune : ℕ → Bool
label_rune c = c == b'-' || lower_alnum c

abbrev pub subdomain_rune : ℕ → Bool
subdomain_rune c = label_rune c || c == b'.'

-- `[A-Za-z0-9]`, `[A-Za-z0-9._-]`, `[A-Za-z0-9._/-]`
abbrev pub alnum : ℕ → Bool
alnum c = (leb b'A' c && leb c b'Z') || lower_alnum c

abbrev pub name_rune : ℕ → Bool
name_rune c = alnum c || c == b'.' || c == b'_' || c == b'-'

abbrev pub chart_rune : ℕ → Bool
chart_rune c = name_rune c || c == b'/'

-- `p*`
unfoldable pub all_runes : (ℕ → Bool) → Text → Bool
all_runes p [] = true
all_runes p (c ∷ s) = p c && all_runes p s

-- `p*q`, for a `q` that `p` includes.
unfoldable pub runes_then : (ℕ → Bool) → (ℕ → Bool) → Text → Bool
runes_then p q [] = false
runes_then p q (c ∷ []) = q c
runes_then p q (c ∷ d ∷ s) = p c && runes_then p q (d ∷ s)

-- `^q(p*q)?$`
unfoldable pub bracketed : (ℕ → Bool) → (ℕ → Bool) → Text → Bool
unfolding runes_then
bracketed p q [] = false
bracketed p q (c ∷ []) = q c
bracketed p q (c ∷ d ∷ s) = q c && runes_then p q (d ∷ s)

abbrev pub dns_label_pattern : Text → Bool
dns_label_pattern = bracketed label_rune lower_alnum

abbrev pub dns_subdomain_pattern : Text → Bool
dns_subdomain_pattern = bracketed subdomain_rune lower_alnum

-- `^[A-Za-z0-9]` and a bounded number of further characters.
unfoldable pub bounded_pattern : (ℕ → Bool) → ℕ → Text → Bool
unfolding all_runes
bounded_pattern p limit [] = false
bounded_pattern p limit (c ∷ s) = alnum c && all_runes p s && leb (length s) limit

abbrev pub resource_name_pattern : Text → Bool
resource_name_pattern = bounded_pattern name_rune 63

abbrev pub chart_name_pattern : Text → Bool
chart_name_pattern = bounded_pattern chart_rune 127

-- `strings.Split(s, ".")`, the part in progress first.
unfoldable pub split_from : ℕ → Text → Text → List Text
split_from sep part [] = part ∷ []
split_from sep part (c ∷ s) =
    let next = split_from sep [] s in
    let more = split_from sep (part ++ c ∷ []) s in if c == sep then part ∷ next else more

unfoldable pub split : ℕ → Text → List Text
unfolding split_from
split sep s = split_from sep [] s

unfoldable pub valid_dns_label : Text → Bool
unfolding byte_length bracketed
valid_dns_label s = ltb 0 (byte_length s) && leb (byte_length s) 63 && dns_label_pattern s

unfoldable pub all_labels : List Text → Bool
unfolding valid_dns_label
all_labels [] = true
all_labels (l ∷ ls) = valid_dns_label l && all_labels ls

unfoldable pub valid_dns_subdomain : Text → Bool
unfolding all_labels split bracketed byte_length
valid_dns_subdomain s =
    if byte_length s == 0 || ltb 253 (byte_length s) || not (dns_subdomain_pattern s)
    then false
    else all_labels (split b'.' s)
