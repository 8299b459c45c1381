-- ===== src/Versions.antt =====
-- internal/kubernetes/version_skew.go: versions of Kubernetes components, and how far a node's lags.
pub mod Parser
pub mod Skew
use k8s_panel.Base.{
  ℕ, zero, suc, ◌+◌, ◌-◌, ◌*◌, ◌/◌, ◌%◌, ◌^◌, ◌≤◌, ◌<◌, ◌≡◌, refl, sym, ap, ◌∙◌, ◌≢◌, ◌↔◌, ◌⊎◌, inl,
  inr, Bool, true, false, not, ◌&&◌, ◌||◌, Option, none, some, List, [], ◌∷◌, ◌++◌, map, arith,
  ℕ_discrete, ltb, leb, ◌==◌, if◌then◌else◌, holds, Bool-cases, Option-cases, length, take, drop,
  length-append, length-take, length-drop, All, keep, Text, runes, text_dec, same, is_empty, utf8,
  byte_length, is_space, is_control, trim_space, contains_rune, has_prefix, fold, equal_fold,
  Absent, AllDistinct, map_option, Holds,
}
use k8s_panel.Base.Int.{ℤ, pos, negsuc, sub_ℕ}

abbrev pub max_version_bytes : ℕ
max_version_bytes = 128

abbrev pub max_numeric_part : ℕ
max_numeric_part = 65535

pub record ComponentVersion : Type 0 where
  pub major : ℕ
  pub minor : ℕ
  pub patch : ℕ

abbrev pub is_digit : ℕ → Bool
is_digit c = leb b'0' c && leb c b'9'

-- The digits that a string begins with, and the rest.
unfoldable pub span_digits : Text → Text × Text
span_digits [] = ([], [])
span_digits (c ∷ s) =
    let (ds, rest) = span_digits s in if is_digit c then (c ∷ ds, rest) else ([], c ∷ s)

-- The value of a string of digits, after a number that was read.
unfoldable pub decimal : ℕ → Text → ℕ
decimal n [] = n
decimal n (d ∷ ds) = decimal (n * 10 + (d - b'0')) ds

-- `parseVersionNumber` on the digits that it found: none and a leading zero are refused, and so is what
-- does not fit in 16 bits. It is only called on digits.
unfoldable pub number_of : Text → Option ℕ
unfolding decimal
number_of [] = none
number_of (d ∷ []) = some (d - b'0')
number_of (d ∷ e ∷ ds) =
    if d == b'0'
    then none
    else let n = decimal 0 (d ∷ e ∷ ds) in if ltb max_numeric_part n then none else some n

unfoldable pub parse_version_number : Text → Option (ℕ × Text)
unfolding span_digits number_of
parse_version_number s =
    let (ds, rest) = span_digits s in map_option (λ n. (n, rest)) (number_of ds)

-- A number and the dot behind it.
unfoldable pub parse_part : Text → Option (ℕ × Text)
unfolding parse_version_number
parse_part s = elim (parse_version_number s) [
  | none ↦ none
  | some (n, rest) ↦ elim rest [
    | [] ↦ none
    | c ∷ rest' ↦ if c == b'.' then some (n, rest') else none
  ]
]

identifier_rune : ℕ → Bool
identifier_rune c =
    (leb b'a' c && leb c b'z') || (leb b'A' c && leb c b'Z') || is_digit c || c == b'-'

-- `validVersionIdentifiers`: identifiers between dots, none empty. The flag says whether the
-- identifier in progress is empty.
unfoldable pub identifiers_from : Bool → Text → Bool
unfolding identifier_rune
identifiers_from empty [] = not empty
identifiers_from empty (c ∷ s) =
    let after_dot = identifiers_from true s in
    let more = identifiers_from false s in
    if c == b'.' then not empty && after_dot else identifier_rune c && more

unfoldable pub valid_version_identifiers : Text → Bool
unfolding identifiers_from
valid_version_identifiers s = identifiers_from true s

-- `strings.Cut(s, "+")`
unfoldable pub cut_plus : Text → Text × Option Text
cut_plus [] = ([], none)
cut_plus (c ∷ s) =
    let (before, after) = cut_plus s in if c == b'+' then ([], some s) else (c ∷ before, after)

unfoldable pub valid_version_suffix : Text → Bool
unfolding valid_version_identifiers cut_plus
valid_version_suffix [] = true
valid_version_suffix (c ∷ s) =
    if c == b'+'
    then valid_version_identifiers s
    else if not (c == b'-')
    then false
    else let (prerelease, build) = cut_plus s in
      valid_version_identifiers prerelease
      && elim build [ none ↦ true | some b ↦ valid_version_identifiers b ]

unfoldable pub parse_numbers : Text → Option ComponentVersion
unfolding parse_part parse_version_number valid_version_suffix
parse_numbers s = elim (parse_part s) [
  | none ↦ none
  | some (major, s') ↦ elim (parse_part s') [
    | none ↦ none
    | some (minor, s'') ↦ elim (parse_version_number s'') [
      | none ↦ none
      | some (patch, suffix) ↦
          if valid_version_suffix suffix
          then some (record { major = major; minor = minor; patch = patch })
          else none
    ]
  ]
]

unfoldable pub parse_component_version : Text → Option ComponentVersion
unfolding parse_numbers byte_length
parse_component_version [] = none
parse_component_version (c ∷ s) =
    if ltb (byte_length (c ∷ s)) 6 || ltb max_version_bytes (byte_length (c ∷ s)) || not (c == b'v')
    then none
    else parse_numbers s

pub data SkewStatus : Type 0 where
  same_minor within_policy upgrade_blocking outside_policy newer_than_server major_mismatch :
      SkewStatus

pub record NodeVersionSkew : Type 0 where
  pub name : Text
  pub kubelet_version : Text
  pub status : SkewStatus
  pub minor_skew : ℤ
  pub maximum_minor_skew : ℕ
  pub minor_skew_comparable : Bool

-- The `switch` of `classifyNodeVersion`, on the difference of the minor versions.
unfoldable pub skew_status : ℤ → ℕ → SkewStatus
skew_status (negsuc n) maximum = newer_than_server
skew_status (pos n) maximum =
    if n == 0
    then same_minor
    else if ltb maximum n
    then outside_policy
    else if n == maximum
    then upgrade_blocking
    else within_policy

unfoldable pub maximum_minor_skew : ComponentVersion → ℕ
maximum_minor_skew kubelet =
    if ltb kubelet.major 1 || (kubelet.major == 1 && ltb kubelet.minor 25) then 2 else 3

unfoldable pub classify_node_version :
    Text → Text → ComponentVersion → ComponentVersion → NodeVersionSkew
unfolding skew_status maximum_minor_skew
classify_node_version name kubelet_text server kubelet =
    if not (server.major == kubelet.major)
    then record {
      name = name;
      kubelet_version = kubelet_text;
      status = major_mismatch;
      minor_skew = pos 0;
      maximum_minor_skew = 0;
      minor_skew_comparable = false;
    }
    else let skew = sub_ℕ server.minor kubelet.minor in
      let maximum = maximum_minor_skew kubelet in
      record {
        name = name;
        kubelet_version = kubelet_text;
        status = skew_status skew maximum;
        minor_skew = skew;
        maximum_minor_skew = maximum;
        minor_skew_comparable = true;
      }
