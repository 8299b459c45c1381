-- ===== src/Names/Labels.antt =====
-- internal/domain/validation.go: the test for a DNS subdomain.
use k8s_panel.Base.{
  ◌≡◌, inl, inr, true, false, ◌&&◌, [], ◌∷◌, ◌++◌, arith, leb, ◌==◌, Bool-cases, Text, byte_length,
}
use mathlib.Core.List.{append-nil, append_assoc}
use k8s_panel.Names.{
  lower_alnum, label_rune, subdomain_rune, runes_then, bracketed, dns_subdomain_pattern, split_from,
  split, valid_dns_label, all_labels, valid_dns_subdomain,
}

runes_then-subdomain :
    (s : Text)
    → runes_then label_rune lower_alnum s ≡ true
    → runes_then subdomain_rune lower_alnum s ≡ true
unfolding runes_then
runes_then-subdomain [] h = h
runes_then-subdomain (c ∷ []) h = h
runes_then-subdomain (c ∷ d ∷ s) h = ground (arith, runes_then-subdomain (d ∷ s))

pub label-subdomain : (s : Text) → valid_dns_label s ≡ true → dns_subdomain_pattern s ≡ true
unfolding valid_dns_label
label-subdomain [] h = ground arith
label-subdomain (c ∷ []) h = ground arith
label-subdomain (c ∷ d ∷ s) h = ground (arith, runes_then-subdomain (d ∷ s))

runes_then_of_pattern :
    (s : Text) → dns_subdomain_pattern s ≡ true → runes_then subdomain_rune lower_alnum s ≡ true
unfolding bracketed
runes_then_of_pattern [] h = h
runes_then_of_pattern (c ∷ []) h = h
runes_then_of_pattern (c ∷ d ∷ s) h = ground arith

runes_then-dot :
    (s t : Text)
    → runes_then subdomain_rune lower_alnum s ≡ true
    → runes_then subdomain_rune lower_alnum t ≡ true
    → runes_then subdomain_rune lower_alnum (s ++ b'.' ∷ t) ≡ true
unfolding runes_then
runes_then-dot [] t h k = cc
runes_then-dot (c ∷ []) [] h k = cc
runes_then-dot (c ∷ []) (d ∷ t) h k = ground arith
runes_then-dot (c ∷ e ∷ s) t h k = ground (arith, runes_then-dot (e ∷ s) t)

pattern-dot :
    (s t : Text)
    → dns_subdomain_pattern s ≡ true
    → dns_subdomain_pattern t ≡ true
    → dns_subdomain_pattern (s ++ b'.' ∷ t) ≡ true
unfolding bracketed
pattern-dot [] t h k = cc
pattern-dot (c ∷ []) [] h k = cc
pattern-dot (c ∷ []) (d ∷ t) h k = ground (arith, runes_then_of_pattern (d ∷ t) k)
pattern-dot (c ∷ e ∷ s) t h k = ground (arith, runes_then-dot (e ∷ s) t, runes_then_of_pattern t k)

pattern-split_from :
    (part s : Text)
    → all_labels (split_from b'.' part s) ≡ true
    → dns_subdomain_pattern (part ++ s) ≡ true
unfolding split_from all_labels
pattern-split_from part [] h = rw (append-nil part) (label-subdomain part (ground arith))
pattern-split_from part (c ∷ s) h = elim (Bool-cases (c == b'.')) [
  | inl e ↦
      let d : c ≡ b'.' = ground arith in
      rw d (
        pattern-dot part s (label-subdomain part (ground arith))
          (pattern-split_from [] s (ground arith)))
  | inr e ↦
      rw (← append_assoc part (c ∷ []) s) (pattern-split_from (part ++ c ∷ []) s (ground arith))
]

byte_length-pos : (s : Text) → dns_subdomain_pattern s ≡ true → (byte_length s == 0) ≡ false
unfolding bracketed byte_length
byte_length-pos [] h = cc
byte_length-pos (c ∷ s) h = ground arith

-- A DNS subdomain is a string of at most 253 bytes whose parts between the dots are DNS labels; the
-- pattern that the code tests besides demands nothing more.
pub valid_dns_subdomain_lem :
    (s : Text) → valid_dns_subdomain s ≡ (leb (byte_length s) 253 && all_labels (split b'.' s))
unfolding valid_dns_subdomain
valid_dns_subdomain_lem s = elim (Bool-cases (all_labels (split b'.' s))) [
  | inl e ↦ let p = pattern-split_from [] s e in ground (arith, byte_length-pos s p)
  | inr e ↦ ground arith
]
