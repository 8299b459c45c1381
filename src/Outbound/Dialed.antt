-- ===== src/Outbound/Dialed.antt =====
-- internal/outbound/policy.go: what is dialed.
use k8s_panel.Base.{
  ◌≡◌, refl, sym, ap, ◌∙◌, ◌⊎◌, inl, inr, true, some, List, [], ◌∷◌, arith, Bool-cases,
  Option-cases, All, Text,
}
use k8s_panel.Domain.{Result, Result-cases, Error, ok}
use k8s_panel.Outbound.{
  Net, is_allowed, all_allowed, lookup, checked_addresses, dial_first, dial_context,
}

module _ (net : Net) where
  open net use {Addr, Ip, Prefix, Conn}

  all_allowed-All :
      (allowed : List Prefix) (xs : List Addr)
      → all_allowed net allowed xs ≡ true
      → All (λ a. is_allowed net allowed a ≡ true) xs
  unfolding all_allowed
  all_allowed-All allowed [] h = tt
  all_allowed-All allowed (a ∷ xs) h = (ground arith, all_allowed-All allowed xs (ground arith))

  module _ (lookup_ip : Text → Result (List Ip)) where
    checked_addresses-ok :
        (allowed : List Prefix) (host : Text) (xs : List Addr)
        → checked_addresses net lookup_ip allowed host ≡ ok xs
        → (lookup net lookup_ip host ≡ ok xs) × (all_allowed net allowed xs ≡ true)
    unfolding checked_addresses
    checked_addresses-ok allowed host xs h = elim (Result-cases (lookup net lookup_ip host)) [
      | inr (x, e) ↦ absurd (ground (arith, e))
      | inl ([], e) ↦ absurd (ground (arith, e))
      | inl (a ∷ ys, e) ↦ elim (Bool-cases (all_allowed net allowed (a ∷ ys))) [
        | inr b ↦ absurd (ground (arith, e, b))
        | inl b ↦
            let k : a ∷ ys ≡ xs = ground (arith, e, b) in
            (e ∙ ap (λ (l : List Addr). ok l) k, ap (all_allowed net allowed) (sym k) ∙ b)
      ]
    ]

    module _ (dial : Addr → Text → Result Conn) where
      dial_first-All :
          (P : Addr → Type 0) (xs : List Addr) (port : Text) (last : Error)
          → All P xs
          → All P (dial_first net lookup_ip dial xs port last).0
      unfolding dial_first
      dial_first-All P [] port last a = tt
      dial_first-All P (x ∷ xs) port last a = elim (Result-cases (dial x port)) [
        | inl (c, e) ↦ rw (e, dial_first) (a.0, tt)
        | inr (e', e) ↦ rw (e, dial_first) (a.0, dial_first-All P xs port e' a.1)
      ]

      -- The panel dials no address that its policy forbids: whatever the resolver and the dialer answer, each
      -- address that `DialContext` tries to connect to, also where it fails in the end, is allowed by the policy, and so is every other
      -- address that the host has: one forbidden address among them, and nothing is dialed.
      pub dial_context-Allowed :
          (allowed : List Prefix) (address : Text)
          → let r = dial_context net lookup_ip dial allowed address in
            All (λ a. is_allowed net allowed a ≡ true) r.0
            × ((r.0 ≡ [])
                ⊎ ((host : Text) × (port : Text) × (xs : List Addr) × (net.split_host_port address
                      ≡ some (host, port))
                    × (lookup net lookup_ip host ≡ ok xs)
                    × All (λ a. is_allowed net allowed a ≡ true) xs))
      unfolding dial_context
      dial_context-Allowed allowed address = elim (Option-cases (net.split_host_port address)) [
        | inl e ↦ rw (e, dial_context) (tt, inl refl)
        | inr ((host, port), e) ↦
            elim (Result-cases (checked_addresses net lookup_ip allowed host)) [
              | inr (x, c) ↦ rw (e, c, dial_context) (tt, inl refl)
              | inl (xs, c) ↦
                  let (l, b) = checked_addresses-ok allowed host xs c in
                  let a = all_allowed-All allowed xs b in
                  rw (e, c, dial_context)
                    (
                      dial_first-All (λ a. is_allowed net allowed a ≡ true) xs port _ a,
                      inr (host, port, xs, refl, l, a),
                    )
            ]
      ]
