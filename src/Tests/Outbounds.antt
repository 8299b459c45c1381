-- ===== src/Tests/Outbounds.antt =====
-- internal/outbound/policy.go at a concrete network, whose addresses are numbers: 10 and above are private.
use k8s_panel.Outbound.{
  dial_first, all_allowed, addresses_of, checked_addresses, Net, is_allowed, lookup, dial_context,
}
use k8s_panel.Base.{
  if◌then◌else◌, ℕ, ◌≡◌, ◌⊎◌, refl, true, false, none, some, List, [], ◌∷◌, All, Text, leb, ◌==◌,
}
use k8s_panel.Domain.{Result, ok, err, timeout, upstream}
use k8s_panel.Outbound.Dialed

abbrev net : Net
net = record {
  Addr = ℕ;
  Ip = ℕ;
  Prefix = ℕ;
  Conn = ℕ;
  parse_addr = λ s. none;
  unmap = λ a. a;
  addr_from_slice = λ i. some i;
  parse_prefix = λ s. err upstream;
  masked = λ p. p;
  prefix_contains = λ p a. p == a;
  is_valid = λ a. true;
  is_global_unicast = λ a. true;
  is_private = λ a. leb 10 a;
  is_loopback = λ a. false;
  is_link_local_unicast = λ a. false;
  is_link_local_multicast = λ a. false;
  is_multicast = λ a. false;
  is_unspecified = λ a. false;
  split_host_port = λ s. some (s, b'1' ∷ []);
  parse_request_uri = λ s. none;
  hostname = λ u. [];
  quote = λ s. s;
}

-- The host has a public address and the one private address that is allowed.
abbrev resolver : Text → Result (List ℕ)
resolver host = ok (3 ∷ 12 ∷ [])

abbrev dial : ℕ → Text → Result ℕ
dial a port = if a == 3 then err timeout else ok a

dialed : (dial_context net resolver dial (12 ∷ []) (b'h' ∷ [])).0 ≡ 3 ∷ 12 ∷ []
unfolding dial_context checked_addresses lookup addresses_of all_allowed is_allowed dial_first
dialed = refl

dial_context-Allowed_example :
    let r = dial_context net resolver dial (12 ∷ []) (b'h' ∷ []) in
    All (λ a. is_allowed net (12 ∷ []) a ≡ true) r.0
    × ((r.0 ≡ [])
        ⊎ ((host : Text) × (port : Text) × (xs : List ℕ) × (net.split_host_port (b'h' ∷ [])
              ≡ some (host, port))
            × (lookup net resolver host ≡ ok xs)
            × All (λ a. is_allowed net (12 ∷ []) a ≡ true) xs))
dial_context-Allowed_example = Dialed.dial_context-Allowed net resolver dial (12 ∷ []) (b'h' ∷ [])
