-- ===== src/Outbound.antt =====
-- internal/outbound/policy.go: which addresses the panel may connect to. The packages `net`, `net/netip` and
-- `net/url` are a parameter; so are the answers of the resolver and of the dialer.
pub mod Dialed
use k8s_panel.Base.{
  ℕ, Bool, true, false, not, ◌&&◌, ◌||◌, Option, none, some, List, [], ◌∷◌, ◌++◌, if◌then◌else◌,
  ◌==◌, Text, runes, same, is_empty, trim_space,
}
use k8s_panel.Domain.{Failure, Result, Error, ok, err, other, wrapped, guard, ◌>>=◌, ◌>>◌}
use k8s_panel.Names.{split}
use k8s_panel.Validation.Origins.{Url}

-- What the code calls of the libraries. `ip` is what a resolver returns, `quote` is the verb %q.
pub record Net : Type 1 where
  pub Addr : Type 0
  pub Ip : Type 0
  pub Prefix : Type 0
  pub Conn : Type 0
  pub parse_addr : Text → Option Addr
  pub unmap : Addr → Addr
  pub addr_from_slice : Ip → Option Addr
  pub parse_prefix : Text → Result Prefix
  pub masked : Prefix → Prefix
  pub prefix_contains : Prefix → Addr → Bool
  pub is_valid : Addr → Bool
  pub is_global_unicast : Addr → Bool
  pub is_private : Addr → Bool
  pub is_loopback : Addr → Bool
  pub is_link_local_unicast : Addr → Bool
  pub is_link_local_multicast : Addr → Bool
  pub is_multicast : Addr → Bool
  pub is_unspecified : Addr → Bool
  pub split_host_port : Text → Option (Text × Text)
  pub parse_request_uri : Text → Option Url
  pub hostname : Url → Text
  pub quote : Text → Text

-- `strings.Trim(s, "[]")`
unfoldable pub is_bracket : ℕ → Bool
is_bracket c = c == b'[' || c == b']'

unfoldable pub trim_brackets_left : Text → Text
trim_brackets_left [] = []
trim_brackets_left (c ∷ s) = let rest = trim_brackets_left s in if is_bracket c then rest else c ∷ s

unfoldable pub trim_brackets_right : Text → Text
trim_brackets_right [] = []
trim_brackets_right (c ∷ s) =
    let rest = trim_brackets_right s in if is_empty rest && is_bracket c then [] else c ∷ rest

unfoldable pub trim_brackets : Text → Text
trim_brackets s = trim_brackets_right (trim_brackets_left s)

module _ (net : Net) where
  open net use {Addr, Ip, Prefix, Conn}

  -- The first CIDR that cannot be parsed ends the loop.
  unfoldable pub parse_prefixes : List Text → Result (List Prefix)
  unfolding runes
  parse_prefixes [] = ok []
  parse_prefixes (part ∷ parts) = elim (net.parse_prefix (trim_space part)) [
    | err e ↦ err (wrapped (runes "parse allowed CIDR " ++ net.quote (trim_space part)) e)
    | ok prefix ↦ do rest ← parse_prefixes parts; ok (net.masked prefix ∷ rest)
  ]

  unfoldable pub parse_allowed_prefixes : Text → Result (List Prefix)
  parse_allowed_prefixes raw =
      if is_empty (trim_space raw) then ok [] else parse_prefixes (split b',' raw)

  unfoldable pub is_allowed : List Prefix → Addr → Bool
  is_allowed [] a =
      net.is_valid a
      && net.is_global_unicast a
      && not (net.is_private a)
      && not (net.is_loopback a)
      && not (net.is_link_local_unicast a)
      && not (net.is_link_local_multicast a)
      && not (net.is_multicast a)
      && not (net.is_unspecified a)
  is_allowed (p ∷ ps) a = net.prefix_contains p a || is_allowed ps a

  unfoldable pub all_allowed : List Prefix → List Addr → Bool
  all_allowed allowed [] = true
  all_allowed allowed (a ∷ as') = is_allowed allowed a && all_allowed allowed as'

  -- The loop of `lookup` over what the resolver returned.
  unfoldable pub addresses_of : List Ip → Result (List Addr)
  unfolding runes
  addresses_of [] = ok []
  addresses_of (i ∷ is) = elim (net.addr_from_slice i) [
    | none ↦ err (other (runes "resolver returned an invalid address"))
    | some a ↦ do rest ← addresses_of is; ok (net.unmap a ∷ rest)
  ]

  module _ (lookup_ip : Text → Result (List Ip)) where
    unfoldable pub lookup : Text → Result (List Addr)
    lookup host = elim (net.parse_addr (trim_brackets host)) [
      | some a ↦ ok (net.unmap a ∷ [])
      | none ↦ do resolved ← lookup_ip host; addresses_of resolved
    ]

    -- The addresses of a host, once all of them are allowed.
    unfoldable pub checked_addresses : List Prefix → Text → Result (List Addr)
    unfolding runes
    checked_addresses allowed host = elim (lookup host) [
      | err e ↦ err (wrapped (runes "resolve target host") e)
      | ok [] ↦ err (other (runes "target host resolved to no addresses"))
      | ok (a ∷ as') ↦
          if all_allowed allowed (a ∷ as')
          then ok (a ∷ as')
          else err (other (runes "target address is blocked by outbound policy"))
    ]

    abbrev pub failure_of_check : Result (List Addr) → Failure
    failure_of_check (ok as') = none
    failure_of_check (err e) = some e

    unfoldable pub validate_host : List Prefix → Text → Failure
    validate_host allowed host = failure_of_check (checked_addresses allowed host)

    unfoldable pub validate_https_url : List Prefix → Text → Result Url
    unfolding runes
    validate_https_url allowed raw = elim (net.parse_request_uri (trim_space raw)) [
      | none ↦ err (other (runes "invalid target URL"))
      | some parsed ↦
          if not (same parsed.scheme (runes "https")) || is_empty parsed.host || parsed.has_user
          then err (other (runes "target must be an HTTPS URL without credentials"))
          else elim (validate_host allowed (net.hostname parsed)) [
            | some e ↦ err e
            | none ↦ ok parsed
          ]
    ]

    module _ (dial : Addr → Text → Result Conn) where
      -- The addresses that were dialed, and the connection or the last error.
      unfoldable pub dial_first : List Addr → Text → Error → List Addr × Result Conn
      unfolding runes
      dial_first [] port last = ([], err (wrapped (runes "connect to validated target") last))
      dial_first (a ∷ as') port last = elim (dial a port) [
        | ok connection ↦ (a ∷ [], ok connection)
        | err e ↦ let (dialed, r) = dial_first as' port e in (a ∷ dialed, r)
      ]

      unfoldable pub dial_context : List Prefix → Text → List Addr × Result Conn
      unfolding runes
      dial_context allowed address = elim (net.split_host_port address) [
        | none ↦ ([], err (other (runes "invalid target address")))
        | some (host, port) ↦ elim (checked_addresses allowed host) [
          | err e ↦ ([], err e)
          | ok as' ↦ dial_first as' port (other [])
        ]
      ]
