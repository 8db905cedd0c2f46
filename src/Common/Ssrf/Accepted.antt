-- ===== src/Common/Ssrf/Accepted.antt =====
-- What an accepted URL may resolve to.
use Prim.Native.String
use native.Mathlib.Decide.{dec_lt, dec_le}
use eventmesh.Base.{
  ℕ, ◌*◌, ◌^◌, ◌≤◌, ◌<◌, ◌≡◌, ◌≢◌, ◌⊎◌, inl, inr, String, Bool, true, false, ◌||◌, Option, none,
  some, List, [], ◌∷◌, arith, ◌==◌, ap, All, str_eq, ltb, ok, eq_iff, >>-ok, raise_if-ok, not,
}
use eventmesh.Common.Ssrf.Addresses.{IpAddress, IpProperties, Documented, quad, mapped}
use eventmesh.Common.Ssrf.{
  Network, is_metadata, is_internal, reject_if_unsafe, reject_any_unsafe, check_addresses,
  check_hostname, validate_webhook_url,
}

-- The number does not lie from `low` up to `high`.
abbrev pub Outside : ℕ → ℕ → ℕ → Type 0
Outside low high n = (n < low) ⊎ (high ≤ n)

-- Neither the metadata address nor one of the documented internal ranges. For IPv4 those are the private
-- ones of RFC 1918, loopback, link-local, multicast, reserved and the unspecified address. For IPv6 they
-- are the private ones of RFC 4193 and for documentation, loopback, link-local, multicast, what the
-- IETF reserves, the unspecified address, and the IPv4-mapped private, loopback and link-local ones.
abbrev pub IsExternal : IpAddress → Type 0
IsExternal (IpAddress.v4 n) =
    (n ≢ quad 169 254 169 254)
    × (n ≢ 0)
    × Outside (quad 10 0 0 0) (quad 11 0 0 0) n
    × Outside (quad 127 0 0 0) (quad 128 0 0 0) n
    × Outside (quad 169 254 0 0) (quad 169 255 0 0) n
    × Outside (quad 172 16 0 0) (quad 172 32 0 0) n
    × Outside (quad 192 168 0 0) (quad 192 169 0 0) n
    × Outside (quad 224 0 0 0) (2 ^ 32) n
IsExternal (IpAddress.v6 n) =
    (n ≢ 0)
    × (n ≢ 1)
    × Outside (0xfc00 * 2 ^ 112) (0xfe00 * 2 ^ 112) n
    × Outside (0xfe80 * 2 ^ 112) (0xfec0 * 2 ^ 112) n
    × Outside (0xff00 * 2 ^ 112) (2 ^ 128) n
    × Outside (0x20010db8 * 2 ^ 96) (0x20010db9 * 2 ^ 96) n
    × Outside 0 (mapped 0) n
    × Outside (2 ^ 48) (0x2000 * 2 ^ 112) n
    × Outside (0x4000 * 2 ^ 112) (0xfc00 * 2 ^ 112) n
    × Outside (0xfe00 * 2 ^ 112) (0xfe80 * 2 ^ 112) n
    × Outside (mapped (quad 10 0 0 0)) (mapped (quad 11 0 0 0)) n
    × Outside (mapped (quad 172 16 0 0)) (mapped (quad 172 32 0 0)) n
    × Outside (mapped (quad 192 168 0 0)) (mapped (quad 192 169 0 0)) n
    × Outside (mapped (quad 127 0 0 0)) (mapped (quad 128 0 0 0)) n
    × Outside (mapped (quad 169 254 0 0)) (mapped (quad 169 255 0 0)) n

-- No property of the address was found to hold.
record Cleared (p : IpProperties) (ip : IpAddress) : Type 0 where
  metadata : is_metadata ip ≡ false
  is_private : p.is_private ip ≡ false
  is_loopback : p.is_loopback ip ≡ false
  is_link_local : p.is_link_local ip ≡ false
  is_multicast : p.is_multicast ip ≡ false
  is_reserved : p.is_reserved ip ≡ false
  is_unspecified : p.is_unspecified ip ≡ false

reject_if_unsafe-Cleared :
    (p : IpProperties) (ip : IpAddress) → reject_if_unsafe p ip ≡ ok tt → Cleared p ip
unfolding reject_if_unsafe is_internal
reject_if_unsafe-Cleared p ip h = ground arith

Outside-of_flag :
    {flag : Bool} (low high n : ℕ)
    → (low ≤ n → n < high → flag ≡ true)
    → flag ≡ false
    → Outside low high n
Outside-of_flag low high n set clear = elim (dec_lt n low) [
  | yes p ↦ inl p
  | no p ↦ elim (dec_le high n) [
    | yes q ↦ inr q
    | no q ↦ cc (clear, set (omega arith) (omega arith))
  ]
]

Cleared-IsExternal :
    (p : IpProperties) (ip : IpAddress) → Documented p → Cleared p ip → IsExternal ip
Cleared-IsExternal p (IpAddress.v4 n) d c = (
  λ e. cc (ap (λ k. k == quad 169 254 169 254) e, c.metadata),
  λ e. cc (ap (λ k. p.is_unspecified (IpAddress.v4 k)) e, c.is_unspecified, d.unspecified_v4),
  Outside-of_flag _ _ n (d.private_10 n) c.is_private,
  Outside-of_flag _ _ n (d.loopback_v4 n) c.is_loopback,
  Outside-of_flag _ _ n (d.link_local_v4 n) c.is_link_local,
  Outside-of_flag _ _ n (d.private_172 n) c.is_private,
  Outside-of_flag _ _ n (d.private_192 n) c.is_private,
  omega (
    arith,
    Outside-of_flag _ _ n (d.multicast_v4 n) c.is_multicast,
    Outside-of_flag _ _ n (d.reserved_v4 n) c.is_reserved,
  ),
)
Cleared-IsExternal p (IpAddress.v6 n) d c = (
  λ e. cc (ap (λ k. p.is_unspecified (IpAddress.v6 k)) e, c.is_unspecified, d.unspecified_v6),
  λ e. cc (ap (λ k. p.is_loopback (IpAddress.v6 k)) e, c.is_loopback, d.loopback_v6),
  Outside-of_flag _ _ n (d.private_v6 n) c.is_private,
  Outside-of_flag _ _ n (d.link_local_v6 n) c.is_link_local,
  Outside-of_flag _ _ n (d.multicast_v6 n) c.is_multicast,
  Outside-of_flag _ _ n (d.documentation_v6 n) c.is_private,
  Outside-of_flag _ _ n (d.reserved_v6_first n) c.is_reserved,
  Outside-of_flag _ _ n (d.reserved_v6_low n) c.is_reserved,
  Outside-of_flag _ _ n (d.reserved_v6_middle n) c.is_reserved,
  Outside-of_flag _ _ n (d.reserved_v6_high n) c.is_reserved,
  Outside-of_flag _ _ n (d.mapped_private_10 n) c.is_private,
  Outside-of_flag _ _ n (d.mapped_private_172 n) c.is_private,
  Outside-of_flag _ _ n (d.mapped_private_192 n) c.is_private,
  Outside-of_flag _ _ n (d.mapped_loopback n) c.is_private,
  Outside-of_flag _ _ n (d.mapped_link_local n) c.is_private,
)

reject_any_unsafe-IsExternal :
    (p : IpProperties) (ips : List IpAddress)
    → Documented p
    → reject_any_unsafe p ips ≡ ok tt
    → All IsExternal ips
unfolding reject_any_unsafe
reject_any_unsafe-IsExternal p [] d h = tt
reject_any_unsafe-IsExternal p (ip ∷ ips) d h =
    let (first, rest) = >>-ok (reject_if_unsafe p ip) _ h in
    (
      Cleared-IsExternal p ip d (reject_if_unsafe-Cleared p ip first),
      reject_any_unsafe-IsExternal p ips d rest,
    )

-- A list of addresses was found, at least one, and all of them satisfy `P`.
abbrev pub Resolved : (IpAddress → Type 0) → Option (List IpAddress) → Type 0
Resolved P none = ⊥
Resolved P (some []) = ⊥
Resolved P (some (ip ∷ ips)) = P ip × All P ips

check_addresses-IsExternal :
    (p : IpProperties) (found : Option (List IpAddress))
    → Documented p
    → check_addresses p found ≡ ok tt
    → Resolved IsExternal found
unfolding check_addresses
check_addresses-IsExternal p none d h = cc
check_addresses-IsExternal p (some []) d h = cc
check_addresses-IsExternal p (some (ip ∷ ips)) d h = reject_any_unsafe-IsExternal p (ip ∷ ips) d h

-- The host that a parsed URL names was looked up, and what was found satisfies `P`.
abbrev pub Names : (String → Type 0) → Option String → Type 0
Names P none = ⊥
Names P (some host) = P host

check_hostname-IsExternal :
    (net : Network) (hostname : Option String)
    → Documented net.ip
    → check_hostname net hostname ≡ ok tt
    → Names (λ host. (host ≢ "") × Resolved IsExternal (net.getaddrinfo host)) hostname
unfolding check_hostname
check_hostname-IsExternal net none d h = cc
check_hostname-IsExternal net (some host) d h =
    let (named, h1) = raise_if-ok (str_eq host "") _ _ h in
    let (_, h2) = raise_if-ok _ _ _ h1 in
    (λ e. cc ((eq_iff host "").1 e, named), check_addresses-IsExternal net.ip _ d h2)

http_or_https :
    (scheme : String)
    → not (str_eq scheme "http" || str_eq scheme "https") ≡ false
    → (scheme ≡ "http") ⊎ (scheme ≡ "https")
http_or_https scheme h = ground (arith, eq_iff scheme "http", eq_iff scheme "https")

-- A URL is accepted only if it is no longer than the limit, its scheme is http or https, it names a
-- host, the host resolves to at least one address, and every address found is external, if the
-- properties of addresses are as documented. None is the IPv4 metadata address, or lies in a range for
-- private use (RFC 1918, RFC 4193, the IPv6 documentation), loopback, link-local or multicast use, in
-- one that the IETF reserves (240.0.0.0/4; below 2000:: but for the IPv4-mapped addresses, from 4000::
-- up to fc00::, and fe00::/9), or is unspecified; nor is one IPv4-mapped from a range of RFC 1918,
-- 127.0.0.0/8 or 169.254.0.0/16.
pub validate_webhook_url-IsExternal :
    (net : Network) (url : String) (max_length : ℕ)
    → Documented net.ip
    → validate_webhook_url net url max_length ≡ ok tt
    → (String.count url ≤ max_length)
      × (((net.urlparse url).scheme ≡ "http") ⊎ ((net.urlparse url).scheme ≡ "https"))
      × Names
          (λ host. (host ≢ "") × Resolved IsExternal (net.getaddrinfo host))
          (net.urlparse url).hostname
unfolding validate_webhook_url
validate_webhook_url-IsExternal net url max_length d h =
    let (fits, h1) = raise_if-ok (ltb max_length (String.count url)) _ _ h in
    let (scheme, h2) = raise_if-ok _ _ _ h1 in
    (
      ground arith,
      http_or_https (net.urlparse url).scheme scheme,
      check_hostname-IsExternal net _ d h2,
    )
