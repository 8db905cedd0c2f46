-- ===== src/Common/Ssrf/Addresses.antt =====
-- The part of Python's `ipaddress` that packages/common/eventmesh_common/ssrf.py reads. The tables
-- of networks are not in the repository: the properties of an address are a parameter, with the
-- ranges that their documentation names as hypotheses.
use eventmesh.Base.{ℕ, ◌+◌, ◌*◌, ◌^◌, ◌≤◌, ◌<◌, ◌≡◌, Bool, true}

-- An address is a number of 32 or of 128 bits.
pub data IpAddress : Type 0 where
  v4 v6 : ℕ → IpAddress

-- the number of a dotted quad
abbrev pub quad : ℕ → ℕ → ℕ → ℕ → ℕ
quad a b c d = a * 2 ^ 24 + b * 2 ^ 16 + c * 2 ^ 8 + d

-- the number of the IPv6 address that stands for an IPv4 one, ::ffff:a.b.c.d
abbrev pub mapped : ℕ → ℕ
mapped n = 0xffff * 2 ^ 32 + n

-- The properties that the code reads of an `ip_address` object.
pub record IpProperties : Type 0 where
  pub is_private : IpAddress → Bool
  pub is_loopback : IpAddress → Bool
  pub is_link_local : IpAddress → Bool
  pub is_multicast : IpAddress → Bool
  pub is_reserved : IpAddress → Bool
  pub is_unspecified : IpAddress → Bool

-- What their documentation says of them: RFC 1918 and RFC 4193 addresses are private, and so on. The
-- IETF reserves what RFC 4291 assigns to no use, which is all below 2000::, but for the IPv4-mapped
-- addresses, and all from 4000:: up to fe80:: that is not private. An IPv4-mapped address is private as
-- the IPv4 address is; loopback and link-local ones count as private there.
pub record Documented (ip : IpProperties) : Type 0 where
  pub private_10 :
      (n : ℕ) → quad 10 0 0 0 ≤ n → n < quad 11 0 0 0 → ip.is_private (IpAddress.v4 n) ≡ true
  pub private_172 :
      (n : ℕ) → quad 172 16 0 0 ≤ n → n < quad 172 32 0 0 → ip.is_private (IpAddress.v4 n) ≡ true
  pub private_192 :
      (n : ℕ) → quad 192 168 0 0 ≤ n → n < quad 192 169 0 0 → ip.is_private (IpAddress.v4 n) ≡ true
  pub loopback_v4 :
      (n : ℕ) → quad 127 0 0 0 ≤ n → n < quad 128 0 0 0 → ip.is_loopback (IpAddress.v4 n) ≡ true
  pub link_local_v4 :
      (n : ℕ)
      → quad 169 254 0 0 ≤ n
      → n < quad 169 255 0 0
      → ip.is_link_local (IpAddress.v4 n) ≡ true
  pub multicast_v4 :
      (n : ℕ) → quad 224 0 0 0 ≤ n → n < quad 240 0 0 0 → ip.is_multicast (IpAddress.v4 n) ≡ true
  pub reserved_v4 :
      (n : ℕ) → quad 240 0 0 0 ≤ n → n < 2 ^ 32 → ip.is_reserved (IpAddress.v4 n) ≡ true
  pub unspecified_v4 : ip.is_unspecified (IpAddress.v4 0) ≡ true
  pub loopback_v6 : ip.is_loopback (IpAddress.v6 1) ≡ true
  pub unspecified_v6 : ip.is_unspecified (IpAddress.v6 0) ≡ true
  pub private_v6 :
      (n : ℕ) → 0xfc00 * 2 ^ 112 ≤ n → n < 0xfe00 * 2 ^ 112 → ip.is_private (IpAddress.v6 n) ≡ true
  pub link_local_v6 :
      (n : ℕ)
      → 0xfe80 * 2 ^ 112 ≤ n
      → n < 0xfec0 * 2 ^ 112
      → ip.is_link_local (IpAddress.v6 n) ≡ true
  pub multicast_v6 :
      (n : ℕ) → 0xff00 * 2 ^ 112 ≤ n → n < 2 ^ 128 → ip.is_multicast (IpAddress.v6 n) ≡ true
  pub documentation_v6 :
      (n : ℕ)
      → 0x20010db8 * 2 ^ 96 ≤ n
      → n < 0x20010db9 * 2 ^ 96
      → ip.is_private (IpAddress.v6 n) ≡ true
  pub reserved_v6_first : (n : ℕ) → 0 ≤ n → n < mapped 0 → ip.is_reserved (IpAddress.v6 n) ≡ true
  pub reserved_v6_low :
      (n : ℕ) → 2 ^ 48 ≤ n → n < 0x2000 * 2 ^ 112 → ip.is_reserved (IpAddress.v6 n) ≡ true
  pub reserved_v6_middle :
      (n : ℕ) → 0x4000 * 2 ^ 112 ≤ n → n < 0xfc00 * 2 ^ 112 → ip.is_reserved (IpAddress.v6 n) ≡ true
  pub reserved_v6_high :
      (n : ℕ) → 0xfe00 * 2 ^ 112 ≤ n → n < 0xfe80 * 2 ^ 112 → ip.is_reserved (IpAddress.v6 n) ≡ true
  pub mapped_private_10 :
      (n : ℕ)
      → mapped (quad 10 0 0 0) ≤ n
      → n < mapped (quad 11 0 0 0)
      → ip.is_private (IpAddress.v6 n) ≡ true
  pub mapped_private_172 :
      (n : ℕ)
      → mapped (quad 172 16 0 0) ≤ n
      → n < mapped (quad 172 32 0 0)
      → ip.is_private (IpAddress.v6 n) ≡ true
  pub mapped_private_192 :
      (n : ℕ)
      → mapped (quad 192 168 0 0) ≤ n
      → n < mapped (quad 192 169 0 0)
      → ip.is_private (IpAddress.v6 n) ≡ true
  pub mapped_loopback :
      (n : ℕ)
      → mapped (quad 127 0 0 0) ≤ n
      → n < mapped (quad 128 0 0 0)
      → ip.is_private (IpAddress.v6 n) ≡ true
  pub mapped_link_local :
      (n : ℕ)
      → mapped (quad 169 254 0 0) ≤ n
      → n < mapped (quad 169 255 0 0)
      → ip.is_private (IpAddress.v6 n) ≡ true
