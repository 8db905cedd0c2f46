-- ===== src/Common/Ssrf.antt =====
-- packages/common/eventmesh_common/ssrf.py. What `urlparse` finds in a text, what `getaddrinfo`
-- answers and the properties of an `ip_address` are the fields of `Network`, a parameter. A text that `urlparse` or `getaddrinfo` raises another
-- error for is outside the model; the check does not return for it.
pub mod Addresses
pub mod Accepted
pub mod Sample
mod Examples
use Prim.Native.String
use eventmesh.Base.{
  ℕ, String, Bool, false, ◌||◌, not, Option, none, some, List, [], ◌∷◌, ltb, any, ◌==◌, str_eq,
  codes, codes_eq, lower, Result, ok, err, ◌>>◌, raise_if,
}
use Addresses.{IpAddress, IpProperties, quad}

-- What the code reads of `urlparse(url)`.
pub record ParsedUrl : Type 0 where
  pub scheme : String
  pub hostname : Option String

-- The library and the name server, at one moment: `none` is `socket.gaierror`.
pub record Network : Type 0 where
  pub urlparse : String → ParsedUrl
  pub getaddrinfo : String → Option (List IpAddress)
  pub ip : IpProperties

-- `SSRFValidationError`, by its message
pub data SsrfError : Type 0 where
  too_long bad_scheme no_hostname blocked_hostname unresolved no_address : SsrfError
  metadata_address internal_address : IpAddress → SsrfError

-- `_BLOCKED_HOSTS`
abbrev pub blocked_hosts : List String
blocked_hosts = "metadata.google.internal" ∷ []

-- `ip in _METADATA_IPS`
abbrev pub is_metadata : IpAddress → Bool
is_metadata (IpAddress.v4 n) = n == quad 169 254 169 254
is_metadata (IpAddress.v6 n) = false

-- the condition of the second test in `_reject_if_unsafe`
unfoldable pub is_internal : IpProperties → IpAddress → Bool
is_internal p ip =
    p.is_private ip
    || p.is_loopback ip
    || p.is_link_local ip
    || p.is_multicast ip
    || p.is_reserved ip
    || p.is_unspecified ip

unfoldable pub reject_if_unsafe : IpProperties → IpAddress → Result SsrfError (Unit {0})
reject_if_unsafe p ip = do
  raise_if (is_metadata ip) (SsrfError.metadata_address ip)
  raise_if (is_internal p ip) (SsrfError.internal_address ip)

-- the loop over `addr_infos`
unfoldable pub reject_any_unsafe : IpProperties → List IpAddress → Result SsrfError (Unit {0})
reject_any_unsafe p [] = ok tt
reject_any_unsafe p (ip ∷ ips) = reject_if_unsafe p ip >> reject_any_unsafe p ips

-- from the resolution on
unfoldable pub check_addresses :
    IpProperties → Option (List IpAddress) → Result SsrfError (Unit {0})
check_addresses p none = err SsrfError.unresolved
check_addresses p (some []) = err SsrfError.no_address
check_addresses p (some (ip ∷ ips)) = reject_any_unsafe p (ip ∷ ips)

-- the tests on `parsed.hostname`, which is absent or may be empty
unfoldable pub check_hostname : Network → Option String → Result SsrfError (Unit {0})
check_hostname net none = err SsrfError.no_hostname
check_hostname net (some host) = do
  raise_if (str_eq host "") SsrfError.no_hostname
  raise_if (any (λ blocked. codes_eq (lower (codes host)) (codes blocked)) blocked_hosts)
      SsrfError.blocked_hostname
  check_addresses net.ip (net.getaddrinfo host)

unfoldable pub validate_webhook_url : Network → String → ℕ → Result SsrfError (Unit {0})
validate_webhook_url net url max_length = do
  raise_if (ltb max_length (String.count url)) SsrfError.too_long
  let parsed = net.urlparse url
  raise_if (not (str_eq parsed.scheme "http" || str_eq parsed.scheme "https")) SsrfError.bad_scheme
  check_hostname net parsed.hostname
