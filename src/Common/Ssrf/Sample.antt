-- ===== src/Common/Ssrf/Sample.antt =====
-- A network for tests: every host resolves to 8.8.8.8, the one external address.
use eventmesh.Base.{◌≡◌, refl, String, Bool, true, not, some, [], ◌∷◌, ◌==◌, arith, ok}
use eventmesh.Common.Ssrf.Addresses.{IpAddress, IpProperties, Documented, quad}
use eventmesh.Common.Ssrf.{
  Network, validate_webhook_url, check_hostname, check_addresses, reject_any_unsafe,
  reject_if_unsafe, is_internal,
}

abbrev pub inside : IpAddress → Bool
inside (IpAddress.v4 n) = not (n == quad 8 8 8 8)
inside (IpAddress.v6 n) = true

abbrev pub properties : IpProperties
properties = record {
  is_private = inside;
  is_loopback = inside;
  is_link_local = inside;
  is_multicast = inside;
  is_reserved = inside;
  is_unspecified = inside;
}

pub properties-Documented : Documented properties
properties-Documented = record {
  private_10 = λ n a b. ground arith;
  private_172 = λ n a b. ground arith;
  private_192 = λ n a b. ground arith;
  loopback_v4 = λ n a b. ground arith;
  link_local_v4 = λ n a b. ground arith;
  multicast_v4 = λ n a b. ground arith;
  reserved_v4 = λ n a b. ground arith;
  unspecified_v4 = refl;
  loopback_v6 = refl;
  unspecified_v6 = refl;
  private_v6 = λ n a b. refl;
  link_local_v6 = λ n a b. refl;
  multicast_v6 = λ n a b. refl;
  documentation_v6 = λ n a b. refl;
  reserved_v6_first = λ n a b. refl;
  reserved_v6_low = λ n a b. refl;
  reserved_v6_middle = λ n a b. refl;
  reserved_v6_high = λ n a b. refl;
  mapped_private_10 = λ n a b. refl;
  mapped_private_172 = λ n a b. refl;
  mapped_private_192 = λ n a b. refl;
  mapped_loopback = λ n a b. refl;
  mapped_link_local = λ n a b. refl;
}

abbrev pub network : Network
network = record {
  urlparse = λ url. record { scheme = "https"; hostname = some "hooks.example.com" };
  getaddrinfo = λ host. some (IpAddress.v4 (quad 8 8 8 8) ∷ []);
  ip = properties;
}

abbrev pub hook_url : String
hook_url = "https://hooks.example.com/in"

pub hook_url_accepted : validate_webhook_url network hook_url 2048 ≡ ok tt
unfolding validate_webhook_url check_hostname check_addresses reject_any_unsafe reject_if_unsafe
    is_internal
hook_url_accepted = refl
