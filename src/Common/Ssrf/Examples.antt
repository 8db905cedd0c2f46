-- ===== src/Common/Ssrf/Examples.antt =====
-- The check of URLs at a concrete one.
use Prim.Native.String
use eventmesh.Base.{◌≡◌, ◌≢◌, ◌≤◌, ◌⊎◌, some}
use eventmesh.Common.Ssrf.Accepted.{Names, Resolved, IsExternal, validate_webhook_url-IsExternal}
use eventmesh.Common.Ssrf.Sample.{network, properties-Documented, hook_url, hook_url_accepted}

validate_webhook_url-IsExternal_example :
    (String.count hook_url ≤ 2048)
    × (((network.urlparse hook_url).scheme ≡ "http")
        ⊎ ((network.urlparse hook_url).scheme ≡ "https"))
    × Names
        (λ host. (host ≢ "") × Resolved IsExternal (network.getaddrinfo host))
        (some "hooks.example.com")
validate_webhook_url-IsExternal_example =
    validate_webhook_url-IsExternal network hook_url 2048 properties-Documented hook_url_accepted
