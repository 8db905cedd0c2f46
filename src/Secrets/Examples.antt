-- ===== src/Secrets/Examples.antt =====
-- A client's endpoint, and the first delivery to it. The cipher of the test writes a number in unary.
use Prim.Native.Char.{Char}
use eventmesh.Base.{
  ℕ, zero, suc, ◌+◌, ◌≡◌, refl, ap, ◌∙◌, ◌⊎◌, String, none, some, Option, List, [], ◌∷◌, ◌==◌,
  codes, if◌then◌else◌, ok, length, ◌%◌, arith,
}
use eventmesh.Base.Int.{pos}
use eventmesh.Common.Enums.{CircuitState}
use eventmesh.Common.Ssrf.{
  validate_webhook_url, check_hostname, check_addresses, reject_any_unsafe, reject_if_unsafe,
  is_internal,
}
use eventmesh.Common.Ssrf.Sample.{network, hook_url}
use eventmesh.Auth.Signature.RoundTrip.{Hexadecimal}
use eventmesh.Database.{Tables}
use eventmesh.Database.Sample.{tables}
use eventmesh.Api.Auth.{AuthContext}
use eventmesh.Api.Schemas.{EndpointCreateRequest, EndpointCreateResponse}
use eventmesh.Api.Endpoints.{Drawn, to_detail, create_checked, create_endpoint}
use eventmesh.Api.Endpoints.Requests.{Operation, perform}
use eventmesh.Worker.DeliveryEngine.{Body, Request, World}
use eventmesh.Worker.DeliveryEngine.Deliver.{deliver_to_endpoint}
use eventmesh.Worker.DeliveryEngine.Sample.{settings, failing}
use eventmesh.Secrets.{Crypto, Opens, encrypt_secret}
use eventmesh.Secrets.Lasting.{now, request}
use eventmesh.Secrets.Webhook.{AcceptedBy, codecs_of, deliver_to_endpoint-AcceptedBy}

abbrev stroke : Char
stroke = "a"

abbrev stop : Char
stop = "b"

abbrev unary : ℕ → String → String
unary zero rest = String.◌∷◌ stop rest
unary (suc n) rest = String.◌∷◌ stroke (unary n rest)

abbrev seal : List ℕ → String
seal [] = ""
seal (n ∷ ns) = unary n (seal ns)

abbrev onto : ℕ → Option (List ℕ) → Option (List ℕ)
onto n none = none
onto n (some ns) = some (n ∷ ns)

abbrev unseal : ℕ → List ℕ → Option (List ℕ)
unseal n [] = some []
unseal n (c ∷ cs) =
    let ended = unseal 0 cs in
    let longer = unseal (suc n) cs in if c == b'b' then onto n ended else longer

abbrev crypto : Crypto
crypto = record {
  sha256 = codes;
  urlsafe_b64encode = λ bytes. bytes;
  fernet_encrypt = λ key drawn text. seal text;
  fernet_decrypt = λ key token. unseal 0 (codes token);
}

unseal-unary :
    (n m : ℕ) (rest : String)
    → unseal m (codes (unary n rest)) ≡ onto (m + n) (unseal 0 (codes rest))
unseal-unary zero m rest = ap (λ k. onto k (unseal 0 (codes rest))) (omega arith)
unseal-unary (suc n) m rest =
    unseal-unary n (suc m) rest ∙ ap (λ k. onto k (unseal 0 (codes rest))) (omega arith)

unseal-seal : (text : List ℕ) → unseal 0 (codes (seal text)) ≡ some text
unseal-seal [] = refl
unseal-seal (n ∷ ns) =
    unseal-unary n 0 (seal ns)
    ∙ ap (onto (0 + n)) (unseal-seal ns)
    ∙ ap (λ k. some (k ∷ ns)) (omega arith)

crypto-Opens : Opens crypto
crypto-Opens key drawn text = unseal-seal text

abbrev client : AuthContext
client = record { tenant_id = 1; api_key_id = 2; plan = "free" }

abbrev order : EndpointCreateRequest
order = record {
  url = hook_url;
  description = none;
  events = "order.created" ∷ [];
  timeout_ms = pos 10000;
  max_retries = pos 6;
}

abbrev drawn : Drawn
drawn = record { id = 11; now = 9000; token = codes "abc" }

abbrev answer : EndpointCreateResponse
answer = record {
  detail = record {
    id = 11;
    url = hook_url;
    description = none;
    status = "active";
    circuit_state = CircuitState.closed;
    timeout_ms = pos 10000;
    max_retries = pos 6;
    events = "order.created" ∷ [];
    created_at = 9000;
  };
  signing_secret = codes "whsec_abc";
}

abbrev sealed : List ℕ → String
sealed = encrypt_secret crypto "key" 1

abbrev after : Tables
after = (create_endpoint 2048 sealed network client order drawn tables).1

created : create_endpoint 2048 sealed network client order drawn tables ≡ (ok answer, after)
unfolding create_endpoint create_checked to_detail validate_webhook_url check_hostname
    check_addresses reject_any_unsafe reject_if_unsafe is_internal
created = refl

abbrev checksum : List ℕ → List ℕ → List ℕ
checksum key message = (b'0' + length message % 10) ∷ []

checksum-Hexadecimal : Hexadecimal checksum
checksum-Hexadecimal key message = (ground arith, tt)

abbrev dumps : Body → List ℕ
dumps body = body.event_id ∷ body.attempt_number ∷ []

-- The client gives its endpoint a description, before the delivery.
abbrev describe : Operation
describe = Operation.change network 11 (record {
  url = none;
  description = some "orders";
  events = none;
  status = none;
  timeout_ms = none;
  max_retries = none;
})

abbrev world : World
world = record { db = perform 2048 sealed client describe after; sent = []; metrics = [] }

deliver_to_endpoint-AcceptedBy_example :
    let codecs = codecs_of crypto "key" checksum dumps in
    let w' = (deliver_to_endpoint settings codecs (failing 0) 7 11 1 world).1 in
    (w'.sent ≡ []) ⊎ ((r : Request) × (w'.sent ≡ r ∷ []) × AcceptedBy checksum answer (failing 0) r)
deliver_to_endpoint-AcceptedBy_example =
    deliver_to_endpoint-AcceptedBy crypto "key" checksum dumps 2048 network client order drawn 1
      tables after answer settings (failing 0) 7 1 world crypto-Opens checksum-Hexadecimal created
      (omega arith, tt) (request 2048 sealed client describe now tt)
