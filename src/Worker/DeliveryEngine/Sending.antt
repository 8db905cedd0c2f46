-- ===== src/Worker/DeliveryEngine/Sending.antt =====
-- The requests that the engine sends.
use eventmesh.Base.{ℕ, ◌≡◌, refl, ap, ◌⊎◌, inl, inr, true, some, List, [], ◌∷◌, ◌++◌, ok}
use eventmesh.Auth.Signature.{build_signature_header}
use eventmesh.Base.Int.{pos}
use eventmesh.Common.CircuitBreaker.{allow_request}
use eventmesh.Common.Ssrf.{validate_webhook_url}
use eventmesh.Database.{Endpoint, get_endpoint}
use eventmesh.Worker.DeliveryEngine.{
  Settings, Codecs, Attempt, Request, World, load_circuit_breaker,
}
use eventmesh.Worker.DeliveryEngine.Deliver.{deliver_to_endpoint}
use eventmesh.Worker.DeliveryEngine.Effects.{
  Effect, Cleared, with_request, deliver_to_endpoint-Effect,
}

-- The request goes to the endpoint's URL, which is accepted at the moment of the attempt, with the
-- circuit breaker's permission, and its signature is that of its own body under the endpoint's
-- secret, at the time of signing.
pub record IsProper (settings : Settings) (codecs : Codecs) (a : Attempt) (endpoint_id : ℕ)
    (w : World) (r : Request) : Type 0 where
  pub endpoint : Endpoint
  pub secret : List ℕ
  pub found : get_endpoint endpoint_id w.db ≡ some endpoint
  pub addressed : r.url ≡ endpoint.url
  pub accepted : validate_webhook_url a.network r.url settings.max_endpoint_url_length ≡ ok tt
  pub allowed : (allow_request a.asked_at (load_circuit_breaker settings endpoint)).0 ≡ true
  pub decrypted : codecs.decrypt_secret endpoint.secret_encrypted ≡ some secret
  pub signed :
      r.signature ≡ build_signature_header codecs.hmac_sha256 secret r.content (pos a.signed_at)

-- One delivery sends no request, or exactly one, after those sent before it: that one goes to the
-- URL of the endpoint, which the check of URLs accepts at this attempt, the circuit breaker loaded
-- for it let it pass, and it carries the signature of its own body under the endpoint's decrypted
-- secret.
pub deliver_to_endpoint_sends :
    (settings : Settings) (codecs : Codecs) (a : Attempt) (event_id endpoint_id n : ℕ) (w : World)
    → let w' = (deliver_to_endpoint settings codecs a event_id endpoint_id n w).1 in
      (w'.sent ≡ w.sent)
      ⊎ ((r : Request) × (w'.sent ≡ w.sent ++ r ∷ []) × IsProper settings codecs a endpoint_id w r)
deliver_to_endpoint_sends settings codecs a event_id endpoint_id n w =
    sent_of _ (deliver_to_endpoint-Effect settings codecs a event_id endpoint_id n w)
  where
    proper :
        (w' : World) (c : Cleared settings codecs a event_id endpoint_id n w)
        → w'.sent ≡ with_request settings codecs a event_id endpoint_id n w c
        → ((r : Request) × (w'.sent ≡ w.sent ++ r ∷ [])
            × IsProper settings codecs a endpoint_id w r)
    proper w' c s = (
      _,
      s,
      record {
        endpoint = c.endpoint;
        secret = c.secret;
        found = c.found;
        addressed = refl;
        accepted = c.accepted;
        allowed = ap (λ p. p.0) c.allowed;
        decrypted = c.decrypted;
        signed = refl;
      },
    )

    sent_of :
        (w' : World)
        → Effect settings codecs a event_id endpoint_id n w w'
        → (w'.sent ≡ w.sent)
          ⊎ ((r : Request) × (w'.sent ≡ w.sent ++ r ∷ [])
              × IsProper settings codecs a endpoint_id w r)
    sent_of w' (Effect.missing m d s) = inl s
    sent_of w' (Effect.held ep cb f al d s) = inl s
    sent_of w' (Effect.refused ep e f v d s) = inl s
    sent_of w' (Effect.undecrypted d s) = inl s
    sent_of w' (Effect.aborted c d s) = inr (proper w' c s)
    sent_of w' (Effect.settled c status result e d s) = inr (proper w' c s)
