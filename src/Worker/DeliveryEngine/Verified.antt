-- ===== src/Worker/DeliveryEngine/Verified.antt =====
-- What the receiver of a webhook finds when it checks the request that the engine sent.
use eventmesh.Base.{
  ℕ, ◌+◌, ◌*◌, ◌≤◌, ◌≡◌, refl, ap, ◌∙◌, ◌⊎◌, inl, inr, true, false, some, List, [], ◌∷◌, ◌++◌,
  codes_eq, ==_iff, ok, arith,
}
use eventmesh.Base.Int.{pos}
use eventmesh.Auth.Signature.{sign_payload}
use eventmesh.Auth.Signature.Verify.{is_stale, verify_signature_header}
use eventmesh.Auth.Signature.RoundTrip.{Hexadecimal, verify_signature_header-build}
use eventmesh.Database.{Endpoint, get_endpoint}
use eventmesh.Worker.DeliveryEngine.{Settings, Codecs, Attempt, Request, World}
use eventmesh.Worker.DeliveryEngine.Deliver.{deliver_to_endpoint}
use eventmesh.Worker.DeliveryEngine.Sending.{IsProper, deliver_to_endpoint_sends}

codes_eq_refl : (cs : List ℕ) → codes_eq cs cs ≡ true
codes_eq_refl [] = refl
codes_eq_refl (c ∷ cs) = rw ((==_iff c c).1 refl, codes_eq_refl cs) refl

not_stale :
    (signed_at now tolerance : ℕ)
    → signed_at * 1_000_000 ≤ now
    → now ≤ (signed_at + tolerance) * 1_000_000
    → is_stale now tolerance (pos signed_at) ≡ false
not_stale signed_at now tolerance early late = ground arith

-- The request goes to an endpoint of the database, and whoever holds the endpoint's secret accepts
-- its signature, from the second of the signing on and for as long as the tolerance lasts.
pub record Verified (codecs : Codecs) (a : Attempt) (endpoint_id : ℕ) (w : World) (r : Request)
    : Type 0 where
  pub endpoint : Endpoint
  pub secret : List ℕ
  pub found : get_endpoint endpoint_id w.db ≡ some endpoint
  pub addressed : r.url ≡ endpoint.url
  pub held : codecs.decrypt_secret endpoint.secret_encrypted ≡ some secret
  pub accepted :
      (tolerance now : ℕ)
      → a.signed_at * 1_000_000 ≤ now
      → now ≤ (a.signed_at + tolerance) * 1_000_000
      → verify_signature_header codecs.hmac_sha256 secret r.content r.signature tolerance now
        ≡ ok true

IsProper-Verified :
    (settings : Settings) (codecs : Codecs) (a : Attempt) (endpoint_id : ℕ) (w : World)
    (r : Request)
    → Hexadecimal codecs.hmac_sha256
    → IsProper settings codecs a endpoint_id w r
    → Verified codecs a endpoint_id w r
IsProper-Verified settings codecs a endpoint_id w r hex p = record {
  endpoint = p.endpoint;
  secret = p.secret;
  found = p.found;
  addressed = p.addressed;
  held = p.decrypted;
  accepted = λ tolerance now early late.
      ap (λ s. verify_signature_header codecs.hmac_sha256 p.secret r.content s tolerance now)
        p.signed
      ∙ verify_signature_header-build codecs.hmac_sha256 p.secret r.content r.content
          (pos a.signed_at) tolerance now hex
      ∙ rw
          (
            not_stale a.signed_at now tolerance early late,
            codes_eq_refl (sign_payload codecs.hmac_sha256 p.secret (pos a.signed_at) r.content),
          )
          refl;
}

-- If HMAC yields hexadecimal text, then one delivery sends no request, or exactly one, to the URL of
-- the endpoint in the database. The check that consumers are told to make, with the endpoint's
-- decrypted secret, the request's body and its signature header, accepts that one from the second
-- of its signing on and for as long as the tolerance lasts.
pub deliver_to_endpoint-Verified :
    (settings : Settings) (codecs : Codecs) (a : Attempt) (event_id endpoint_id n : ℕ) (w : World)
    → Hexadecimal codecs.hmac_sha256
    → let w' = (deliver_to_endpoint settings codecs a event_id endpoint_id n w).1 in
      (w'.sent ≡ w.sent)
      ⊎ ((r : Request) × (w'.sent ≡ w.sent ++ r ∷ []) × Verified codecs a endpoint_id w r)
deliver_to_endpoint-Verified settings codecs a event_id endpoint_id n w hex =
    elim (deliver_to_endpoint_sends settings codecs a event_id endpoint_id n w) [
      | inl none_sent ↦ inl none_sent
      | inr (r, sent, proper) ↦
          inr (r, sent, IsProper-Verified settings codecs a endpoint_id w r hex proper)
    ]
