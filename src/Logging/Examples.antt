-- ===== src/Logging/Examples.antt =====
-- Events with secrets.
use Prim.Native.String.{◌++◌ as text_append}
use eventmesh.Base.{String, true, false, ◌≡◌, refl, List, [], ◌∷◌, map}
use eventmesh.Logging.{is_redacted, redact_processor, process}
use eventmesh.Logging.Redaction.{hide_secret, process_hides}

abbrev text : String → String
text t = t

abbrev request_event : List (String × String)
request_event = ("event", "called") ∷ ("Authorization", "Bearer abc") ∷ ("payload", "{}") ∷ []

abbrev other_event : List (String × String)
other_event = ("event", "called") ∷ ("Authorization", "Bearer xyz") ∷ ("payload", "{}") ∷ []

redacted_keys :
    (is_redacted "API_KEY" ≡ true)
    × (is_redacted "toKen" ≡ true)
    × (is_redacted "payload" ≡ false)
    × (redact_processor text request_event
        ≡ ("event", "called") ∷ ("Authorization", "***REDACTED***") ∷ ("payload", "{}") ∷ [])
unfolding is_redacted redact_processor
redacted_keys = (refl, refl, refl, refl)

-- The service of `bind_contextvars`, the level and the time
abbrev with_service : List (String × String) → List (String × String)
with_service d = ("service", "worker") ∷ d

abbrev with_level : List (String × String) → List (String × String)
with_level d = ("level", "info") ∷ d

abbrev with_time : List (String × String) → List (String × String)
with_time d = ("timestamp", "2026-01-01T00:00:00Z") ∷ d

abbrev line : List (String × String) → String
line [] = ""
line (p ∷ d) = text_append p.0 (text_append "=" (text_append p.1 (text_append " " (line d))))

process_hides_example :
    (process text with_service with_level with_time line request_event
      ≡ process text with_service with_level with_time line other_event)
    × (process text with_service with_level with_time line request_event
        ≡ line (map (hide_secret text) (with_time (with_level (with_service request_event)))))
unfolding is_redacted
process_hides_example =
    process_hides text with_service with_level with_time line request_event other_event
      (λ d e h. (refl, λ u. refl, h)) (λ d e h. (refl, λ u. refl, h))
      (λ d e h. (refl, λ u. refl, h)) (refl, λ u. refl, (refl, λ u. cc, (refl, λ u. refl, tt)))
