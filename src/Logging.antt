-- ===== src/Logging.antt =====
-- packages/logging/eventmesh_logging/setup.py: the processors that a log event passes before it is
-- printed. An event is a dictionary, the list of its entries with each key once; its values are of a
-- type of which the texts are some. structlog's own processors and its renderer are parameters.
pub mod Redaction
mod Examples
use eventmesh.Base.{
  ℕ, String, Bool, List, [], ◌∷◌, map, ◌==◌, str_eq, any, update, codes, codes_eq, lower_code,
  if◌then◌else◌,
}

-- `_REDACT_KEYS`
abbrev pub redact_keys : List String
redact_keys =
    "api_key" ∷ "authorization" ∷ "secret" ∷ "webhook_secret" ∷ "key_hash" ∷ "password" ∷ "token"
    ∷ []

-- `lower` on a character, as far as the keys can tell: of the characters that are not ASCII, only the
-- Kelvin sign has an ASCII letter for its lower case.
abbrev pub lower_char : ℕ → ℕ
lower_char c = if c == 8490 then 107 else lower_code c

-- `k.lower() in _REDACT_KEYS`
unfoldable pub is_redacted : String → Bool
is_redacted k = any (λ n. codes_eq (map lower_char (codes k)) (codes n)) redact_keys

module _ {V : Type 0} (text : String → V) where
  abbrev pub redacted : V
  redacted = text "***REDACTED***"

  -- `event_dict[k] = "***REDACTED***"`
  abbrev pub set_redacted : String → List (String × V) → List (String × V)
  set_redacted k = update (λ p. str_eq p.0 k) (λ p. (p.0, redacted))

  -- The loop over the keys
  abbrev pub redact_all : List String → List (String × V) → List (String × V)
  redact_all [] d = d
  redact_all (k ∷ ks) d = redact_all ks (if is_redacted k then set_redacted k d else d)

  -- `_redact_processor`, with `list(event_dict.keys())`
  unfoldable pub redact_processor : List (String × V) → List (String × V)
  redact_processor d = redact_all (map (λ p. p.0) d) d

  -- `processors` of `structlog.configure`: the redaction stands between the last processor that adds
  -- entries and the renderer.
  unfoldable pub process :
      (merge_contextvars add_log_level time_stamper : List (String × V) → List (String × V))
      (json_renderer : List (String × V) → String)
      → List (String × V)
      → String
  process merge_contextvars add_log_level time_stamper json_renderer d =
      json_renderer (redact_processor (time_stamper (add_log_level (merge_contextvars d))))
