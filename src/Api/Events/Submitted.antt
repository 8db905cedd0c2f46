-- ===== src/Api/Events/Submitted.antt =====
-- `create_event` behind the validation of its body, against the columns of the migrated database.
use Prim.Native.String.{count}
use eventmesh.Base.{
  ℕ, ◌≤◌, String, Bool, true, false, ◌≡◌, refl, ◌⊎◌, inl, inr, ◌↔◌, Option, none, some, ◌&&◌, ltb,
  All, Result, ok, err, raise_if-ok, Bool-cases, arith, if_true, if_false, ap, ◌∙◌,
}
use eventmesh.Base.Int.{ℤ, pos, negsuc}
use eventmesh.Database.{Event, Tables}
use eventmesh.Api.Auth.{AuthContext}
use eventmesh.Api.Schemas.{EventBody, TypeIssue, is_blank, validate_type}
use eventmesh.Api.Events.Columns.{has_nul, is_storable_text, is_storable_number, is_storable_option}
use eventmesh.Api.Events.{
  ApiSettings, ApiError, EventCreateRequest, Fresh, new_event, truthy, seen, store_event,
  is_storable, commit_new, create_event,
}
use eventmesh.Api.Events.Idempotency.{within}
use eventmesh.Migrations.{big_integer, Catalog, apply, run, Migrator, migrate}
use eventmesh.Migrations.Frame.{Spared, names_in, beside}
use eventmesh.Migrations.Initial.{upgrade}
use eventmesh.Migrations.RoundTrip.{schema}
use eventmesh.Migrations.Widths.{TextFits, NumberFits, CanHold, migrate-upgrade_view}

-- The answer 422 of FastAPI, or the handler's own error.
pub data SubmitError : Type 0 where
  unprocessable : TypeIssue → SubmitError
  refused : ApiError → SubmitError

-- `Field(default_factory=dict)`
abbrev pub or_empty : Option String → String
or_empty none = "{}"
or_empty (some content) = content

-- The validated body, with the two headers that the handler reads.
abbrev pub request_of : EventBody → Bool → Option String → ℕ → EventCreateRequest
request_of body is_jsonb idempotency_key content_length = record {
  event_type = body.event_type;
  source = body.source;
  entity_id = body.entity_id;
  sequence = body.sequence;
  content = or_empty body.content;
  is_jsonb = is_jsonb;
  idempotency_key = idempotency_key;
  content_length = content_length;
}

abbrev pub answered : Result ApiError ℕ × Tables → Result SubmitError ℕ × Tables
answered (err e, db) = (err (SubmitError.refused e), db)
answered (ok event_id, db) = (ok event_id, db)

-- What follows the validation: the answer 422, or the handler's
abbrev pub handled :
    Result TypeIssue String → Result ApiError ℕ × Tables → Tables → Result SubmitError ℕ × Tables
handled (err issue) r db = (err (SubmitError.unprocessable issue), db)
handled (ok valid) r db = answered r

-- A request to create an event, from the validation of its body on.
unfoldable pub submit_event :
    ApiSettings
    → AuthContext
    → EventBody
    → Bool
    → Option String
    → ℕ
    → Fresh
    → Tables
    → Result SubmitError ℕ × Tables
submit_event settings ctx body is_jsonb key content_length fresh db =
    let request = request_of body is_jsonb key content_length in
    handled (validate_type body.event_type) (create_event settings ctx request fresh db) db

abbrev pub OptionFits {ℓ} : {A : Type ℓ} → (A → Type 0) → Option A → Type 0
OptionFits P none = Unit
OptionFits P (some a) = P a

-- The column holds the text, which has no NUL character.
abbrev pub CanStore : Catalog → String → String → String → Type 0
CanStore c table column s = CanHold TextFits c table column s × (has_nul s ≡ false)

-- The server stores the event's row and the key's: texts are no longer, and the number no greater, than
-- the columns of the catalog allow.
pub record RowsFit (c : Catalog) (e : Event) (stored_key : Option String) (is_jsonb : Bool)
    : Type 0 where
  pub event_type : CanStore c "events" "event_type" e.event_type
  pub source : OptionFits (CanStore c "events" "source") e.source
  pub entity_id : OptionFits (CanStore c "events" "entity_id") e.entity_id
  pub sequence : OptionFits (CanHold NumberFits c "events" "sequence_number") e.sequence_number
  pub key : OptionFits (CanStore c "idempotency_keys" "key") stored_key
  pub content : is_jsonb ≡ true

-- What becomes of a submission: both rows fit and it is stored, or one does not and nothing is.
pub record Submitted (c : Catalog) (settings : ApiSettings) (ctx : AuthContext) (body : EventBody)
    (is_jsonb : Bool) (key : Option String) (content_length : ℕ) (fresh : Fresh) (db : Tables)
    : Type 0 where
  pub not_blank : is_blank body.event_type ≡ false
  pub short : count body.event_type ≤ 255
  pub outcome :
      let request = request_of body is_jsonb key content_length in
      let r = submit_event settings ctx body is_jsonb key content_length fresh db in
      let Fit = RowsFit c (new_event ctx.tenant_id request fresh) (truthy key) is_jsonb in
      (Fit
        × (r ≡ (
          ok fresh.event_id,
          store_event settings ctx.tenant_id (truthy key) request fresh db,
        )))
      ⊎ ((Fit → ⊥) × (r ≡ (err (SubmitError.refused ApiError.database_error), db)))

validate_type-ok :
    (v : String) {w : String} → validate_type v ≡ ok w → (is_blank v ≡ false) × (count v ≤ 255)
validate_type-ok v e =
    let (short, rest) = raise_if-ok (ltb 255 (count v)) TypeIssue.string_too_long _ e in
    ((raise_if-ok (is_blank v) TypeIssue.event_type_required _ rest).0, ground arith)

text_iff : (s : String) → (is_storable_text s ≡ true) ↔ ((count s ≤ 255) × (has_nul s ≡ false))
text_iff s = (λ h. ground arith, λ h. ground (arith, h.0, h.1))

number_iff : (z : ℤ) → (is_storable_number z ≡ true) ↔ NumberFits big_integer z
number_iff (pos n) = (λ h. ground arith, λ h. ground arith)
number_iff (negsuc n) = (λ h. ground arith, λ h. ground arith)

option_iff :
    {A : Type 0} (p : A → Bool) (P : A → Type 0) (o : Option A)
    → ((a : A) → (p a ≡ true) ↔ P a)
    → (is_storable_option p o ≡ true) ↔ OptionFits P o
option_iff p P none f = (λ h. tt, λ h. refl)
option_iff p P (some a) f = f a

and_six :
    (a b c d e f : Bool)
    → (a && b && c && d && e && f ≡ true)
      ↔ ((a ≡ true) × (b ≡ true) × (c ≡ true) × (d ≡ true) × (e ≡ true) × (f ≡ true))
and_six a b c d e f = (λ h. ground arith, λ h. let (a', b', c', d', e', f') = h in ground arith)

-- The models' columns take exactly what the migrated ones do.
is_storable-RowsFit :
    (b : Catalog) (tenant_id : ℕ) (key : Option String) (request : EventCreateRequest)
    (fresh : Fresh)
    → (is_storable key request ≡ true)
      ↔ RowsFit (beside b schema) (new_event tenant_id request fresh) key request.is_jsonb
unfolding run apply
is_storable-RowsFit b tenant_id key request fresh =
    let all_of =
      and_six (is_storable_text request.event_type)
        (is_storable_option is_storable_text request.source)
        (is_storable_option is_storable_text request.entity_id)
        (is_storable_option is_storable_number request.sequence)
        (is_storable_option is_storable_text key) request.is_jsonb in
    (
      λ h.
          let (t, s, e, n, k, c) = all_of.0 h in
          record {
            event_type = (text_iff request.event_type).0 t;
            source = (option_iff is_storable_text _ request.source text_iff).0 s;
            entity_id = (option_iff is_storable_text _ request.entity_id text_iff).0 e;
            sequence = (option_iff is_storable_number _ request.sequence number_iff).0 n;
            key = (option_iff is_storable_text _ key text_iff).0 k;
            content = c;
          },
      λ h. all_of.1 (
        (text_iff request.event_type).1 h.event_type,
        (option_iff is_storable_text _ request.source text_iff).1 h.source,
        (option_iff is_storable_text _ request.entity_id text_iff).1 h.entity_id,
        (option_iff is_storable_number _ request.sequence number_iff).1 h.sequence,
        (option_iff is_storable_text _ key text_iff).1 h.key,
        h.content,
      ),
    )

submit_event-commit :
    (settings : ApiSettings) (ctx : AuthContext) (body : EventBody) (is_jsonb : Bool)
    (key : Option String) (n : ℕ) (fresh : Fresh) (db : Tables) {w : String}
    → validate_type body.event_type ≡ ok w
    → n ≤ settings.max_event_payload_bytes
    → seen ctx.tenant_id (truthy key) db ≡ none
    → submit_event settings ctx body is_jsonb key n fresh db
      ≡ answered
          (commit_new settings ctx.tenant_id (truthy key) (request_of body is_jsonb key n) fresh db)
unfolding submit_event create_event
submit_event-commit settings ctx body is_jsonb key n fresh db valid fits new =
    rw (valid, within settings.max_event_payload_bytes n fits, new) refl

-- `upgrade` ran on a database without a relation of the schema's names, and without a foreign key or
-- an index on a table of such a name. For a submission that passes the validation, within the size
-- limit, and with an idempotency key that is missing, empty or not seen before: its type is not blank
-- and has at most 255 characters. If the rows of its event and its key fit the columns that
-- `upgrade` made, it is stored and answered with the new id. Otherwise nothing is stored, and the
-- request ends in the database's exception.
pub submit_event-Submitted :
    (m : Migrator) (s up : m.State)
    → All (Spared (m.view s)) (names_in upgrade)
    → migrate m upgrade s ≡ some up
    → (settings : ApiSettings) (ctx : AuthContext) (body : EventBody) (is_jsonb : Bool)
      (key : Option String) (content_length : ℕ) (fresh : Fresh) (db : Tables) (w : String)
    → validate_type body.event_type ≡ ok w
    → content_length ≤ settings.max_event_payload_bytes
    → seen ctx.tenant_id (truthy key) db ≡ none
    → Submitted (m.view up) settings ctx body is_jsonb key content_length fresh db
unfolding commit_new
submit_event-Submitted m s up spared done settings ctx body is_jsonb key n fresh db w valid fits
      new =
    let request = request_of body is_jsonb key n in
    let same = is_storable-RowsFit (m.view s) ctx.tenant_id (truthy key) request fresh in
    let (shown, short) = validate_type-ok body.event_type valid in
    let ran = submit_event-commit settings ctx body is_jsonb key n fresh db valid fits new in
    rw (migrate-upgrade_view m s up spared done) (record {
      not_blank = shown;
      short = short;
      outcome = elim (Bool-cases (is_storable (truthy key) request)) [
        | inl fit ↦ inl (same.0 fit, ran ∙ ap answered (if_true _ _ fit))
        | inr bad ↦ inr (λ h. cc (same.1 h, bad), ran ∙ ap answered (if_false _ _ bad))
      ];
    })
