-- ===== src/Api/Events/Idempotency.antt =====
-- A client that sends one event twice under one idempotency key.
use eventmesh.Base.{
  ℕ, String, ◌≡◌, ◌≢◌, refl, sym, ap, ◌∙◌, inl, inr, Bool, true, false, Option, none, some, List,
  [], ◌∷◌, ◌++◌, ==_iff, eq_iff, str_eq, ltb, find, arith, ok, ◌≤◌, if_true, if_false, Bool-cases,
}
use eventmesh.Database.{IdempotencyKey, Tables}
use eventmesh.Api.Auth.{AuthContext}
use eventmesh.Api.Events.{
  ApiSettings, EventCreateRequest, Fresh, truthy, find_key, new_key, store_event, is_storable,
  commit_new, create_event,
}

find-append_none :
    {A : Type 0} (p : A → Bool) (xs : List A) (a : A)
    → find p xs ≡ none
    → p a ≡ true
    → find p (xs ++ a ∷ []) ≡ some a
find-append_none p [] a n t = if_true _ _ t
find-append_none p (x ∷ xs) a n t = elim (Bool-cases (p x)) [
  | inl e ↦ cc (if_true (some x) (find p xs) e, n)
  | inr e ↦ if_false _ _ e ∙ find-append_none p xs a (sym (if_false _ _ e) ∙ n) t
]

not_empty : (k : String) → k ≢ "" → str_eq k "" ≡ false
not_empty k h = ground (arith, eq_iff k "")

pub truthy_of : (o : Option String) (k : String) → o ≡ some k → k ≢ "" → truthy o ≡ some k
truthy_of o k e h = rw (e, not_empty k h) refl

pub within : (limit n : ℕ) → n ≤ limit → ltb limit n ≡ false
within limit n h = ground arith

-- After a key was not seen and its event was stored, the key is seen, and names that event.
pub seen-store_event :
    (settings : ApiSettings) (tenant_id : ℕ) (k : String) (body : EventCreateRequest)
    (fresh : Fresh) (db : Tables)
    → find_key tenant_id k db ≡ none
    → find_key tenant_id k (store_event settings tenant_id (some k) body fresh db)
      ≡ some (new_key settings tenant_id k fresh)
unfolding store_event
seen-store_event settings tenant_id k body fresh db n =
    find-append_none _ db.idempotency_keys (new_key settings tenant_id k fresh) n
      (rw ((==_iff tenant_id tenant_id).1 refl, (eq_iff k k).1 refl) refl)

-- A request under a key that was seen changes nothing, and answers with the event of the key.
pub create_event_seen :
    (settings : ApiSettings) (ctx : AuthContext) (body : EventCreateRequest) (fresh : Fresh)
    (db : Tables) (k : String) (row : IdempotencyKey)
    → body.idempotency_key ≡ some k
    → k ≢ ""
    → body.content_length ≤ settings.max_event_payload_bytes
    → find_key ctx.tenant_id k db ≡ some row
    → create_event settings ctx body fresh db ≡ (ok row.event_id, db)
unfolding create_event
create_event_seen settings ctx body fresh db k row e h fits found =
    rw (within _ body.content_length fits, e, not_empty k h, found) refl

pub create_event_unseen :
    (settings : ApiSettings) (ctx : AuthContext) (body : EventCreateRequest) (fresh : Fresh)
    (db : Tables) (k : String)
    → body.idempotency_key ≡ some k
    → k ≢ ""
    → body.content_length ≤ settings.max_event_payload_bytes
    → find_key ctx.tenant_id k db ≡ none
    → is_storable (some k) body ≡ true
    → create_event settings ctx body fresh db
      ≡ (ok fresh.event_id, store_event settings ctx.tenant_id (some k) body fresh db)
unfolding create_event commit_new
create_event_unseen settings ctx body fresh db k e h fits found storable =
    rw (within _ body.content_length fits, truthy_of body.idempotency_key k e h, found)
      (ap (λ o. commit_new settings ctx.tenant_id o body fresh db)
          (truthy_of body.idempotency_key k e h)
        ∙ if_true _ _ storable)
