-- ===== src/Api/Listings.antt =====
-- The listings of apps/api/eventmesh_api/routers/events.py and routers/deliveries.py. A cursor is a
-- list of code points; `datetime.fromisoformat`, `uuid.UUID` and the database's driver are parameters.
pub mod Order
pub mod Reading
pub mod Paging
pub mod Dead
mod Examples
use eventmesh.Base.{
  ℕ, String, Bool, true, false, ◌&&◌, ◌||◌, Option, none, some, List, [], ◌∷◌, min, max, ◌==◌,
  str_eq, ltb, leb, any, select, take, sort_in, cut, if◌then◌else◌, Result, ok, err,
}
use eventmesh.Base.Int.{ℤ, pos, negsuc}
use eventmesh.Database.{Endpoint, Event, Delivery, Tables, get_endpoint}
use eventmesh.Scheduler.{is_dlq}
use eventmesh.Api.Auth.{AuthContext}
use eventmesh.Api.Events.{truthy}
use eventmesh.Api.Endpoints.{EndpointError, owned_endpoint}

-- `min(max(limit, 1), 200)`
abbrev pub clamp : ℤ → ℕ
clamp (pos n) = min (max n 1) 200
clamp (negsuc n) = 1

-- A `datetime`: its moment, and whether it has a time zone.
pub record Datetime : Type 0 where
  pub moment : ℕ
  pub aware : Bool

-- `datetime.fromisoformat` and `uuid.UUID`, where `none` is `ValueError`; and whether the driver takes
-- a time as the parameter of a query for a column that is `DateTime()`.
pub record Parsers : Type 0 where
  pub fromisoformat : List ℕ → Option Datetime
  pub uuid : List ℕ → Option ℕ
  pub binds : Datetime → Bool

-- `HTTPException`, by its code, or an exception of the driver, which no handler catches.
pub data ListingError : Type 0 where
  invalid_cursor driver_error : ListingError

-- `cursor_ts` and `cursor_id`
pub record Cursor : Type 0 where
  pub cursor_ts : Datetime
  pub cursor_id : ℕ

-- The place in the order that a cursor stands for.
pub record Place : Type 0 where
  pub created_at : ℕ
  pub id : ℕ

abbrev pub cursor_with : Option Datetime → Option ℕ → Result ListingError (Option Cursor)
cursor_with (some ts) (some id) = ok (some (record { cursor_ts = ts; cursor_id = id }))
cursor_with _ _ = err ListingError.invalid_cursor

-- `ts_str, id_str = cursor.split("|", 1)` and the two conversions
abbrev pub cursor_in : Parsers → Option (List ℕ × List ℕ) → Result ListingError (Option Cursor)
cursor_in parsers none = err ListingError.invalid_cursor
cursor_in parsers (some (ts_str, id_str)) =
    cursor_with (parsers.fromisoformat ts_str) (parsers.uuid id_str)

-- From `if cursor:` on; an empty cursor is as good as none.
abbrev pub read_cursor : Parsers → Option (List ℕ) → Result ListingError (Option Cursor)
read_cursor parsers none = ok none
read_cursor parsers (some []) = ok none
read_cursor parsers (some (c ∷ cs)) = cursor_in parsers (cut b'|' (c ∷ cs))

-- The parameters of the query, as `session.execute` gives them to the driver.
abbrev pub bind_cursor :
    Parsers → Result ListingError (Option Cursor) → Result ListingError (Option Place)
bind_cursor parsers (err e) = err e
bind_cursor parsers (ok none) = ok none
bind_cursor parsers (ok (some c)) =
    if parsers.binds c.cursor_ts
    then ok (some (record { created_at = c.cursor_ts.moment; id = c.cursor_id }))
    else err ListingError.driver_error

-- `(created_at < cursor_ts) | ((created_at == cursor_ts) & (id < cursor_id))`
abbrev pub is_after : Option Place → Event → Bool
is_after none e = true
is_after (some p) e =
    ltb e.created_at p.created_at || (e.created_at == p.created_at && ltb e.id p.id)

-- `if event_type:`
abbrev pub has_type : Option String → Event → Bool
has_type none e = true
has_type (some t) e = str_eq e.event_type t

-- `order_by(Event.created_at.desc(), Event.id.desc())`
abbrev pub comes_first : Event → Event → Bool
comes_first a b = ltb b.created_at a.created_at || (a.created_at == b.created_at && leb b.id a.id)

-- The tenant's events of the type, if one is asked for.
abbrev pub is_listed : AuthContext → Option String → Event → Bool
is_listed ctx event_type e = e.tenant_id == ctx.tenant_id && has_type (truthy event_type) e

-- The page after a place.
unfoldable pub page_after : AuthContext → ℕ → Option String → Option Place → Tables → List Event
page_after ctx limit event_type place db =
    take limit
      (sort_in comes_first (select (λ e. is_listed ctx event_type e && is_after place e) db.events))

abbrev pub page_of :
    Result ListingError (Option Place)
    → AuthContext
    → ℕ
    → Option String
    → Tables
    → Result ListingError (List Event)
page_of (err e) ctx limit event_type db = err e
page_of (ok place) ctx limit event_type db = ok (page_after ctx limit event_type place db)

unfoldable pub list_events :
    Parsers
    → AuthContext
    → ℤ
    → Option (List ℕ)
    → Option String
    → Tables
    → Result ListingError (List Event)
list_events parsers ctx limit cursor event_type db =
    page_of (bind_cursor parsers (read_cursor parsers cursor)) ctx (clamp limit) event_type db

-- `order_by(Delivery.created_at.desc())`; rows of one moment come in table order.
abbrev pub is_newer : Delivery → Delivery → Bool
is_newer a b = leb b.created_at a.created_at

abbrev pub deliveries_of :
    Result EndpointError Endpoint → ℕ → ℕ → Tables → Result EndpointError (List Delivery)
deliveries_of (err e) endpoint_id limit db = err e
deliveries_of (ok ep) endpoint_id limit db = ok (
    take limit
      (sort_in is_newer (select (λ (d : Delivery). d.endpoint_id == endpoint_id) db.deliveries)))

unfoldable pub list_endpoint_deliveries :
    AuthContext → ℕ → ℤ → Tables → Result EndpointError (List Delivery)
list_endpoint_deliveries ctx endpoint_id limit db =
    deliveries_of (owned_endpoint ctx (get_endpoint endpoint_id db)) endpoint_id (clamp limit) db

-- The join with `events`, and its conditions.
abbrev pub is_dead_of : AuthContext → Tables → Delivery → Bool
is_dead_of ctx db d =
    any (λ (e : Event). e.id == d.event_id && e.tenant_id == ctx.tenant_id) db.events
    && is_dlq d.status

unfoldable pub list_dlq : AuthContext → ℤ → Tables → List Delivery
list_dlq ctx limit db =
    take (clamp limit) (sort_in is_newer (select (is_dead_of ctx db) db.deliveries))
