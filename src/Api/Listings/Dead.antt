-- ===== src/Api/Listings/Dead.antt =====
-- The listing of the dead letter queue, and the replay of its entries.
use eventmesh.Base.{
  ◌≡◌, ◌≤◌, sym, ap, ◌∙◌, true, some, ◌==◌, ==_iff, length, length-take-le, select, All, Has, Keyed,
  All-Has, All-of_forall, All-sort_in, sort_in, find-Keyed, Has-take, Has-select, Has-any,
  and_true_left, and_true_right, ok, arith,
}
use eventmesh.Base.Int.{ℤ}
use eventmesh.Database.{Event, Delivery, Tables, get_event, get_delivery}
use eventmesh.Scheduler.{is_dlq}
use eventmesh.Api.Auth.{AuthContext}
use eventmesh.Api.Events.{Fresh, read_delivery, replay_loaded, replay_dlq_entry}
use eventmesh.Api.Listings.{clamp, is_newer, is_dead_of, list_dlq}

clamp_bound : (limit : ℤ) → clamp limit ≤ 200
clamp_bound limit = ground arith

-- An entry of the listing is a row that its query selects.
listed_row :
    (ctx : AuthContext) (limit : ℤ) (db : Tables) (d : Delivery)
    → Has d (list_dlq ctx limit db)
    → Has d db.deliveries × (is_dead_of ctx db d ≡ true)
unfolding list_dlq
listed_row ctx limit db d m =
    let rows = select (is_dead_of ctx db) db.deliveries in
    let sorted : All (λ x. Has x rows) (sort_in is_newer rows) =
      All-sort_in (λ x. Has x rows) is_newer rows (All-of_forall rows (λ x n. n)) in
    Has-select d (is_dead_of ctx db) db.deliveries
      (All-Has (λ x. Has x rows) _ sorted (Has-take d (clamp limit) _ m))

-- What a client may rely on for an entry of the listing.
pub record Replayable (ctx : AuthContext) (fresh : Fresh) (db : Tables) (d : Delivery)
    : Type 0 where
  pub dead : is_dlq d.status ≡ true
  pub answer : (replay_dlq_entry ctx d.id fresh db).0 ≡ ok d.event_id

replayed_row :
    (ctx : AuthContext) (fresh : Fresh) (db : Tables) (d : Delivery)
    → Keyed (λ (d : Delivery). d.id) db.deliveries
    → Keyed (λ (e : Event). e.id) db.events
    → Has d db.deliveries
    → is_dlq d.status ≡ true
    → (e : Event) → Has e db.events
    → (e.id == d.event_id) ≡ true
    → (e.tenant_id == ctx.tenant_id) ≡ true
    → Replayable ctx fresh db d
unfolding replay_dlq_entry read_delivery replay_loaded
replayed_row ctx fresh db d deliveries events here dead e known same own =
    let at_id : e.id ≡ d.event_id = (==_iff e.id d.event_id).0 same in
    let found : get_delivery d.id db ≡ some d =
      find-Keyed (λ (x : Delivery). x.id) db.deliveries d deliveries here in
    let event : get_event d.event_id db ≡ some e =
      ap (λ i. get_event i db) (sym at_id)
      ∙ find-Keyed (λ (x : Event). x.id) db.events e events known in
    record { dead = dead; answer = rw (found, event, own, dead) (ap ok at_id) }

-- With distinct ids of the deliveries and of the events: whatever limit a client asks for, the
-- listing of the DLQ has at most 200 entries, each of them is a delivery in the DLQ, and a request of
-- the same tenant to replay it is answered with the id of its event.
pub list_dlq-Replayable :
    (ctx : AuthContext) (limit : ℤ) (fresh : Fresh) (db : Tables)
    → Keyed (λ (d : Delivery). d.id) db.deliveries
    → Keyed (λ (e : Event). e.id) db.events
    → (length (list_dlq ctx limit db) ≤ 200) × All (Replayable ctx fresh db) (list_dlq ctx limit db)
unfolding list_dlq
list_dlq-Replayable ctx limit fresh db deliveries events = (
  omega (
    arith,
    length-take-le (clamp limit) (sort_in is_newer (select (is_dead_of ctx db) db.deliveries)),
    clamp_bound limit,
  ),
  All-of_forall (list_dlq ctx limit db) (λ d m.
      let (here, passes) = listed_row ctx limit db d m in
      let dead = and_true_right _ _ passes in
      let (e, known, own) = Has-any _ db.events (and_true_left _ _ passes) in
      replayed_row ctx fresh db d deliveries events here dead e known (and_true_left _ _ own)
        (and_true_right _ _ own)),
)
