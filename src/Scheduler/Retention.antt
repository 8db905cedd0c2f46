-- ===== src/Scheduler/Retention.antt =====
-- What a round of `cleanup_loop` keeps, by the age of a row, and what stops it.
use eventmesh.Base.{
  ℕ, ◌*◌, ◌-◌, ◌<◌, ◌⊎◌, ap, All, All-of_forall, select, ◌≡◌, ◌≢◌, sym, subst, inl, inr, Bool, true,
  false, List, ◌==◌, ==_iff, ◌&&◌, ◌||◌, not, any, arith, Bool-cases, Has, Has-select_of, if_true,
  if_false, any-Has,
}
use eventmesh.Common.Enums.{DeliveryStatus, OutboxStatus}
use eventmesh.Database.{Event, Delivery, IdempotencyKey, OutboxEvent, Tables}
use eventmesh.Scheduler.{
  RetentionSettings, keeps_event, keeps_delivery, is_dlq, is_referenced, before_events,
  cleanup_round,
}

blocks : (kept x y z : Bool) → kept ≡ false → x ≡ true → not kept && (x || y || z) ≡ true
blocks kept x y z f t = ground arith

-- An old event with a retained delivery makes the test for a violated key true.
violates :
    (settings : RetentionSettings) (now : ℕ) (db : Tables) (e : Event) (d : Delivery)
    → keeps_event settings now e ≡ false
    → Has d db.deliveries
    → keeps_delivery settings now d ≡ true
    → d.event_id ≡ e.id
    → not (keeps_event settings now e) && is_referenced (before_events settings now db) e ≡ true
violates settings now db e d old n kept refers = blocks (keeps_event settings now e) _ _ _ old (
    any-Has (λ (x : Delivery). x.event_id == e.id)
      (select (keeps_delivery settings now) db.deliveries) d
      (Has-select_of d _ db.deliveries n kept) ((==_iff d.event_id e.id).1 refers))

-- If an event is old enough to be deleted, but a delivery of it is retained (a younger entry of the
-- DLQ, say), then the round deletes nothing at all: neither other events nor expired keys,
-- deliveries or outbox rows.
pub cleanup_round_blocked :
    (settings : RetentionSettings) (now : ℕ) (db : Tables) (e : Event) (d : Delivery)
    → Has e db.events
    → keeps_event settings now e ≡ false
    → Has d db.deliveries
    → keeps_delivery settings now d ≡ true
    → d.event_id ≡ e.id
    → cleanup_round settings now db ≡ db
unfolding cleanup_round
cleanup_round_blocked settings now db e d m old n kept refers =
    if_true _ _ (any-Has _ db.events e m (violates settings now db e d old n kept refers))

-- More than so many days old.
abbrev pub Older : ℕ → ℕ → ℕ → Type 0
Older days now created_at = created_at < now - days * 86_400_000_000

-- The retention of the DLQ or of all other deliveries has passed.
abbrev pub DeliveryExpired : RetentionSettings → ℕ → Delivery → Type 0
DeliveryExpired settings now d =
    ((d.status ≡ DeliveryStatus.dlq) × Older settings.retention_dlq_days now d.created_at)
    ⊎ ((d.status ≢ DeliveryStatus.dlq) × Older settings.retention_deliveries_days now d.created_at)

-- Each row of the first tables stands in the second ones, or has expired.
pub record OnlyExpiredGo (settings : RetentionSettings) (now : ℕ) (db db' : Tables) : Type 0 where
  pub events :
      All
        (λ (e : Event). Has e db'.events ⊎ Older settings.retention_events_days now e.created_at)
        db.events
  pub deliveries : All (λ d. Has d db'.deliveries ⊎ DeliveryExpired settings now d) db.deliveries
  pub outbox :
      All
        (λ (o : OutboxEvent).
          Has o db'.outbox
          ⊎ ((o.status ≡ OutboxStatus.published)
              × Older settings.retention_events_days now o.created_at))
        db.outbox
  pub keys :
      All
        (λ (k : IdempotencyKey). Has k db'.idempotency_keys ⊎ (k.expires_at < now))
        db.idempotency_keys

-- A row that the test keeps is selected; of one that it does not keep, something is known.
selected_or :
    {A : Type 0} (p : A → Bool) (P : A → Type 0) (xs : List A)
    → ((a : A) → p a ≡ false → P a)
    → All (λ a. Has a (select p xs) ⊎ P a) xs
selected_or p P xs gone = All-of_forall xs (λ a m. elim (Bool-cases (p a)) [
  | inl stays ↦ inl (Has-select_of a p xs m stays)
  | inr goes ↦ inr (gone a goes)
])

expired_delivery :
    (settings : RetentionSettings) (now : ℕ) (d : Delivery)
    → keeps_delivery settings now d ≡ false
    → DeliveryExpired settings now d
expired_delivery settings now d goes = elim (Bool-cases (is_dlq d.status)) [
  | inl dead ↦ inl (ground arith, ground arith)
  | inr other ↦ inr (λ e. cc (ap is_dlq e, other), ground arith)
]

selected-OnlyExpiredGo :
    (settings : RetentionSettings) (now : ℕ) (db : Tables)
    → OnlyExpiredGo settings now db (record (before_events settings now db) {
      events = select (keeps_event settings now) db.events;
    })
selected-OnlyExpiredGo settings now db = record {
  events = selected_or _ _ db.events (λ e goes. ground arith);
  deliveries = selected_or _ _ db.deliveries (expired_delivery settings now);
  outbox = selected_or _ _ db.outbox (λ o goes. (ground arith, ground arith));
  keys = selected_or _ _ db.idempotency_keys (λ k goes. ground arith);
}

all_here : {A : Type 0} (P : A → Type 0) (xs : List A) → All (λ a. Has a xs ⊎ P a) xs
all_here P xs = All-of_forall xs (λ a m. inl m)

-- Whatever its settings and the time, a round of the cleanup deletes a row only if it has expired: an
-- event older than the retention of events, an entry of the DLQ older than that of the DLQ, any other
-- delivery older than that of deliveries, an outbox row that is published and older than the retention
-- of events, and an idempotency key past its time.
pub cleanup_round-OnlyExpiredGo :
    (settings : RetentionSettings) (now : ℕ) (db : Tables)
    → OnlyExpiredGo settings now db (cleanup_round settings now db)
unfolding cleanup_round
cleanup_round-OnlyExpiredGo settings now db =
    let violated : Event → Bool =
      λ e. not (keeps_event settings now e) && is_referenced (before_events settings now db) e in
    elim (Bool-cases (any violated db.events)) [
      | inl stop ↦ subst (OnlyExpiredGo settings now db) (sym (if_true _ _ stop)) (record {
        events = all_here _ db.events;
        deliveries = all_here _ db.deliveries;
        outbox = all_here _ db.outbox;
        keys = all_here _ db.idempotency_keys;
      })
      | inr go ↦
          subst (OnlyExpiredGo settings now db) (sym (if_false _ _ go))
            (selected-OnlyExpiredGo settings now db)
    ]
