-- ===== src/Api/Endpoints/Subscriptions.antt =====
-- The event types of an endpoint, after the subscriptions of that or of another one change.
use mathlib.Core.List.{append-nil}
use eventmesh.Base.{
  ℕ, String, ◌≡◌, ◌≢◌, refl, sym, ap, ◌∙◌, false, List, [], ◌∷◌, ◌++◌, map, ◌==◌, ==_iff, inl, inr,
  Bool-cases, arith,
}
use eventmesh.Database.{EndpointSubscription}
use eventmesh.Api.Endpoints.{event_types, subscribe, unsubscribe}

pub not_same : (a b : ℕ) → a ≢ b → (a == b) ≡ false
not_same a b h = ground arith

event_types-append :
    (id : ℕ) (xs ys : List EndpointSubscription)
    → event_types id (xs ++ ys) ≡ event_types id xs ++ event_types id ys
event_types-append id [] ys = refl
event_types-append id (x ∷ xs) ys = elim (Bool-cases (x.endpoint_id == id)) [
  | inl e ↦ rw e (ap (◌∷◌ x.event_type) (event_types-append id xs ys))
  | inr e ↦ rw e (event_types-append id xs ys)
]

event_types_own :
    (id : ℕ) (events : List String)
    → event_types id (map (λ t. record { endpoint_id = id; event_type = t }) events) ≡ events
event_types_own id [] = refl
event_types_own id (t ∷ ts) = rw ((==_iff id id).1 refl) (ap (◌∷◌ t) (event_types_own id ts))

event_types_other :
    (id other : ℕ) (events : List String)
    → other ≢ id
    → event_types id (map (λ t. record { endpoint_id = other; event_type = t }) events) ≡ []
event_types_other id other [] h = refl
event_types_other id other (t ∷ ts) h = rw (not_same other id h) (event_types_other id other ts h)

pub event_types-subscribe :
    (id : ℕ) (events : List String) (subscriptions : List EndpointSubscription)
    → event_types id (subscribe id events subscriptions) ≡ event_types id subscriptions ++ events
event_types-subscribe id events subscriptions =
    event_types-append id subscriptions _
    ∙ ap (◌++◌ (event_types id subscriptions)) (event_types_own id events)

pub event_types-subscribe_other :
    (id other : ℕ) (events : List String) (subscriptions : List EndpointSubscription)
    → other ≢ id
    → event_types id (subscribe other events subscriptions) ≡ event_types id subscriptions
event_types-subscribe_other id other events subscriptions h =
    event_types-append id subscriptions _
    ∙ ap (◌++◌ (event_types id subscriptions)) (event_types_other id other events h)
    ∙ append-nil (event_types id subscriptions)

pub event_types-unsubscribe :
    (id : ℕ) (subscriptions : List EndpointSubscription)
    → event_types id (unsubscribe id subscriptions) ≡ []
event_types-unsubscribe id [] = refl
event_types-unsubscribe id (s ∷ ss) = elim (Bool-cases (s.endpoint_id == id)) [
  | inl e ↦ rw e (event_types-unsubscribe id ss)
  | inr e ↦ rw (e, e) (event_types-unsubscribe id ss)
]

pub event_types-unsubscribe_other :
    (id other : ℕ) (subscriptions : List EndpointSubscription)
    → other ≢ id
    → event_types id (unsubscribe other subscriptions) ≡ event_types id subscriptions
event_types-unsubscribe_other id other [] h = refl
event_types-unsubscribe_other id other (s ∷ ss) h = elim (Bool-cases (s.endpoint_id == other)) [
  | inl e ↦
      let away : (s.endpoint_id == id) ≡ false =
        not_same s.endpoint_id id (λ q. h (sym ((==_iff s.endpoint_id other).0 e) ∙ q)) in
      rw (e, away) (event_types-unsubscribe_other id other ss h)
  | inr e ↦ elim (Bool-cases (s.endpoint_id == id)) [
    | inl own ↦ rw (e, own) (ap (◌∷◌ s.event_type) (event_types-unsubscribe_other id other ss h))
    | inr away ↦ rw (e, away) (event_types-unsubscribe_other id other ss h)
  ]
]
