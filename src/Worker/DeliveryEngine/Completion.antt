-- ===== src/Worker/DeliveryEngine/Completion.antt =====
-- When an event is completed.
use eventmesh.Base.{
  ℕ, ◌≡◌, ap, inl, inr, Bool, false, ◌&&◌, List, [], ◌∷◌, ◌==◌, ==_iff, all, select, Has,
  Has-select_of, arith, if_false,
}
use eventmesh.Database.{Delivery, Tables}
use eventmesh.Worker.DeliveryEngine.{is_terminal, maybe_complete_event}

all-false :
    {A : Type 0} (p : A → Bool) (xs : List A) (a : A) → Has a xs → p a ≡ false → all p xs ≡ false
all-false p [] a m f = absurd m
all-false p (x ∷ xs) a (inl e) f = ground (arith, ap p e)
all-false p (x ∷ xs) a (inr m) f = ground (arith, all-false p xs a m f)

and_false : (a b : Bool) → b ≡ false → a && b ≡ false
and_false a b e = ground arith

-- As long as one delivery of the event is neither DELIVERED nor in the DLQ,
-- `_maybe_complete_event` changes nothing.
pub maybe_complete_event_open :
    (event_id : ℕ) (db : Tables) (d : Delivery)
    → Has d db.deliveries
    → d.event_id ≡ event_id
    → is_terminal d.status ≡ false
    → maybe_complete_event event_id db ≡ db
unfolding maybe_complete_event
maybe_complete_event_open event_id db d m e f = if_false _ _ (
    and_false _ _ (
      all-false (λ (r : Delivery). is_terminal r.status)
        (select (λ (r : Delivery). r.event_id == event_id) db.deliveries) d
        (Has-select_of d _ db.deliveries m ((==_iff d.event_id event_id).1 e)) f))
