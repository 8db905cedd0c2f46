-- ===== src/Api/Listings/Paging.antt =====
-- A client that reads a tenant's events page by page.
use mathlib.Core.Path.{◌≡◌, refl, ap, ◌∙◌}
use eventmesh.Base.{
  ℕ, zero, suc, ◌<◌, String, Bool, true, false, Option, none, List, [], ◌∷◌, length, take, take_nil,
  select, Keyed, sort_in, select-All, length-sort_in, Result, ok, err, arith,
}
use eventmesh.Base.Int.{ℤ}
use eventmesh.Database.{Event, Tables}
use eventmesh.Api.Auth.{AuthContext}
use eventmesh.Api.Listings.{
  Parsers, ListingError, is_after, is_listed, comes_first, clamp, page_after, list_events,
}
use eventmesh.Api.Listings.Reading.{
  Prints, read_all, All-is_after, page_after-rest, read_all_aware, read_from,
}

-- What a client gets that reads on until a page is empty.
abbrev pub all_read : Bool → List Event → Result ListingError (List Event)
all_read false es = ok es
all_read true [] = ok []
all_read true (e ∷ es) = err ListingError.driver_error

zoned_cases :
    (parsers : Parsers) (isoformat id_text : ℕ → List ℕ) (zoned : Bool)
    (prints : Prints parsers zoned isoformat id_text) (ctx : AuthContext) (limit : ℤ)
    (event_type : Option String) (db : Tables) (fuel : ℕ) (es : List Event)
    → zoned ≡ true
    → sort_in comes_first (select (is_listed ctx event_type) db.events) ≡ es
    → length es < fuel
    → read_all parsers isoformat id_text ctx limit event_type db fuel none ≡ all_read true es
unfolding read_all list_events
zoned_cases parsers isoformat id_text zoned prints ctx limit event_type db zero es aware q h =
    elim h [ ]
zoned_cases parsers isoformat id_text zoned prints ctx limit event_type db (suc fuel) [] aware q h =
    let page : page_after ctx (clamp limit) event_type none db ≡ [] =
      page_after-rest parsers isoformat id_text zoned prints ctx limit event_type db none
      ∙ ap (λ xs. take (clamp limit) (select (is_after none) xs)) q
      ∙ take_nil (clamp limit) in
    rw page refl
zoned_cases parsers isoformat id_text zoned prints ctx limit event_type db (suc zero) (e ∷ es) aware
      q h =
    absurd (omega (arith, h))
zoned_cases parsers isoformat id_text zoned prints ctx limit event_type db (suc (suc fuel)) (e ∷ es)
      aware q h =
    read_all_aware parsers isoformat id_text zoned prints ctx limit event_type db fuel e es aware q

-- For texts of times and ids that are read back, a driver that takes only times without a zone for the
-- models' columns, and events with distinct ids: whatever limit a client asks for, it reads with
-- cursors, page after page until a page is empty. If the times that it is shown have no zone, it gets
-- exactly the events of its tenant that have the type it asks for, if it does, each once, the newest
-- first and those of one moment by descending id. If they have a zone, as those of the migrated
-- columns do, and there is such an event, then the second page is an exception of the driver. Any
-- number of pages that exceeds the number of these events is enough.
pub read_all-all_read :
    (parsers : Parsers) (isoformat id_text : ℕ → List ℕ) (zoned : Bool) (ctx : AuthContext)
    (limit : ℤ) (event_type : Option String) (db : Tables) (fuel : ℕ)
    → Prints parsers zoned isoformat id_text
    → Keyed (λ (e : Event). e.id) db.events
    → length (select (is_listed ctx event_type) db.events) < fuel
    → read_all parsers isoformat id_text ctx limit event_type db fuel none
      ≡ all_read zoned (sort_in comes_first (select (is_listed ctx event_type) db.events))
read_all-all_read parsers isoformat id_text false ctx limit event_type db fuel prints distinct h =
    read_from parsers isoformat id_text false prints ctx limit event_type db refl distinct fuel none
      none _ refl
      (select-All (is_after none)
        (sort_in comes_first (select (is_listed ctx event_type) db.events)) (All-is_after _))
      (omega (arith, length-sort_in comes_first (select (is_listed ctx event_type) db.events)))
read_all-all_read parsers isoformat id_text true ctx limit event_type db fuel prints distinct h =
    zoned_cases parsers isoformat id_text true prints ctx limit event_type db fuel _ refl refl
      (omega (arith, length-sort_in comes_first (select (is_listed ctx event_type) db.events)))
