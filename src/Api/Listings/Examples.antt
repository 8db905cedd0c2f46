-- ===== src/Api/Listings/Examples.antt =====
-- The listings of a small database, where a time's text is one letter per unit.
use eventmesh.Base.{
  ℕ, zero, suc, ◌≡◌, ◌≤◌, refl, none, some, List, [], ◌∷◌, length, select, All, sort_in, ok, err,
  not, ◌==◌, false, true, arith,
}
use eventmesh.Base.Int.{pos, negsuc}
use eventmesh.Database.{Tables}
use eventmesh.Database.Sample.{tables, order_event, dead_delivery}
use eventmesh.Api.Auth.{AuthContext}
use eventmesh.Api.Events.{Fresh}
use eventmesh.Api.Listings.{
  Parsers, ListingError, comes_first, is_listed, list_dlq, list_events, page_after,
}
use eventmesh.Api.Listings.Reading.{Prints, read_all}
use eventmesh.Api.Listings.Paging.{read_all-all_read}
use eventmesh.Api.Listings.Dead.{Replayable, list_dlq-Replayable}

abbrev letters : ℕ → List ℕ
letters zero = []
letters (suc n) = b'x' ∷ letters n

abbrev parsers : Parsers
parsers = record {
  fromisoformat = λ text. some (record { moment = length text; aware = false });
  uuid = λ text. some (length text);
  binds = λ d. not d.aware;
}

-- the same, where a text's time is in UTC
abbrev zoned_parsers : Parsers
zoned_parsers = record parsers {
  fromisoformat = λ text. some (record { moment = length text; aware = true });
}

length-letters : (n : ℕ) → length (letters n) ≡ n
length-letters zero = refl
length-letters (suc n) = rw (length-letters n) refl

letters-no_bar : (n : ℕ) → All (λ c. (c == b'|') ≡ false) (letters n)
letters-no_bar zero = tt
letters-no_bar (suc n) = (refl, letters-no_bar n)

parsers-Prints : Prints parsers false letters letters
parsers-Prints = record {
  time = λ t. rw (length-letters t) refl;
  id = λ i. rw (length-letters i) refl;
  no_bar = letters-no_bar;
  naive_only = λ d. refl;
}

abbrev client : AuthContext
client = record { tenant_id = 1; api_key_id = 2; plan = "free" }

abbrev busy : Tables
busy = record tables {
  events =
      record order_event { id = 7; created_at = 2 }
      ∷ record order_event { id = 8; created_at = 3 }
      ∷ record order_event { id = 9; created_at = 3 }
      ∷ record order_event { id = 10; tenant_id = 5; created_at = 4 }
      ∷ [];
}

read_all-all_read_example :
    read_all parsers letters letters client (pos 2) none busy 4 none
    ≡ ok (sort_in comes_first (select (is_listed client none) busy.events))
read_all-all_read_example =
    read_all-all_read parsers letters letters false client (pos 2) none busy 4 parsers-Prints
      (
        (omega arith, (omega arith, (omega arith, tt))),
        ((omega arith, (omega arith, tt)), ((omega arith, tt), (tt, tt))),
      )
      (omega arith)

zoned_fails :
    read_all zoned_parsers letters letters client (pos 2) none busy 4 none
    ≡ err ListingError.driver_error
unfolding read_all list_events page_after
zoned_fails = refl

-- The newest first, and by descending id at one moment.
newest_first :
    sort_in comes_first (select (is_listed client none) busy.events)
    ≡ record order_event { id = 9; created_at = 3 }
      ∷ record order_event { id = 8; created_at = 3 }
      ∷ record order_event { id = 7; created_at = 2 }
      ∷ []
newest_first = refl

abbrev dead_tables : Tables
dead_tables = record tables { deliveries = dead_delivery ∷ [] }

abbrev drawn : Fresh
drawn = record { event_id = 31; outbox_id = 32; key_id = 33; now = 9900 }

list_dlq-Replayable_example :
    (length (list_dlq client (negsuc 4) dead_tables) ≤ 200)
    × All (Replayable client drawn dead_tables) (list_dlq client (negsuc 4) dead_tables)
list_dlq-Replayable_example =
    list_dlq-Replayable client (negsuc 4) drawn dead_tables (tt, tt) (tt, tt)
