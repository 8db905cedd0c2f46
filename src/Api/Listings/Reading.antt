-- ===== src/Api/Listings/Reading.antt =====
-- The pages that a client reads one after the other.
use mathlib.Core.Path.{◌≡◌, refl, sym, ap, ◌∙◌, subst}
use eventmesh.Base.{
  ℕ, zero, suc, ◌<◌, String, Bool, true, false, inl, inr, Bool-cases, Option, none, some, List, [],
  ◌∷◌, ◌++◌, ◌==◌, ==_iff, length, take, drop, take-drop, length-drop-le, take_nil, select, All,
  Keyed, Keyed-select, Sorted, sort_in, sort_in-Sorted, sort_in-select, select-select, select-and,
  select-All, Sorted-select, cut, Result, ok, err, arith, not, if_true, if_false,
}
use eventmesh.Base.Int.{ℤ}
use eventmesh.Database.{Event, Tables}
use eventmesh.Api.Auth.{AuthContext}
use eventmesh.Api.Listings.{
  Parsers, Datetime, ListingError, Place, cursor_in, read_cursor, bind_cursor, is_after, is_listed,
  comes_first, clamp, page_after, list_events,
}
use eventmesh.Api.Listings.Order.{
  comes_first_trans, comes_first_total, at_event, after_trans, clamp_positive, last_of, All-last_of,
  All-take, Keyed-sort_in, select-after_page,
}

-- The texts that a client puts into a cursor are read back: a time's has no bar in it, and says its
-- zone if the times of the events have one. The driver takes a time for a column without a time zone
-- only if it has none.
pub record Prints (parsers : Parsers) (zoned : Bool) (isoformat id_text : ℕ → List ℕ) : Type 0 where
  pub time :
      (t : ℕ) → parsers.fromisoformat (isoformat t) ≡ some (record { moment = t; aware = zoned })
  pub id : (i : ℕ) → parsers.uuid (id_text i) ≡ some i
  pub no_bar : (t : ℕ) → All (λ c. (c == b'|') ≡ false) (isoformat t)
  pub naive_only : (d : Datetime) → parsers.binds d ≡ not d.aware

-- `f"{created_at}|{id}"`, of the last event of a page
abbrev pub cursor_of : (ℕ → List ℕ) → (ℕ → List ℕ) → Event → List ℕ
cursor_of isoformat id_text e = isoformat e.created_at ++ b'|' ∷ id_text e.id

abbrev pub next_cursor :
    (ℕ → List ℕ) → (ℕ → List ℕ) → Result ListingError (List Event) → Option (List ℕ)
next_cursor isoformat id_text (err e) = none
next_cursor isoformat id_text (ok []) = none
next_cursor isoformat id_text (ok (e ∷ es)) = some (cursor_of isoformat id_text (last_of e es))

abbrev pub and_rest :
    Result ListingError (List Event)
    → Result ListingError (List Event)
    → Result ListingError (List Event)
and_rest (err e) rest = err e
and_rest (ok []) rest = ok []
and_rest (ok (e ∷ es)) (err x) = err x
and_rest (ok (e ∷ es)) (ok rest) = ok (e ∷ es ++ rest)

-- The client asks for pages until one is empty, `fuel` pages at most.
unfoldable pub read_all :
    Parsers
    → (ℕ → List ℕ)
    → (ℕ → List ℕ)
    → AuthContext
    → ℤ
    → Option String
    → Tables
    → ℕ
    → Option (List ℕ)
    → Result ListingError (List Event)
read_all parsers isoformat id_text ctx limit event_type db zero cursor = ok []
read_all parsers isoformat id_text ctx limit event_type db (suc fuel) cursor =
    let page = list_events parsers ctx limit cursor event_type db in
    and_rest page (
      read_all parsers isoformat id_text ctx limit event_type db fuel
        (next_cursor isoformat id_text page))

cut_at :
    (c : ℕ) (xs ys : List ℕ) → All (λ x. (x == c) ≡ false) xs → cut c (xs ++ c ∷ ys) ≡ some (xs, ys)
cut_at c [] ys h = rw ((==_iff c c).1 refl) refl
cut_at c (x ∷ xs) ys h = rw (h.0, cut_at c xs ys h.1) refl

read_cursor_full :
    (parsers : Parsers) (xs ys : List ℕ)
    → read_cursor parsers (some (xs ++ b'|' ∷ ys)) ≡ cursor_in parsers (cut b'|' (xs ++ b'|' ∷ ys))
read_cursor_full parsers [] ys = refl
read_cursor_full parsers (x ∷ xs) ys = refl

All-selected : (p : Event → Bool) (xs : List Event) → All (λ x. p x ≡ true) (select p xs)
All-selected p [] = tt
All-selected p (x ∷ xs) = elim (Bool-cases (p x)) [
  | inl e ↦ rw e (e, All-selected p xs)
  | inr e ↦ rw e (All-selected p xs)
]

pub All-is_after : (xs : List Event) → All (λ e. is_after none e ≡ true) xs
All-is_after [] = tt
All-is_after (x ∷ xs) = (refl, All-is_after xs)

module _ (parsers : Parsers) (isoformat id_text : ℕ → List ℕ) (zoned : Bool)
    (prints : Prints parsers zoned isoformat id_text) (ctx : AuthContext) (limit : ℤ)
    (event_type : Option String) (db : Tables) where
  -- All that the client is to see, in its order.
  abbrev listed : List Event
  listed = sort_in comes_first (select (is_listed ctx event_type) db.events)

  abbrev rest_after : Option Place → List Event
  rest_after place = select (is_after place) listed

  pub page_after-rest :
      (place : Option Place)
      → page_after ctx (clamp limit) event_type place db ≡ take (clamp limit) (rest_after place)
  unfolding page_after
  page_after-rest place =
      ap (λ xs. take (clamp limit) (sort_in comes_first xs))
        (select-and (is_listed ctx event_type) (is_after place) db.events)
      ∙ ap (take (clamp limit)) (
          sort_in-select comes_first comes_first_trans comes_first_total (is_after place)
            (select (is_listed ctx event_type) db.events))

  read_back :
      (e : Event)
      → read_cursor parsers (some (cursor_of isoformat id_text e))
        ≡ ok (
            some (record {
              cursor_ts = record { moment = e.created_at; aware = zoned };
              cursor_id = e.id;
            }))
  read_back e =
      read_cursor_full parsers (isoformat e.created_at) (id_text e.id)
      ∙ rw
          (
            cut_at b'|' (isoformat e.created_at) (id_text e.id) (prints.no_bar e.created_at),
            prints.time e.created_at,
            prints.id e.id,
          )
          refl

  -- The place of a cursor reaches the database if its time has no zone.
  bound_naive :
      (e : Event)
      → zoned ≡ false
      → bind_cursor parsers (read_cursor parsers (some (cursor_of isoformat id_text e)))
        ≡ ok (at_event e)
  bound_naive e naive = rw (read_back e) (
      if_true _ _
        (prints.naive_only (record { moment = e.created_at; aware = zoned }) ∙ ap not naive))

  bound_aware :
      (e : Event)
      → zoned ≡ true
      → bind_cursor parsers (read_cursor parsers (some (cursor_of isoformat id_text e)))
        ≡ err ListingError.driver_error
  bound_aware e aware = rw (read_back e) (
      if_false _ _
        (prints.naive_only (record { moment = e.created_at; aware = zoned }) ∙ ap not aware))

  -- The page after the first one, if that is not empty, is an exception of the driver.
  pub read_all_aware :
      (fuel : ℕ) (x : Event) (xs : List Event)
      → zoned ≡ true
      → listed ≡ x ∷ xs
      → read_all parsers isoformat id_text ctx limit event_type db (suc (suc fuel)) none
        ≡ err ListingError.driver_error
  unfolding read_all list_events
  read_all_aware fuel x xs aware q =
      let (n, c) = clamp_positive limit in
      let page : page_after ctx (clamp limit) event_type none db ≡ x ∷ take n xs =
        page_after-rest none
        ∙ ap (take (clamp limit)) (select-All (is_after none) listed (All-is_after listed) ∙ q)
        ∙ ap (λ k. take k (x ∷ xs)) c in
      rw (page, bound_aware (last_of x (take n xs)) aware) refl

  module _ (naive : zoned ≡ false) (distinct : Keyed (λ (e : Event). e.id) db.events) where
    next_rest :
        (place : Option Place) (n : ℕ) (x : Event) (xs : List Event)
        → rest_after place ≡ x ∷ xs
        → rest_after (at_event (last_of x (take n xs))) ≡ drop n xs
    next_rest place n x xs q =
        let p : All (λ e. is_after place e ≡ true) (x ∷ xs) =
          subst (All (λ e. is_after place e ≡ true)) q (All-selected (is_after place) listed) in
        let c = last_of x (take n xs) in
        let last : is_after place c ≡ true =
          All-last_of (λ e. is_after place e ≡ true) x (take n xs) p.0
            (All-take (λ e. is_after place e ≡ true) n xs p.1) in
        sym (
          select-select (is_after place) (is_after (at_event c)) listed
            (λ e h. after_trans place c e last h))
        ∙ ap (select (is_after (at_event c))) q
        ∙ select-after_page n x xs
            (subst (Sorted comes_first) q (
              Sorted-select comes_first (is_after place) listed (
                sort_in-Sorted comes_first comes_first_trans comes_first_total
                  (select (is_listed ctx event_type) db.events))))
            (subst (Keyed (λ (e : Event). e.id)) q (
              Keyed-select (λ (e : Event). e.id) (is_after place) listed
                (Keyed-sort_in _ (
                  Keyed-select (λ (e : Event). e.id) (is_listed ctx event_type) db.events
                    distinct))))

    pub read_from :
        (fuel : ℕ) (place : Option Place) (cursor : Option (List ℕ)) (rest : List Event)
        → bind_cursor parsers (read_cursor parsers cursor) ≡ ok place
        → rest_after place ≡ rest
        → length rest < fuel
        → read_all parsers isoformat id_text ctx limit event_type db fuel cursor ≡ ok rest
    unfolding read_all list_events
    read_from zero place cursor rest r q h = elim h [ ]
    read_from (suc fuel) place cursor [] r q h =
        let page : page_after ctx (clamp limit) event_type place db ≡ [] =
          page_after-rest place ∙ ap (take (clamp limit)) q ∙ take_nil (clamp limit) in
        rw (r, page) refl
    read_from (suc fuel) place cursor (x ∷ xs) r q h =
        let (n, c) = clamp_positive limit in
        let page : page_after ctx (clamp limit) event_type place db ≡ x ∷ take n xs =
          page_after-rest place ∙ ap (take (clamp limit)) q ∙ ap (λ k. take k (x ∷ xs)) c in
        let last = last_of x (take n xs) in
        let rest =
          read_from fuel (at_event last) (some (cursor_of isoformat id_text last)) (drop n xs)
            (bound_naive last naive) (next_rest place n x xs q)
            (omega (arith, length-drop-le n xs)) in
        rw (r, page, rest) (ap (λ ys. ok (x ∷ ys)) (take-drop n xs))
