-- ===== src/Api/App/RequestId.antt =====
-- The id that a response carries.
use eventmesh.Base.{
  ℕ, ◌≡◌, ◌≢◌, ◌≤◌, ◌<◌, refl, true, ◌&&◌, inl, inr, Bool-cases, Option, none, some, List, [], ◌∷◌,
  ◌++◌, ltb, leb, leb→le, ltb→lt, length, length-append, length-take-le, take, all, All, codes,
  and_true_left, and_true_right, zero, suc, arith,
}
use eventmesh.Api.App.{
  is_acceptable, request_id_of, Ending, ExceptionDetail, ErrorDetail, ApiResponse,
  http_exception_handler, validation_exception_handler, request_id_middleware,
}

-- From 1 to 128 characters, all of them ASCII.
pub record IsRequestId (id : List ℕ) : Type 0 where
  pub not_empty : 1 ≤ length id
  pub short : length id ≤ 128
  pub ascii : All (λ c. c < 128) id

-- The error of a response, if it has one, names the id.
abbrev pub Mentions : List ℕ → Option ErrorDetail → Type 0
Mentions id none = Unit
Mentions id (some e) = e.request_id ≡ id

all-ascii : (cs : List ℕ) → all (λ c. ltb c 128) cs ≡ true → All (λ c. c < 128) cs
all-ascii [] h = tt
all-ascii (c ∷ cs) h =
    (ltb→lt c 128 (and_true_left _ _ h), all-ascii cs (and_true_right (ltb c 128) _ h))

take-ascii : (n : ℕ) (cs : List ℕ) → All (λ c. c < 128) cs → All (λ c. c < 128) (take n cs)
take-ascii zero cs h = tt
take-ascii (suc n) [] h = tt
take-ascii (suc n) (c ∷ cs) h = (h.0, take-ascii n cs h.1)

drawn-IsRequestId :
    (drawn : List ℕ) → All (λ c. c < 128) drawn → IsRequestId (codes "req_" ++ take 20 drawn)
drawn-IsRequestId drawn h = record {
  not_empty = omega (arith, length-append (codes "req_") (take 20 drawn));
  short = omega (arith, length-append (codes "req_") (take 20 drawn), length-take-le 20 drawn);
  ascii = (omega arith, (omega arith, (omega arith, (omega arith, take-ascii 20 drawn h))));
}

request_id_of-IsRequestId :
    (incoming : Option (List ℕ)) (drawn : List ℕ)
    → All (λ c. c < 128) drawn
    → IsRequestId (request_id_of incoming drawn)
unfolding request_id_of
request_id_of-IsRequestId none drawn h = drawn-IsRequestId drawn h
request_id_of-IsRequestId (some id) drawn h = elim (Bool-cases (is_acceptable id)) [
  | inl e ↦
      let sized = and_true_left (leb 1 (length id) && leb (length id) 128) _ e in
      rw e (record {
        not_empty = leb→le 1 (length id) (and_true_left _ _ sized);
        short = leb→le (length id) 128 (and_true_right (leb 1 (length id)) _ sized);
        ascii = all-ascii id (and_true_right (leb 1 (length id) && leb (length id) 128) _ e);
      })
  | inr e ↦ rw e (drawn-IsRequestId drawn h)
]

-- What holds of the response to a request with this header.
pub record Identified (incoming : Option (List ℕ)) (response : ApiResponse) (id : List ℕ)
    : Type 0 where
  pub header : response.request_id_header ≡ some id
  pub bounded : IsRequestId id
  pub in_error : Mentions id response.error
  pub given : (theirs : List ℕ) → incoming ≡ some theirs → is_acceptable theirs ≡ true → id ≡ theirs

-- The response carries its id; or there is none, since an exception without a handler was raised.
abbrev pub Outcome : Option (List ℕ) → Ending → Option ApiResponse → List ℕ → Type 0
Outcome incoming ending none id = ending ≡ Ending.unhandled
Outcome incoming ending (some response) id =
    (ending ≢ Ending.unhandled) × Identified incoming response id

-- If a new UUID's text is ASCII: a request gets no response from the middleware exactly if its handling
-- raises an exception that has no handler. Otherwise the response carries an id of 1 to 128 ASCII
-- characters, which its error, if it has one, names too. It is the client's own id wherever that is
-- acceptable.
pub request_id_middleware-Identified :
    (incoming : Option (List ℕ)) (drawn : List ℕ) (ending : Ending)
    → All (λ c. c < 128) drawn
    → Outcome incoming ending
        (request_id_middleware incoming drawn ending)
        (request_id_of incoming drawn)
unfolding request_id_middleware request_id_of http_exception_handler validation_exception_handler
request_id_middleware-Identified incoming drawn ending h = by_ending ending
  where
    identified :
        (response : ApiResponse)
        → Mentions (request_id_of incoming drawn) response.error
        → response.request_id_header ≡ some (request_id_of incoming drawn)
        → Identified incoming response (request_id_of incoming drawn)
    identified response mentions header = record {
      header = header;
      bounded = request_id_of-IsRequestId incoming drawn h;
      in_error = mentions;
      given = λ theirs e t. rw (e, t) refl;
    }

    by_ending :
        (ending : Ending)
        → Outcome incoming ending
            (request_id_middleware incoming drawn ending)
            (request_id_of incoming drawn)
    by_ending (Ending.answered status) = (λ e. cc e, identified _ tt refl)
    by_ending (Ending.http_exception status (ExceptionDetail.coded code message)) =
        (λ e. cc e, identified _ refl refl)
    by_ending (Ending.http_exception status (ExceptionDetail.other shown)) =
        (λ e. cc e, identified _ refl refl)
    by_ending (Ending.validation_error issues) = (λ e. cc e, identified _ refl refl)
    by_ending Ending.unhandled = refl
