-- ===== src/Api/App.antt =====
-- apps/api/eventmesh_api/main.py: the request id and the error answers around every handler; and
-- routers/health.py. Texts are lists of code points.
pub mod RequestId
mod Examples
use eventmesh.Base.{
  ℕ, String, Bool, true, false, ◌&&◌, not, Option, none, some, List, [], ◌∷◌, ◌++◌, ltb, leb,
  length, take, all, codes, if◌then◌else◌, Result, ok, err,
}

-- `incoming and 1 <= len(incoming) <= 128 and incoming.isascii()`
abbrev pub is_acceptable : List ℕ → Bool
is_acceptable incoming =
    leb 1 (length incoming) && leb (length incoming) 128 && all (λ c. ltb c 128) incoming

-- The id of a request, by its header and by the hexadecimal text of a new UUID.
unfoldable pub request_id_of : Option (List ℕ) → List ℕ → List ℕ
request_id_of none drawn = codes "req_" ++ take 20 drawn
request_id_of (some incoming) drawn =
    if is_acceptable incoming then incoming else codes "req_" ++ take 20 drawn

-- `exc.detail`: the dictionary that the routers raise, or any other one or text, as `str` shows it.
pub data ExceptionDetail : Type 0 where
  coded : List ℕ → List ℕ → ExceptionDetail
  other : List ℕ → ExceptionDetail

-- An element of `exc.errors()`: the parts of its `loc`, and its `msg`.
pub record ValidationIssue : Type 0 where
  pub loc : List (List ℕ)
  pub msg : List ℕ

-- How the handling of a request ends; `unhandled` is an exception without a handler, such as one of
-- the database.
pub data Ending : Type 0 where
  answered : ℕ → Ending
  http_exception : ℕ → ExceptionDetail → Ending
  validation_error : List ValidationIssue → Ending
  unhandled : Ending

-- `ErrorDetail`
pub record ErrorDetail : Type 0 where
  pub code : List ℕ
  pub message : List ℕ
  pub request_id : List ℕ

-- What the model keeps of a response: its status, the error of its body, and `X-Request-ID`.
pub record ApiResponse : Type 0 where
  pub status_code : ℕ
  pub error : Option ErrorDetail
  pub request_id_header : Option (List ℕ)

-- `separator.join(parts)`
abbrev pub join : List ℕ → List (List ℕ) → List ℕ
join separator [] = []
join separator (p ∷ []) = p
join separator (p ∷ q ∷ ps) = p ++ separator ++ join separator (q ∷ ps)

-- `f"{'.'.join(…)}: {e['msg']}"`
abbrev pub issue_text : ValidationIssue → List ℕ
issue_text e = join (codes ".") e.loc ++ codes ": " ++ e.msg

abbrev pub issue_texts : List ValidationIssue → List (List ℕ)
issue_texts [] = []
issue_texts (e ∷ es) = issue_text e ∷ issue_texts es

abbrev pub with_error : ℕ → List ℕ → List ℕ → List ℕ → ApiResponse
with_error status_code code message request_id = record {
  status_code = status_code;
  error = some (record { code = code; message = message; request_id = request_id });
  request_id_header = none;
}

unfoldable pub http_exception_handler : List ℕ → ℕ → ExceptionDetail → ApiResponse
http_exception_handler request_id status_code (ExceptionDetail.coded code message) =
    with_error status_code code message request_id
http_exception_handler request_id status_code (ExceptionDetail.other shown) =
    with_error status_code (codes "ERROR") shown request_id

unfoldable pub validation_exception_handler : List ℕ → List ValidationIssue → ApiResponse
validation_exception_handler request_id issues =
    with_error 422 (codes "INVALID_REQUEST") (join (codes "; ") (issue_texts issues)) request_id

-- `call_next(request)`, with the handlers of exceptions; `none` is an exception that it raises.
abbrev pub call_next : List ℕ → Ending → Option ApiResponse
call_next request_id (Ending.answered status_code) =
    some (record { status_code = status_code; error = none; request_id_header = none })
call_next request_id (Ending.http_exception status_code detail) =
    some (http_exception_handler request_id status_code detail)
call_next request_id (Ending.validation_error issues) =
    some (validation_exception_handler request_id issues)
call_next request_id Ending.unhandled = none

-- `response.headers["X-Request-ID"] = request_id`, where there is a response
abbrev pub set_header : List ℕ → Option ApiResponse → Option ApiResponse
set_header request_id none = none
set_header request_id (some response) =
    some (record response { request_id_header = some request_id })

-- `none` is an exception that leaves the middleware: the server answers 500 without the header.
unfoldable pub request_id_middleware : Option (List ℕ) → List ℕ → Ending → Option ApiResponse
request_id_middleware incoming drawn ending =
    let request_id = request_id_of incoming drawn in
    set_header request_id (call_next request_id ending)

-- A value of `checks`: "ok", or "error: …"
pub data Check : Type 0 where
  fine : Check
  failed : List ℕ → Check

pub record Readiness : Type 0 where
  pub status_code : ℕ
  pub status : String
  pub postgres : Check
  pub redis : Check

abbrev pub check_of : Result (List ℕ) (Unit {0}) → Check
check_of (ok u) = Check.fine
check_of (err e) = Check.failed e

abbrev pub is_fine : Check → Bool
is_fine Check.fine = true
is_fine (Check.failed e) = false

-- `ready`, by what the two probes do: an error is the exception's text.
unfoldable pub ready : Result (List ℕ) (Unit {0}) → Result (List ℕ) (Unit {0}) → Readiness
ready postgres redis =
    let healthy = is_fine (check_of postgres) && is_fine (check_of redis) in
    record {
      status_code = if healthy then 200 else 503;
      status = if healthy then "ok" else "degraded";
      postgres = check_of postgres;
      redis = check_of redis;
    }
