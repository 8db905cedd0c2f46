-- ===== src/Api/App/Examples.antt =====
-- A request with an id of its own that is not accepted.
use eventmesh.Base.{some, [], ◌∷◌, codes, arith}
use eventmesh.Api.App.{Ending, ExceptionDetail, request_id_of, request_id_middleware}
use eventmesh.Api.App.RequestId.{Outcome, request_id_middleware-Identified}

abbrev no_such_event : Ending
no_such_event =
    Ending.http_exception 404 (ExceptionDetail.coded (codes "NOT_FOUND") (codes "event not found"))

request_id_middleware-Identified_example :
    Outcome
      (some (233 ∷ []))
      no_such_event
      (request_id_middleware (some (233 ∷ [])) (codes "0f3a") no_such_event)
      (request_id_of (some (233 ∷ [])) (codes "0f3a"))
request_id_middleware-Identified_example =
    request_id_middleware-Identified (some (233 ∷ [])) (codes "0f3a") no_such_event
      (omega arith, (omega arith, (omega arith, (omega arith, tt))))
