-- ===== src/Common/Classify/Examples.antt =====
-- The classification of a conflict.
use eventmesh.Base.{◌≡◌, ◌≢◌, ◌≤◌, ◌<◌, ◌↔◌, false, some}
use eventmesh.Common.Classify.{Outcome, classify_response}
use eventmesh.Common.Classify.Table.{Answered, classify_response_iff}

classify_response_iff_example :
    let o = (classify_response (some 409) false false).outcome in
    ((o ≡ Outcome.success)
      ↔ ((false ≡ false) × (false ≡ false) × Answered (λ s. (200 ≤ s) × (s < 300)) (some 409)))
    × ((o ≡ Outcome.permanent_failure) ↔ (
        (false ≡ false)
        × (false ≡ false)
        × Answered
            (λ s. (300 ≤ s) × (s < 500) × (s ≢ 408) × (s ≢ 409) × (s ≢ 425) × (s ≢ 429))
            (some 409)))
classify_response_iff_example = classify_response_iff (some 409) false false
