-- ===== src/Demo/Outcomes.antt =====
-- What the worker makes of the demonstration receiver's answers.
use eventmesh.Base.{
  ℕ, String, ◌≡◌, refl, ◌⊎◌, inl, inr, false, Option, some, [], ◌∷◌, ◌++◌, str_eq, eq_iff,
  Bool-cases,
}
use eventmesh.Common.Classify.{Outcome, classify_response, classify_status}
use eventmesh.Demo.{DemoState, receive_event}

-- The outcome that the worker gives to a status.
abbrev pub outcome_of : ℕ → Outcome
outcome_of status = (classify_response (some status) false false).outcome

-- What a request may come to: its status and the state after it.
pub data Answer (signature : Option String) (body : String) (now : ℕ) (s : DemoState) (status : ℕ)
    (s' : DemoState) : Type 0 where
  delivered :
      outcome_of status ≡ Outcome.success
      → s'.received
        ≡ s.received ++ record { signature_header = signature; body = body; received_at = now } ∷ []
      → Answer signature body now s status s'
  to_retry :
      (s.mode ≡ "500") ⊎ (s.mode ≡ "429")
      → outcome_of status ≡ Outcome.retry
      → s' ≡ s
      → Answer signature body now s status s'
  given_up :
      (s.mode ≡ "400") ⊎ (s.mode ≡ "disconnect")
      → outcome_of status ≡ Outcome.permanent_failure
      → s' ≡ s
      → Answer signature body now s status s'

-- Whatever the mode: if the answer to a delivery comes in time, then either the receiver has recorded
-- the delivery, its signature and its body, and the worker takes it for delivered; or the receiver
-- has recorded nothing, and the worker retries it in the modes 500 and 429, and gives it up in the
-- modes 400 and disconnect.
pub receive_event-Answer :
    (signature : Option String) (body : String) (now : ℕ) (s : DemoState)
    → let (status, took, s') = receive_event signature body now s in
      Answer signature body now s status s'
unfolding receive_event classify_response classify_status
receive_event-Answer signature body now s = elim (Bool-cases (str_eq s.mode "disconnect")) [
  | inl m ↦ rw m (Answer.given_up (inr ((eq_iff s.mode "disconnect").0 m)) refl refl)
  | inr n1 ↦ elim (Bool-cases (str_eq s.mode "500")) [
    | inl m ↦ rw (n1, m) (Answer.to_retry (inl ((eq_iff s.mode "500").0 m)) refl refl)
    | inr n2 ↦ elim (Bool-cases (str_eq s.mode "429")) [
      | inl m ↦ rw (n1, n2, m) (Answer.to_retry (inr ((eq_iff s.mode "429").0 m)) refl refl)
      | inr n3 ↦ elim (Bool-cases (str_eq s.mode "400")) [
        | inl m ↦ rw (n1, n2, n3, m) (Answer.given_up (inl ((eq_iff s.mode "400").0 m)) refl refl)
        | inr n4 ↦ rw (n1, n2, n3, n4) (Answer.delivered refl refl)
      ]
    ]
  ]
]
