-- ===== src/Demo.antt =====
-- apps/demo-webhook/demo_webhook/main.py: the receiver that the demonstrations deliver to. A handler is
-- a function of its state; the mode does not change while a request sleeps. Durations are in
-- microseconds.
pub mod Outcomes
use eventmesh.Base.{
  ℕ, zero, ◌+◌, ◌-◌, String, Bool, true, false, Option, none, some, List, [], ◌∷◌, ◌++◌, str_eq,
  ltb, length, drop, if◌then◌else◌,
}
use eventmesh.Base.Int.{ℤ, pos, negsuc, pos_part}

-- An element of `_STATE["received"]`
pub record Receipt : Type 0 where
  pub signature_header : Option String
  pub body : String
  pub received_at : ℕ

-- `_STATE`
pub record DemoState : Type 0 where
  pub mode : String
  pub delay : ℤ
  pub received : List Receipt

abbrev pub initial_demo : DemoState
initial_demo = record { mode = "success"; delay = pos 0; received = [] }

-- `body.get(key, default)`
abbrev pub get_or {ℓ} : {A : Type ℓ} → A → Option A → A
get_or default none = default
get_or default (some value) = value

-- `set_mode`: the answer, and the state after it
unfoldable pub set_mode : Option String → Option ℤ → DemoState → (String × ℤ) × DemoState
set_mode mode delay s =
    let s' = record s { mode = get_or "success" mode; delay = get_or (pos 0) delay } in
    ((s'.mode, s'.delay), s')

-- `get_mode`
unfoldable pub get_mode : DemoState → String × ℤ × ℕ
get_mode s = (s.mode, s.delay, length s.received)

-- `_STATE["received"][-50:]`
unfoldable pub received_list : DemoState → List Receipt
received_list s = drop (length s.received - 50) s.received

-- `if _STATE["delay_seconds"] > 0: await asyncio.sleep(…)`, and the hour of the mode `timeout`
abbrev pub slept : DemoState → ℕ
slept s = pos_part s.delay + (if str_eq s.mode "timeout" then 3_600_000_000 else 0)

-- `receive_event`: the status of the answer, the time it took, and the state after it. The mode
-- `timeout` goes on with the other tests after its sleep.
unfoldable pub receive_event : Option String → String → ℕ → DemoState → ℕ × ℕ × DemoState
receive_event signature body now s =
    if str_eq s.mode "disconnect"
    then (499, pos_part s.delay, s)
    else if str_eq s.mode "500"
    then (500, slept s, s)
    else if str_eq s.mode "429"
    then (429, slept s, s)
    else if str_eq s.mode "400"
    then (400, slept s, s)
    else (
      200,
      slept s,
      record s {
        received =
            s.received
            ++ record { signature_header = signature; body = body; received_at = now } ∷ [];
      },
    )
