-- ===== src/Simulation/Agent.antt =====
-- `run_autonomous_agent` and `ScriptedPolicy` of src/pelicanbench/autonomous.py.
use pelican_bench.Base.{
  ℕ, zero, suc, ◌+◌, String, Bool, true, false, not, Option, none, some, List, [], ◌∷◌,
  if◌then◌else◌, ◌&&◌, is_none,
}
use pelican_bench.Base.Int.{ℤ, pos, ltb_ℤ, pos_part}
use pelican_bench.Base.Attempt.{Attempt, returns, ◌>>◌, refuse_if}
use pelican_bench.Canvas.Elements.{CanvasError}
use pelican_bench.Canvas.Actions.{Elements, Action, Canvas}
use pelican_bench.Canvas.Envelope.{Observation, envelope_step, envelope_reset, canvas_hash}
use pelican_bench.Simulation.Replay.{find_fault}

pub data AgentError : Type 0 where
  max_steps_not_positive : AgentError

-- `CanvasPolicy.next_action`: of the observation, the step and the previous error
abbrev pub Policy : Type 0
Policy = Canvas → ℕ → Option CanvasError → Option Action

pub record AgentEvent : Type 0 where
  pub step : ℕ
  pub action : Action
  pub reward : ℤ
  pub error : Option CanvasError
  pub state_hash : String

-- `termination_reason`
pub data Reason : Type 0 where
  step_budget_exhausted policy_complete : Reason

-- the payload that the run's hash covers
pub record RunPayload : Type 0 where
  pub terminated : Bool
  pub termination_reason : Reason
  pub events : List AgentEvent
  pub recovery_count : ℕ
  pub final_state_hash : String
  pub final_svg_hash : String

pub record AutonomousRun : Type 0 where
  pub payload : RunPayload
  pub open payload use *
  pub final_svg : String
  pub run_hash : String

-- `self.actions[step]` in the range of the list
unfoldable pub action_at : ℕ → List Action → Option Action
action_at n [] = none
action_at zero (a ∷ actions) = some a
action_at (suc n) (a ∷ actions) = action_at n actions

-- `ScriptedPolicy.next_action`
unfoldable pub scripted : List Action → List (ℕ × Action) → Policy
scripted actions recoveries observation step previous =
    if not (is_none previous) && not (is_none (find_fault step recoveries))
    then find_fault step recoveries
    else action_at step actions

-- what the loop leaves: whether the policy has ended it, the events, the recoveries, the canvas
pub record LoopEnd : Type 0 where
  pub terminated : Bool
  pub events : List AgentEvent
  pub recoveries : ℕ
  pub canvas : Canvas

-- `previous_error is not None and error is None`
abbrev pub is_recovery : Option CanvasError → Option CanvasError → Bool
is_recovery previous error = not (is_none previous) && is_none error

-- `lower`, `hash` and `text` are those of the canvas; `svg` is `to_svg`, `svg_hash` its digest, and
-- `run_hash` the digest of the payload
module _ (lower : String → String) (hash : Elements → String) (text : ℕ → String)
    (svg : Canvas → String) (svg_hash : String → String) (receipt : RunPayload → String) where
  abbrev pub event_of : ℕ → Action → Observation → AgentEvent
  event_of step action o = record {
    step = step;
    action = action;
    reward = o.reward;
    error = o.error;
    state_hash = canvas_hash hash o.canvas;
  }

  -- `for step in range(max_steps)`, with the steps that are left
  unfoldable pub agent_loop : Policy → ℕ → ℕ → Canvas → Option CanvasError → LoopEnd
  agent_loop policy zero step c previous = record {
    terminated = false;
    events = [];
    recoveries = 0;
    canvas = c;
  }
  agent_loop policy (suc left) step c previous = elim (policy c step previous) [
    | none ↦ record { terminated = true; events = []; recoveries = 0; canvas = c }
    | some action ↦
        let o = envelope_step lower hash text action c in
        let rest = agent_loop policy left (suc step) o.canvas o.error in
        record {
          terminated = rest.terminated;
          events = event_of step action o ∷ rest.events;
          recoveries = (if is_recovery previous o.error then 1 else 0) + rest.recoveries;
          canvas = rest.canvas;
        }
  ]

  abbrev pub reason_of : Bool → Reason
  reason_of true = policy_complete
  reason_of false = step_budget_exhausted

  abbrev pub run_payload : LoopEnd → RunPayload
  run_payload e = record {
    terminated = e.terminated;
    termination_reason = reason_of e.terminated;
    events = e.events;
    recovery_count = e.recoveries;
    final_state_hash = canvas_hash hash e.canvas;
    final_svg_hash = svg_hash (svg e.canvas);
  }

  unfoldable pub run_autonomous_agent : Policy → ℤ → Canvas → Attempt AgentError AutonomousRun
  run_autonomous_agent policy max_steps drawing = do
    refuse_if (ltb_ℤ max_steps (pos 1)) max_steps_not_positive
    let c = (envelope_reset drawing).canvas
    let p = run_payload (agent_loop policy (pos_part max_steps) 0 c none)
    returns (record {
      payload = p;
      final_svg = svg (agent_loop policy (pos_part max_steps) 0 c none).canvas;
      run_hash = receipt p;
    })
