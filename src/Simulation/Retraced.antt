-- ===== src/Simulation/Retraced.antt =====
-- A run of an agent (src/pelicanbench/autonomous.py) and the simulation (src/pelicanbench/simulation.py)
-- of the actions that it took.
use pelican_bench.Base.{
  ℕ, zero, suc, ◌≡◌, refl, Option, List, [], ◌∷◌, inl, inr, Option-cases, String,
}
use pelican_bench.Canvas.Elements.{CanvasError}
use pelican_bench.Canvas.Actions.{Elements, Action, Canvas}
use pelican_bench.Canvas.Envelope.{envelope_step}
use pelican_bench.Simulation.Replay.{SimulationStep, ReceiptPayload, find_fault, simulate}
use pelican_bench.Simulation.Agent.{Policy, AgentEvent, RunPayload, agent_loop}

abbrev pub actions_of : List AgentEvent → List Action
actions_of [] = []
actions_of (e ∷ events) = e.action ∷ actions_of events

-- an event and a step of a simulation that show the same
pub record IsShown (e : AgentEvent) (s : SimulationStep) : Type 0 where
  pub at : s.index ≡ e.step
  pub action : s.executed_action ≡ e.action
  pub reward : s.reward ≡ e.reward
  pub error : s.error ≡ e.error
  pub state : s.observation_hash ≡ e.state_hash

abbrev pub AllShown : List AgentEvent → List SimulationStep → Type 0
AllShown [] [] = Unit
AllShown (e ∷ events) (s ∷ steps) = IsShown e s × AllShown events steps
AllShown _ _ = ⊥

module _ (lower : String → String) (hash : Elements → String) (text : ℕ → String)
    (svg : Canvas → String) (svg_hash : String → String) (receipt : RunPayload → String)
    (picture : Canvas → String) (receipt_hash : ReceiptPayload → String) where
  -- The actions that an agent took, simulated without faults from the same canvas, give the same steps:
  -- the same actions, rewards, errors and hashes of the state, and the same canvas at the end.
  pub agent_loop-simulate :
      (policy : Policy) (left step : ℕ) (c : Canvas) (previous : Option CanvasError)
      → AllShown
          (agent_loop lower hash text svg svg_hash receipt policy left step c previous).events
          (simulate lower hash text picture receipt_hash [] step
            (actions_of
              (agent_loop lower hash text svg svg_hash receipt policy left step c previous).events)
            c).0
        × ((simulate lower hash text picture receipt_hash [] step
              (actions_of
                (agent_loop lower hash text svg svg_hash receipt policy left step c
                  previous).events)
              c).1
            ≡ (agent_loop lower hash text svg svg_hash receipt policy left step c previous).canvas)
  unfolding agent_loop simulate find_fault
  agent_loop-simulate policy zero step c previous = (tt, refl)
  agent_loop-simulate policy (suc left) step c previous =
      elim (Option-cases (policy c step previous)) [
        | inl done ↦ rw (done, agent_loop) (tt, refl)
        | inr (a, asked) ↦
            let o = envelope_step lower hash text a c in
            let (shown, same) = agent_loop-simulate policy left (suc step) o.canvas o.error in
            rw (asked, agent_loop)
              (
                (
                  record { at = refl; action = refl; reward = refl; error = refl; state = refl },
                  shown,
                ),
                same,
              )
      ]
