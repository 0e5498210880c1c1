-- ===== src/Tests/Simulations.antt =====
-- The theorems on the loops over the canvas, at a short script.
use pelican_bench.Base.{String, ◌≡◌, refl, some, none, List, [], ◌∷◌, ltb}
use pelican_bench.Base.Int.{pos}
use pelican_bench.Base.Lists.{length, take}
use pelican_bench.Base.Attempt.{Attempt, returns, raises}
use pelican_bench.Canvas.Actions.{Action, add, delete, undo, group, Canvas}
use pelican_bench.Canvas.Bounds.{IsBounded}
use pelican_bench.Simulation.Replay.{
  SimulationError, FaultInjection, SimulationReceipt, find_fault, fault_map, count_errors, simulate,
  run_canvas_simulation, new_canvas,
}
use pelican_bench.Simulation.Agent.{
  RunPayload, AutonomousRun, scripted, agent_loop, run_autonomous_agent,
}
use pelican_bench.Simulation.Faults.{IsFaithful, run_canvas_simulation-IsFaithful}
use pelican_bench.Simulation.Runs.{IsRun, run_autonomous_agent-returns, agent_loop-IsBounded}
use pelican_bench.Simulation.Retraced.{AllShown, actions_of, agent_loop-simulate}
use pelican_bench.Simulation.Scripts.{agent_loop-scripted}
use pelican_bench.Tests.Samples.{unary}
use pelican_bench.Tests.Canvases.{
  lower, ids_of, canvas_run, circle, one_circle, one_circle-IsBounded,
}

-- the second action has no element to delete
abbrev script : List Action
script = add "wheel" circle ∷ delete "seat" ∷ undo ∷ []

abbrev picture : Canvas → String
picture c = ids_of c.elements

abbrev same_text : String → String
same_text s = s

-- the second action is replaced
abbrev faults : List FaultInjection
faults = record { index = pos 1; replacement = group ("wheel" ∷ []) (some "bike") } ∷ []

abbrev simulated : Attempt SimulationError SimulationReceipt
simulated =
    run_canvas_simulation lower ids_of unary picture (λ p. p.final_svg_hash) script (pos 7) (pos 2)
      faults

abbrev no_receipt : SimulationReceipt
no_receipt = record {
  payload = record {
    schema_version = "";
    seed = pos 0;
    steps = [];
    final_state_hash = "";
    final_svg_hash = "";
    error_count = 0;
  };
  receipt_hash = "";
}

abbrev receipt_of : Attempt SimulationError SimulationReceipt → SimulationReceipt
receipt_of (returns r) = r
receipt_of (raises _) = no_receipt

simulated_ok : simulated ≡ returns (receipt_of simulated)
unfolding canvas_run find_fault fault_map count_errors simulate run_canvas_simulation
simulated_ok = refl

run_canvas_simulation-IsFaithful_example :
    IsFaithful lower ids_of unary (pos 2) faults script (receipt_of simulated)
run_canvas_simulation-IsFaithful_example =
    run_canvas_simulation-IsFaithful lower ids_of unary picture (λ p. p.final_svg_hash) script
      (pos 7) (pos 2) faults (receipt_of simulated) simulated_ok

run_autonomous_agent-returns_example :
    (run : AutonomousRun) × (run_autonomous_agent lower ids_of unary picture same_text
        (λ (p : RunPayload). p.final_svg_hash)
        (scripted script [])
        (pos 64)
        one_circle
      ≡ returns run)
    × IsRun 64 run
run_autonomous_agent-returns_example =
    run_autonomous_agent-returns lower ids_of unary picture same_text
      (λ (p : RunPayload). p.final_svg_hash) (scripted script []) 63 one_circle

agent_loop-IsBounded_example :
    IsBounded
      (agent_loop lower ids_of unary picture same_text
        (λ (p : RunPayload). p.final_svg_hash)
        (scripted script [])
        64
        0
        one_circle
        none).canvas
agent_loop-IsBounded_example =
    agent_loop-IsBounded lower ids_of unary picture same_text (λ (p : RunPayload). p.final_svg_hash)
      (scripted script []) 64 0 one_circle none one_circle-IsBounded

abbrev played : List Action
played =
    actions_of
      (agent_loop lower ids_of unary picture same_text (λ (p : RunPayload). p.final_svg_hash)
        (scripted script []) 64 0 (new_canvas 2) none).events

agent_loop-simulate_example :
    AllShown
      (agent_loop lower ids_of unary picture same_text
        (λ (p : RunPayload). p.final_svg_hash)
        (scripted script [])
        64
        0
        (new_canvas 2)
        none).events
      (simulate lower ids_of unary picture (λ p. p.final_svg_hash) [] 0 played (new_canvas 2)).0
    × ((simulate lower ids_of unary picture (λ p. p.final_svg_hash) [] 0 played (new_canvas 2)).1
        ≡ (agent_loop lower ids_of unary picture same_text
            (λ (p : RunPayload). p.final_svg_hash)
            (scripted script [])
            64
            0
            (new_canvas 2)
            none).canvas)
agent_loop-simulate_example =
    agent_loop-simulate lower ids_of unary picture same_text (λ (p : RunPayload). p.final_svg_hash)
      picture (λ p. p.final_svg_hash) (scripted script []) 64 0 (new_canvas 2) none

agent_loop-scripted_example :
    (played ≡ take 64 script)
    × ((agent_loop lower ids_of unary picture same_text
          (λ (p : RunPayload). p.final_svg_hash)
          (scripted script [])
          64
          0
          (new_canvas 2)
          none).terminated
        ≡ ltb (length script) 64)
agent_loop-scripted_example =
    agent_loop-scripted lower ids_of unary picture same_text (λ (p : RunPayload). p.final_svg_hash)
      script 64 (new_canvas 2)
