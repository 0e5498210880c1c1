-- ===== src/Simulation/Replay.antt =====
-- `run_canvas_simulation` of src/pelicanbench/simulation.py.
use pelican_bench.Base.{
  ℕ, suc, ◌+◌, String, not, Option, none, some, List, [], ◌∷◌, if◌then◌else◌, eqb, is_none,
}
use pelican_bench.Base.Int.{ℤ, pos, ltb_ℤ, pos_part}
use pelican_bench.Base.Attempt.{Attempt, returns, ◌>>=◌, ◌>>◌, refuse_if}
use pelican_bench.Canvas.Elements.{CanvasError}
use pelican_bench.Canvas.Actions.{Elements, Action, Canvas}
use pelican_bench.Canvas.Envelope.{Observation, envelope_step, envelope_reset, canvas_hash}

pub data SimulationError : Type 0 where
  negative_seed max_elements_not_positive negative_fault_index : SimulationError
  duplicate_fault_index : ℕ → SimulationError

pub record SimulationStep : Type 0 where
  pub index : ℕ
  pub requested_action : Action
  pub executed_action : Action
  pub observation_hash : String
  pub reward : ℤ
  pub error : Option CanvasError

pub record FaultInjection : Type 0 where
  pub index : ℤ
  pub replacement : Action

-- the payload that the receipt's hash covers
pub record ReceiptPayload : Type 0 where
  pub schema_version : String
  pub seed : ℤ
  pub steps : List SimulationStep
  pub final_state_hash : String
  pub final_svg_hash : String
  pub error_count : ℕ

pub record SimulationReceipt : Type 0 where
  pub payload : ReceiptPayload
  pub open payload use *
  pub receipt_hash : String

-- `fault_map.get(index)`
unfoldable pub find_fault : ℕ → List (ℕ × Action) → Option Action
find_fault n [] = none
find_fault n (f ∷ faults) = if eqb f.0 n then some f.1 else find_fault n faults

-- the loop that fills `fault_map`; the order of the dict is not used
unfoldable pub fault_map :
    List FaultInjection → List (ℕ × Action) → Attempt SimulationError (List (ℕ × Action))
fault_map [] found = returns found
fault_map (f ∷ faults) found = do
  refuse_if (ltb_ℤ f.index (pos 0)) negative_fault_index
  let n = pos_part f.index
  refuse_if (not (is_none (find_fault n found))) (duplicate_fault_index n)
  fault_map faults ((n, f.replacement) ∷ found)

-- `fault_map.get(index, requested)`
abbrev pub executed_of : List (ℕ × Action) → ℕ → Action → Action
executed_of faults n requested = elim (find_fault n faults) [ none ↦ requested | some a ↦ a ]

-- `sum(step.error is not None for step in recorded)`
unfoldable pub count_errors : List SimulationStep → ℕ
count_errors [] = 0
count_errors (s ∷ steps) = (if is_none s.error then 0 else 1) + count_errors steps

-- `CanvasEnvironment(max_elements=max_elements)`
abbrev pub new_canvas : ℕ → Canvas
new_canvas limit = record {
  max_elements = limit;
  elements = [];
  history = [];
  checkpoints = [];
  events = [];
}

-- `lower` is `str.lower`, `hash` the digest of the ordered elements, `text` is `str`, `svg_hash` the digest
-- of the exported picture, and `receipt` that of the payload
module _ (lower : String → String) (hash : Elements → String) (text : ℕ → String)
    (svg_hash : Canvas → String) (receipt : ReceiptPayload → String) where
  abbrev pub step_of : ℕ → Action → Action → Observation → SimulationStep
  step_of n requested executed o = record {
    index = n;
    requested_action = requested;
    executed_action = executed;
    observation_hash = canvas_hash hash o.canvas;
    reward = o.reward;
    error = o.error;
  }

  -- the loop over the actions, from the index `n`
  unfoldable pub simulate :
      List (ℕ × Action) → ℕ → List Action → Canvas → List SimulationStep × Canvas
  simulate faults n [] c = ([], c)
  simulate faults n (requested ∷ actions) c =
      let executed = executed_of faults n requested in
      let o = envelope_step lower hash text executed c in
      let (steps, end) = simulate faults (suc n) actions o.canvas in
      (step_of n requested executed o ∷ steps, end)

  abbrev pub receipt_payload : ℤ → List SimulationStep → Canvas → ReceiptPayload
  receipt_payload seed steps c = record {
    schema_version = "1.0.0";
    seed = seed;
    steps = steps;
    final_state_hash = canvas_hash hash c;
    final_svg_hash = svg_hash c;
    error_count = count_errors steps;
  }

  unfoldable pub run_canvas_simulation :
      List Action → ℤ → ℤ → List FaultInjection → Attempt SimulationError SimulationReceipt
  run_canvas_simulation actions seed max_elements faults = do
    refuse_if (ltb_ℤ seed (pos 0)) negative_seed
    refuse_if (ltb_ℤ max_elements (pos 1)) max_elements_not_positive
    found ← fault_map faults []
    let c = (envelope_reset (new_canvas (pos_part max_elements))).canvas
    let (steps, end) = simulate found 0 actions c
    let p = receipt_payload seed steps end
    returns (record { payload = p; receipt_hash = receipt p })
