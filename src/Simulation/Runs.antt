-- ===== src/Simulation/Runs.antt =====
-- What `run_autonomous_agent` (src/pelicanbench/autonomous.py) does with a policy.
use pelican_bench.Base.{
  ℕ, zero, suc, ◌+◌, ◌≤◌, ◌<◌, ◌≡◌, refl, sym, ap, subst, Bool, true, false, Option, none, some,
  List, [], ◌∷◌, arith, is_none, inl, inr, Option-cases, String, if◌then◌else◌,
}
use pelican_bench.Base.Int.{pos, ltb_ℤ}
use pelican_bench.Base.Lists.{length}
use pelican_bench.Base.Attempt.{returns}
use pelican_bench.Canvas.Elements.{CanvasError}
use pelican_bench.Canvas.Actions.{
  Elements, Canvas, Outcome, returned, raised, canvas_after, step as canvas_step,
}
use pelican_bench.Canvas.Bounds.{IsBounded, step-IsBounded}
use pelican_bench.Canvas.Envelope.{envelope, envelope_step, envelope_reset}
use pelican_bench.Simulation.Agent.{
  Policy, AgentEvent, RunPayload, AutonomousRun, is_recovery, agent_loop, run_payload,
  run_autonomous_agent,
}

-- How a loop of at most `limit` steps has ended: with all steps used, or where the policy gave none.
pub record IsWithin (limit : ℕ) (terminated : Bool) (events : List AgentEvent) : Type 0 where
  pub within : length events ≤ limit
  pub exhausted : terminated ≡ false → length events ≡ limit
  pub complete : terminated ≡ true → length events < limit

-- An event without an error right after one with an error.
abbrev pub recovers : Option CanvasError → Option CanvasError → ℕ
recovers none error = 0
recovers (some before) none = 1
recovers (some before) (some after) = 0

recovers-is_recovery :
    (previous error : Option CanvasError)
    → (if is_recovery previous error then 1 else 0) ≡ recovers previous error
recovers-is_recovery none none = refl
recovers-is_recovery none (some x) = refl
recovers-is_recovery (some x) none = refl
recovers-is_recovery (some x) (some y) = refl

-- the recoveries that a list of events shows, after an event with the error `previous`
abbrev pub recoveries_of : Option CanvasError → List AgentEvent → ℕ
recoveries_of previous [] = 0
recoveries_of previous (e ∷ events) = recovers previous e.error + recoveries_of e.error events

abbrev pub errors_of : List AgentEvent → ℕ
errors_of [] = 0
errors_of (e ∷ events) = (if is_none e.error then 0 else 1) + errors_of events

-- A recovery needs an error before it.
pub recoveries_few :
    (previous : Option CanvasError) (events : List AgentEvent)
    → recoveries_of previous events ≤ (if is_none previous then 0 else 1) + errors_of events
recoveries_few previous [] = ground arith
recoveries_few previous (e ∷ events) = few previous e.error _ _ (recoveries_few e.error events)
  where
    few :
        (p x : Option CanvasError) (k l : ℕ)
        → k ≤ (if is_none x then 0 else 1) + l
        → recovers p x + k ≤ (if is_none p then 0 else 1) + ((if is_none x then 0 else 1) + l)
    few none x k l h = omega (arith, h)
    few (some p) none k l h = omega (arith, h)
    few (some p) (some x) k l h = omega (arith, h)

envelope-canvas : (o : Outcome) → (envelope o).canvas ≡ canvas_after o
envelope-canvas (returned c) = refl
envelope-canvas (raised x c) = refl

-- A run within its limit, that counts its recoveries.
pub record IsRun (limit : ℕ) (run : AutonomousRun) : Type 0 where
  pub ended : IsWithin limit run.terminated run.events
  pub recoveries : run.recovery_count ≡ recoveries_of none run.events
  pub few : run.recovery_count ≤ errors_of run.events

positive : (n : ℕ) → ltb_ℤ (pos (suc n)) (pos 1) ≡ false
positive n = ground arith

module _ (lower : String → String) (hash : Elements → String) (text : ℕ → String)
    (svg : Canvas → String) (svg_hash : String → String) (receipt : RunPayload → String)
    (policy : Policy) where
  agent_loop-IsWithin :
      (left step : ℕ) (c : Canvas) (previous : Option CanvasError)
      → IsWithin left
          (agent_loop lower hash text svg svg_hash receipt policy left step c previous).terminated
          (agent_loop lower hash text svg svg_hash receipt policy left step c previous).events
  unfolding agent_loop
  agent_loop-IsWithin zero step c previous = record {
    within = omega arith;
    exhausted = λ e. refl;
    complete = λ e. cc;
  }
  agent_loop-IsWithin (suc left) step c previous = elim (Option-cases (policy c step previous)) [
    | inl done ↦
        rw (done, agent_loop)
          (record { within = omega arith; exhausted = λ e. cc; complete = λ e. omega arith })
    | inr (a, asked) ↦
        let o = envelope_step lower hash text a c in
        let h = agent_loop-IsWithin left (suc step) o.canvas o.error in
        rw (asked, agent_loop)
          (record {
            within = omega (arith, h.within);
            exhausted = λ e. ap (λ (n : ℕ). suc n) (h.exhausted e);
            complete = λ e. omega (arith, h.complete e);
          })
  ]

  agent_loop-recoveries :
      (left step : ℕ) (c : Canvas) (previous : Option CanvasError)
      → (agent_loop lower hash text svg svg_hash receipt policy left step c previous).recoveries
        ≡ recoveries_of previous
            (agent_loop lower hash text svg svg_hash receipt policy left step c previous).events
  unfolding agent_loop
  agent_loop-recoveries zero step c previous = refl
  agent_loop-recoveries (suc left) step c previous = elim (Option-cases (policy c step previous)) [
    | inl done ↦ rw (done, agent_loop) refl
    | inr (a, asked) ↦
        let o = envelope_step lower hash text a c in
        rw (asked, agent_loop)
          (rw (recovers-is_recovery previous o.error) (
            ap (λ (n : ℕ). recovers previous o.error + n)
              (agent_loop-recoveries left (suc step) o.canvas o.error)))
  ]

  -- On a canvas within its limit, whose history and checkpoints are within it too, an agent's loop leaves
  -- such a canvas, whatever the policy asks for.
  pub agent_loop-IsBounded :
      (left step : ℕ) (c : Canvas) (previous : Option CanvasError)
      → IsBounded c
      → IsBounded
          (agent_loop lower hash text svg svg_hash receipt policy left step c previous).canvas
  unfolding agent_loop
  agent_loop-IsBounded zero step c previous h = h
  agent_loop-IsBounded (suc left) step c previous h = elim (Option-cases (policy c step previous)) [
    | inl done ↦ rw (done, agent_loop) h
    | inr (a, asked) ↦
        let o = envelope_step lower hash text a c in
        rw (asked, agent_loop)
          (agent_loop-IsBounded left (suc step) o.canvas o.error (
            subst IsBounded (sym (envelope-canvas (canvas_step lower hash text a c)))
              (step-IsBounded lower hash text a c h)))
  ]

  -- Every policy's run with at least one step allowed returns: it has at most as many events as steps
  -- are allowed, just as many where it says that the budget is exhausted, and fewer where it says that
  -- the policy is complete. Its recoveries are the events without an error right after one with an
  -- error, and are no more than the events with an error.
  pub run_autonomous_agent-returns :
      (n : ℕ) (drawing : Canvas)
      → (run : AutonomousRun) × (run_autonomous_agent lower hash text svg svg_hash receipt policy
            (pos (suc n))
            drawing
          ≡ returns run)
        × IsRun (suc n) run
  unfolding run_autonomous_agent
  run_autonomous_agent-returns n drawing =
      let c = (envelope_reset drawing).canvas in
      let e = agent_loop lower hash text svg svg_hash receipt policy (suc n) 0 c none in
      let same = agent_loop-recoveries (suc n) 0 c none in
      (
        record {
          payload = run_payload lower hash text svg svg_hash receipt e;
          final_svg = svg e.canvas;
          run_hash = receipt (run_payload lower hash text svg svg_hash receipt e);
        },
        rw (positive n) refl,
        record {
          ended = agent_loop-IsWithin (suc n) 0 c none;
          recoveries = same;
          few = rw same (omega (arith, recoveries_few none e.events));
        },
      )
