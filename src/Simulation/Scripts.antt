-- ===== src/Simulation/Scripts.antt =====
-- `ScriptedPolicy` of src/pelicanbench/autonomous.py in the loop of `run_autonomous_agent`.
use pelican_bench.Base.{
  ℕ, zero, suc, ◌≡◌, refl, ap, ◌∙◌, Option, none, some, List, [], ◌∷◌, arith, String, ltb,
}
use pelican_bench.Base.Lists.{length, take, drop}
use pelican_bench.Canvas.Elements.{CanvasError}
use pelican_bench.Canvas.Actions.{Elements, Action, Canvas}
use pelican_bench.Canvas.Envelope.{envelope_step}
use pelican_bench.Simulation.Replay.{find_fault}
use pelican_bench.Simulation.Agent.{RunPayload, LoopEnd, agent_loop, action_at, scripted}
use pelican_bench.Simulation.Retraced.{actions_of}

drop-at :
    (n : ℕ) (actions : List Action) {a : Action} {rest : List Action}
    → drop n actions ≡ a ∷ rest
    → (action_at n actions ≡ some a) × (drop (suc n) actions ≡ rest)
unfolding action_at
drop-at zero [] h = cc
drop-at zero (b ∷ actions) h = (cc, cc)
drop-at (suc n) [] h = cc
drop-at (suc n) (b ∷ actions) h = drop-at n actions h

drop-end : (n : ℕ) (actions : List Action) → drop n actions ≡ [] → action_at n actions ≡ none
unfolding action_at
drop-end zero [] h = refl
drop-end zero (b ∷ actions) h = cc
drop-end (suc n) [] h = refl
drop-end (suc n) (b ∷ actions) h = drop-end n actions h

module _ (lower : String → String) (hash : Elements → String) (text : ℕ → String)
    (svg : Canvas → String) (svg_hash : String → String) (receipt : RunPayload → String)
    (actions : List Action) where
  plain :
      (c : Canvas) (n : ℕ) (previous : Option CanvasError)
      → scripted actions [] c n previous ≡ action_at n actions
  unfolding scripted find_fault
  plain c n previous = ground arith

  -- what a loop from the step `n` does with the rest of the script
  abbrev Plays : ℕ → List Action → LoopEnd → Type 0
  Plays left rest e =
      (actions_of e.events ≡ take left rest) × (e.terminated ≡ ltb (length rest) left)

  script_rest :
      (left n : ℕ) (rest : List Action) (c : Canvas) (previous : Option CanvasError)
      → drop n actions ≡ rest
      → Plays left rest
          (agent_loop lower hash text svg svg_hash receipt (scripted actions []) left n c previous)
  unfolding agent_loop
  script_rest zero n rest c previous h = (refl, ground arith)
  script_rest (suc left) n [] c previous h =
      let ended : scripted actions [] c n previous ≡ none =
        plain c n previous ∙ drop-end n actions h in
      rw (ended, agent_loop) (refl, ground arith)
  script_rest (suc left) n (a ∷ rest) c previous h =
      let (at, later) = drop-at n actions h in
      let asked : scripted actions [] c n previous ≡ some a = plain c n previous ∙ at in
      let o = envelope_step lower hash text a c in
      let (same, ended) = script_rest left (suc n) rest o.canvas o.error later in
      rw (asked, agent_loop)
        (ap (λ (x : List Action). a ∷ x) same, ended ∙ more_steps (length rest) left)
    where
      more_steps : (k l : ℕ) → ltb k l ≡ ltb (suc k) (suc l)
      more_steps k l = ground arith

  -- A script without recovery actions is played in order, whatever errors its actions meet, as far as the
  -- steps allowed reach; the run says that the policy is complete just where the script is shorter than
  -- the steps allowed.
  pub agent_loop-scripted :
      (max_steps : ℕ) (c : Canvas)
      → (actions_of
            (agent_loop lower hash text svg svg_hash receipt
              (scripted actions [])
              max_steps
              0
              c
              none).events
          ≡ take max_steps actions)
        × ((agent_loop lower hash text svg svg_hash receipt
              (scripted actions [])
              max_steps
              0
              c
              none).terminated
            ≡ ltb (length actions) max_steps)
  agent_loop-scripted max_steps c = script_rest max_steps 0 actions c none refl
