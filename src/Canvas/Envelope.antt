-- ===== src/Canvas/Envelope.antt =====
-- `PelicanCanvasOpenEnv` of src/pelicanbench/environments.py: a step that raises becomes a reward.
use pelican_bench.Base.{ℕ, String, Option, none, some}
use pelican_bench.Base.Lists.{sort_by}
use pelican_bench.Base.Int.{ℤ, pos, negsuc}
use pelican_bench.Canvas.Elements.{CanvasError}
use pelican_bench.Canvas.Actions.{
  Elements, Action, Canvas, Outcome, returned, raised, step, reset, id_before,
}

-- what a step gives; the reward in hundredths, and `done` is False always
pub record Observation : Type 0 where
  pub canvas : Canvas
  pub reward : ℤ
  pub error : Option CanvasError

abbrev pub envelope : Outcome → Observation
envelope (returned c) = record { canvas = c; reward = pos 1; error = none }
envelope (raised x c) = record { canvas = c; reward = negsuc 4; error = some x }

-- `PelicanCanvasOpenEnv.step` and `reset`
abbrev pub envelope_step :
    (String → String) → (Elements → String) → (ℕ → String) → Action → Canvas → Observation
envelope_step lower hash text action c = envelope (step lower hash text action c)

abbrev pub envelope_reset : Canvas → Observation
envelope_reset c = record { canvas = reset c; reward = pos 0; error = none }

-- `state()["state_hash"]` of `CanvasEnvironment`; `hash` digests the elements by ascending id
abbrev pub canvas_hash : (Elements → String) → Canvas → String
canvas_hash hash c = hash (sort_by id_before c.elements)
