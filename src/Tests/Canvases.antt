-- ===== src/Tests/Canvases.antt =====
-- The theorems on the drawing canvas, at a small canvas.
use pelican_bench.Base.{String, ◌≡◌, refl, none, some, [], ◌∷◌, arith}
use pelican_bench.Base.Dict.{get, put, remove, collect}
use pelican_bench.Base.Text.{◌^^◌, contains}
use pelican_bench.Canvas.Elements.{ElementValue, object, dict, is_in, sanitize_element}
use pelican_bench.Canvas.Actions.{
  Elements, add, update, group, undo, Canvas, returned, canvas_after, step, restore, add_element,
  group_elements, set_groups, undo_step,
}
use pelican_bench.Canvas.Undo.{Restores, undo-step}
use pelican_bench.Canvas.Bounds.{IsBounded, step-IsBounded}
use pelican_bench.Canvas.Clean.{IsClean, canvas_after-IsClean}
use pelican_bench.Tests.Samples.{unary}

-- a lower case that leaves the sample texts, and a digest that tells the small canvases apart
abbrev pub lower : String → String
lower s = s

abbrev pub ids_of : Elements → String
ids_of [] = ""
ids_of (entry ∷ rest) = entry.0 ^^ ids_of rest

unfoldable pub canvas_run {ℓ} : {A : Type ℓ} → A → A
unfolding get put remove collect contains is_in sanitize_element step add_element group_elements
    set_groups undo_step
canvas_run a = a

abbrev pub circle : ElementValue
circle = object [] (some "circle") (some (dict (("r", "4") ∷ []))) none none

abbrev empty_canvas : Canvas
empty_canvas = record {
  max_elements = 1;
  elements = [];
  history = [];
  checkpoints = [];
  events = [];
}

abbrev pub one_circle : Canvas
one_circle = canvas_after (step lower ids_of unary (add "wheel" circle) empty_canvas)

added : step lower ids_of unary (add "wheel" circle) empty_canvas ≡ returned one_circle
unfolding canvas_run
added = refl

undo-step_example :
    (c : Canvas) × (step lower ids_of unary undo one_circle ≡ returned c) × Restores empty_canvas c
undo-step_example =
    undo-step lower ids_of unary (add "wheel" circle) empty_canvas one_circle refl added

pub one_circle-IsBounded : IsBounded one_circle
unfolding canvas_run
one_circle-IsBounded = record {
  elements = omega arith;
  history = (omega arith, tt);
  checkpoints = tt;
}

-- a group of a circle that is there and one that is not
step-IsBounded_example : IsBounded (
    canvas_after (step lower ids_of unary (group ("wheel" ∷ "seat" ∷ []) (some "bike")) one_circle))
step-IsBounded_example =
    step-IsBounded lower ids_of unary (group ("wheel" ∷ "seat" ∷ []) (some "bike")) one_circle
      one_circle-IsBounded

one_circle-IsClean : IsClean lower one_circle
unfolding canvas_run
one_circle-IsClean = record {
  elements =
      ((record { tag = refl; attributes = (record { allowed = refl; passive = refl }, tt) }), tt);
  history = (tt, tt);
  checkpoints = tt;
}

-- new attributes for the circle, and a checkpoint that is not there
canvas_after-IsClean_example :
    IsClean lower (canvas_after (step lower ids_of unary (update "wheel" circle) one_circle))
    × IsClean lower (canvas_after (restore lower ids_of unary "start" one_circle))
canvas_after-IsClean_example =
    canvas_after-IsClean lower ids_of unary (update "wheel" circle) "start" one_circle
      one_circle-IsClean
