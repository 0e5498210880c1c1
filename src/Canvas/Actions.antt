-- ===== src/Canvas/Actions.antt =====
-- `CanvasEnvironment` of src/pelicanbench/canvas.py: its state, `step`, `restore` and `reset`.
use pelican_bench.Base.{
  ℕ, suc, String, Bool, true, false, not, Option, none, some, List, [], ◌∷◌, if◌then◌else◌, leb,
  is_none,
}
use Prim.Native.String.{compare}
use text.Mathlib.Text.{is_lt}
use pelican_bench.Base.Lists.{length, sort_by}
use pelican_bench.Base.Dict.{get, put, collect, remove}
use pelican_bench.Base.Text.{◌^^◌, is_empty}
use pelican_bench.Canvas.Elements.{
  CanvasError, unsupported_action, element_exists, limit_exceeded, missing_element, nothing_to_undo,
  Element, ElementValue, clean, refused, sanitize_element,
}

-- A dict of elements, in the order of insertion.
abbrev pub Elements : Type 0
Elements = List (String × Element)

-- An action, by its type; the keys that a type reads are there.
pub data Action : Type 0 where
  add update : (id : String) → ElementValue → Action
  delete : (id : String) → Action
  group : (ids : List String) → (name : Option String) → Action
  ungroup : (ids : List String) → Action
  checkpoint : (id : Option String) → Action
  undo : Action
  other : (kind : String) → Action

pub data EventAction : Type 0 where
  stepped : Action → EventAction
  restored : (id : String) → EventAction

pub record CanvasEvent : Type 0 where
  pub action : EventAction
  pub state_hash : String

-- `history` and `events` have the newest first
pub record Canvas : Type 0 where
  pub max_elements : ℕ
  pub elements : Elements
  pub history : List Elements
  pub checkpoints : List (String × Elements)
  pub events : List CanvasEvent

-- A call returns, or raises; either way it leaves a canvas.
pub data Outcome : Type 0 where
  returned : Canvas → Outcome
  raised : CanvasError → Canvas → Outcome

abbrev pub canvas_after : Outcome → Canvas
canvas_after (returned c) = c
canvas_after (raised _ c) = c

abbrev pub id_before : (String × Element) → (String × Element) → Bool
id_before a b = is_lt (compare a.0 b.0)

-- `changes` without "attributes", as the argument of `dict.update`
abbrev pub or_old {ℓ} : {A : Type ℓ} → Option A → Option A → Option A
or_old none old = old
or_old (some new) old = some new

-- `existing.update(...)`, where the element may have had no attributes
abbrev pub merged :
    Option (List (String × String))
    → Option (List (String × String))
    → Option (List (String × String))
merged none old = old
merged (some new) none = some (collect [] new)
merged (some new) (some old) = some (collect old new)

abbrev pub updated : Element → Element → Element
updated changes e = record {
  tag = or_old changes.tag e.tag;
  attributes = merged changes.attributes e.attributes;
  text = or_old changes.text e.text;
  group = or_old changes.group e.group;
}

-- the loop of "group" and "ungroup"; a missing id stops it, after the ids before it have changed
unfoldable pub set_groups : List String → Option String → Elements → Bool × Elements
set_groups [] name elements = (true, elements)
set_groups (id ∷ ids) name elements = elim (get id elements) [
  | none ↦ (false, elements)
  | some e ↦ set_groups ids name (put id (record e { group = some name }) elements)
]

-- `lower` is `str.lower`, `hash` is `content_hash` of the elements by ascending id, `text` is `str`
module _ (lower : String → String) (hash : Elements → String) (text : ℕ → String) where
  -- `self.events.append(...)`, with the hash of the new state
  abbrev pub recorded : EventAction → Canvas → Canvas
  recorded action c = record c {
    events =
        record { action = action; state_hash = hash (sort_by id_before c.elements) } ∷ c.events;
  }

  -- the end of `step`: the history and the event
  abbrev pub finish : Action → Elements → Canvas → Outcome
  finish action elements c = returned (
      recorded (stepped action)
        (record c { elements = elements; history = c.elements ∷ c.history }))

  -- `str(action.get("id") or f"checkpoint-{len(self.checkpoints) + 1}")`
  abbrev pub checkpoint_name : Option String → Canvas → String
  checkpoint_name none c = "checkpoint-" ^^ text (suc (length c.checkpoints))
  checkpoint_name (some id) c =
      if is_empty id then "checkpoint-" ^^ text (suc (length c.checkpoints)) else id

  unfoldable pub add_element : String → ElementValue → Canvas → Outcome
  add_element id value c =
      if not (is_none (get id c.elements))
      then raised element_exists c
      else if leb c.max_elements (length c.elements)
      then raised limit_exceeded c
      else elim (sanitize_element lower false value) [
        | refused e ↦ raised e c
        | clean e ↦ finish (add id value) (put id e c.elements) c
      ]

  unfoldable pub update_element : String → ElementValue → Canvas → Outcome
  update_element id value c = elim (get id c.elements) [
    | none ↦ raised missing_element c
    | some old ↦ elim (sanitize_element lower true value) [
      | refused e ↦ raised e c
      | clean changes ↦ finish (update id value) (put id (updated changes old) c.elements) c
    ]
  ]

  unfoldable pub delete_element : String → Canvas → Outcome
  delete_element id c =
      if is_none (get id c.elements)
      then raised missing_element c
      else finish (delete id) (remove id c.elements) c

  unfoldable pub group_elements : Action → List String → Option String → Canvas → Outcome
  group_elements action ids name c =
      let (whole, elements) = set_groups ids name c.elements in
      if whole
      then finish action elements c
      else raised missing_element (record c { elements = elements })

  unfoldable pub undo_step : Canvas → Outcome
  undo_step c = elim c.history [
    | [] ↦ raised nothing_to_undo c
    | before ∷ history ↦
        returned (recorded (stepped undo) (record c { elements = before; history = history }))
  ]

  -- `step`
  unfoldable pub step : Action → Canvas → Outcome
  step (add id value) c = add_element id value c
  step (update id value) c = update_element id value c
  step (delete id) c = delete_element id c
  step (group ids name) c = group_elements (group ids name) ids name c
  step (ungroup ids) c = group_elements (ungroup ids) ids none c
  step (checkpoint id) c = returned (
      recorded (stepped (checkpoint id))
        (record c { checkpoints = put (checkpoint_name id c) c.elements c.checkpoints }))
  step undo c = undo_step c
  step (other kind) c = raised unsupported_action c

  unfoldable pub restore : String → Canvas → Outcome
  restore id c = elim (get id c.checkpoints) [
    | none ↦ raised missing_element c
    | some elements ↦ returned (
        recorded (restored id) (record c { elements = elements; history = c.elements ∷ c.history }))
  ]

abbrev pub reset : Canvas → Canvas
reset c = record c { elements = []; history = []; checkpoints = []; events = [] }
