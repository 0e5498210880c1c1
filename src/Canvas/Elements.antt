-- ===== src/Canvas/Elements.antt =====
-- The elements of src/pelicanbench/canvas.py, and `CanvasEnvironment._sanitize_element`. The value of
-- an attribute is its text, `str(value)`.
use pelican_bench.Base.{
  String, Bool, true, false, not, Option, none, some, List, [], ◌∷◌, if◌then◌else◌, ◌==◌, ◌&&◌,
  ◌||◌, is_none,
}
use pelican_bench.Base.Text.{contains}
use pelican_bench.Base.Lists.{any}

pub data CanvasError : Type 0 where
  unsupported_action element_exists limit_exceeded missing_element nothing_to_undo : CanvasError
  not_an_object unknown_fields unsupported_tag attributes_not_an_object : CanvasError
  unsupported_attributes active_value : CanvasError

-- An element that the canvas keeps: each field is there or not. The group may be there and be None.
pub record Element : Type 0 where
  pub tag : Option String
  pub attributes : Option (List (String × String))
  pub text : Option String
  pub group : Option (Option String)

-- the value of "attributes" in an action
pub data AttributesValue : Type 0 where
  dict : List (String × String) → AttributesValue
  not_dict : AttributesValue

-- the value of "element" or "changes" in an action; `unknown` are the names of other fields
pub data ElementValue : Type 0 where
  object :
      (unknown : List String) (tag : Option String) (attributes : Option AttributesValue)
      (text : Option String) (group : Option (Option String))
      → ElementValue
  not_object : ElementValue

-- `ALLOWED_TAGS`
abbrev pub allowed_tags : List String
allowed_tags = "g" ∷ "path" ∷ "circle" ∷ "ellipse" ∷ "rect" ∷ "line" ∷ "polyline" ∷ "polygon" ∷ []

-- `ALLOWED_ATTRIBUTES`
abbrev pub allowed_attributes : List String
allowed_attributes =
    "x" ∷ "y" ∷ "x1" ∷ "x2" ∷ "y1" ∷ "y2" ∷ "cx" ∷ "cy" ∷ "r" ∷ "rx" ∷ "ry" ∷ "width" ∷ "height"
    ∷ "d" ∷ "points" ∷ "fill" ∷ "stroke" ∷ "stroke-width" ∷ "transform" ∷ "class" ∷ "data-role"
    ∷ "aria-label" ∷ []

unfoldable pub is_in : String → List String → Bool
is_in x names = any (λ (name : String). name == x) names

-- `str(value.get("tag", ""))`
abbrev pub tag_text : Option String → String
tag_text none = ""
tag_text (some t) = t

pub data Sanitized : Type 0 where
  clean : Element → Sanitized
  refused : CanvasError → Sanitized

abbrev pub is_empty_list : List String → Bool
is_empty_list [] = true
is_empty_list (_ ∷ _) = false

-- `lower` is `str.lower`
module _ (lower : String → String) where
  abbrev pub is_active : String → Bool
  is_active value =
      contains "javascript:" (lower value)
      || contains "url(" (lower value)
      || contains "data:" (lower value)

  abbrev pub is_unsafe_name : String × String → Bool
  is_unsafe_name a = not (is_in a.0 allowed_attributes)

  abbrev pub has_active_value : String × String → Bool
  has_active_value a = is_active a.1

  -- `_sanitize_element`
  unfoldable pub sanitize_element : Bool → ElementValue → Sanitized
  sanitize_element partial not_object = refused not_an_object
  sanitize_element partial (object unknown tag attributes text group) =
      if not (is_empty_list unknown)
      then refused unknown_fields
      else if (not partial || not (is_none tag)) && not (is_in (tag_text tag) allowed_tags)
      then refused unsupported_tag
      else elim attributes [
        | none ↦ clean (record { tag = tag; attributes = none; text = text; group = group })
        | some not_dict ↦ refused attributes_not_an_object
        | some (dict entries) ↦
            if any is_unsafe_name entries
            then refused unsupported_attributes
            else if any has_active_value entries
            then refused active_value
            else clean (record { tag = tag; attributes = some entries; text = text; group = group })
      ]
