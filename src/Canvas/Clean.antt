-- ===== src/Canvas/Clean.antt =====
-- That the canvas of src/pelicanbench/canvas.py holds only safe elements, in the picture, in its history
-- and in its checkpoints.
use pelican_bench.Base.{
  ℕ, String, ◌≡◌, refl, true, false, Option, none, some, List, [], ◌∷◌, leb, is_none, Bool-cases,
  Option-cases, inl, inr,
}
use pelican_bench.Base.Lists.{length, All}
use pelican_bench.Base.Dict.{get, AllValues, put-AllValues, remove-AllValues, get-AllValues}
use pelican_bench.Canvas.Elements.{Element, ElementValue, sanitize_element}
use pelican_bench.Canvas.Actions.{
  Elements, Action, add, update, delete, group, ungroup, checkpoint, undo, other, Canvas,
  canvas_after, or_old, merged, set_groups, add_element, update_element, delete_element,
  group_elements, undo_step, step, restore, updated, checkpoint_name,
}
use pelican_bench.Canvas.Undo.{Sanitized-cases}
use pelican_bench.Canvas.Safe.{
  IsSafe, TagSafe, AttributesSafe, collect-AllHarmless, sanitize_element-IsSafe,
}

module _ (lower : String → String) where
  abbrev pub AllSafe : Elements → Type 0
  AllSafe elements = AllValues (IsSafe lower) elements

  -- All elements that a canvas holds are safe.
  pub record IsClean (c : Canvas) : Type 0 where
    pub elements : AllSafe c.elements
    pub history : All AllSafe c.history
    pub checkpoints : AllValues AllSafe c.checkpoints

  or_old-TagSafe : (new old : Option String) → TagSafe new → TagSafe old → TagSafe (or_old new old)
  or_old-TagSafe none old h h' = h'
  or_old-TagSafe (some t) old h h' = h

  merged-AttributesSafe :
      (new old : Option (List (String × String)))
      → AttributesSafe lower new
      → AttributesSafe lower old
      → AttributesSafe lower (merged new old)
  merged-AttributesSafe none old h h' = h'
  merged-AttributesSafe (some new) none h h' = collect-AllHarmless lower [] new tt h
  merged-AttributesSafe (some new) (some old) h h' = collect-AllHarmless lower old new h' h

  updated-IsSafe :
      (changes e : Element)
      → IsSafe lower changes
      → IsSafe lower e
      → IsSafe lower (updated changes e)
  updated-IsSafe changes e h h' = record {
    tag = or_old-TagSafe changes.tag e.tag h.tag h'.tag;
    attributes = merged-AttributesSafe changes.attributes e.attributes h.attributes h'.attributes;
  }

  set_groups-AllSafe :
      (ids : List String) (name : Option String) (elements : Elements)
      → AllSafe elements
      → AllSafe (set_groups ids name elements).1
  unfolding set_groups
  set_groups-AllSafe [] name elements h = h
  set_groups-AllSafe (id ∷ ids) name elements h = elim (Option-cases (get id elements)) [
    | inl missing ↦ rw (missing, set_groups) h
    | inr (e, there) ↦
        let safe = get-AllValues (IsSafe lower) id e elements h there in
        rw (there, set_groups)
          (set_groups-AllSafe ids name _ (
            put-AllValues (IsSafe lower) id (record e { group = some name }) elements
              (record { tag = safe.tag; attributes = safe.attributes }) h))
  ]

  module _ (hash : Elements → String) (text : ℕ → String) where
    add-IsClean :
        (id : String) (value : ElementValue) (c : Canvas)
        → IsClean c
        → IsClean (canvas_after (add_element lower hash text id value c))
    unfolding add_element
    add-IsClean id value c h = elim (Option-cases (get id c.elements)) [
      | inr (e, there) ↦ rw (there, add_element) h
      | inl missing ↦ elim (Bool-cases (leb c.max_elements (length c.elements))) [
        | inl full ↦ rw (missing, full, add_element) h
        | inr room ↦ elim (Sanitized-cases (sanitize_element lower false value)) [
          | inr (x, bad) ↦ rw (missing, room, bad, add_element) h
          | inl (e, fine) ↦
              rw (missing, room, fine, add_element)
                (record {
                  elements =
                      put-AllValues (IsSafe lower) id e c.elements
                        (sanitize_element-IsSafe lower false value e fine) h.elements;
                  history = (h.elements, h.history);
                  checkpoints = h.checkpoints;
                })
        ]
      ]
    ]

    update-IsClean :
        (id : String) (value : ElementValue) (c : Canvas)
        → IsClean c
        → IsClean (canvas_after (update_element lower hash text id value c))
    unfolding update_element
    update-IsClean id value c h = elim (Option-cases (get id c.elements)) [
      | inl missing ↦ rw (missing, update_element) h
      | inr (old, there) ↦ elim (Sanitized-cases (sanitize_element lower true value)) [
        | inr (x, bad) ↦ rw (there, bad, update_element) h
        | inl (e, fine) ↦
            rw (there, fine, update_element)
              (record {
                elements =
                    put-AllValues (IsSafe lower) id (updated e old) c.elements
                      (updated-IsSafe e old (sanitize_element-IsSafe lower true value e fine)
                        (get-AllValues (IsSafe lower) id old c.elements h.elements there))
                      h.elements;
                history = (h.elements, h.history);
                checkpoints = h.checkpoints;
              })
      ]
    ]

    delete-IsClean :
        (id : String) (c : Canvas)
        → IsClean c
        → IsClean (canvas_after (delete_element lower hash text id c))
    unfolding delete_element
    delete-IsClean id c h = elim (Bool-cases (is_none (get id c.elements))) [
      | inl missing ↦ rw (missing, delete_element) h
      | inr there ↦
          rw (there, delete_element)
            (record {
              elements = remove-AllValues (IsSafe lower) id c.elements h.elements;
              history = (h.elements, h.history);
              checkpoints = h.checkpoints;
            })
    ]

    group-IsClean :
        (a : Action) (ids : List String) (name : Option String) (c : Canvas)
        → IsClean c
        → IsClean (canvas_after (group_elements lower hash text a ids name c))
    unfolding group_elements
    group-IsClean a ids name c h =
        let safe = set_groups-AllSafe ids name c.elements h.elements in
        elim (Bool-cases (set_groups ids name c.elements).0) [
          | inl whole ↦
              rw (whole, group_elements)
                (record {
                  elements = safe;
                  history = (h.elements, h.history);
                  checkpoints = h.checkpoints;
                })
          | inr part ↦
              rw (part, group_elements)
                (record { elements = safe; history = h.history; checkpoints = h.checkpoints })
        ]

    undo-IsClean : (c : Canvas) → IsClean c → IsClean (canvas_after (undo_step lower hash text c))
    unfolding undo_step
    undo-IsClean c h = go c.history refl h.history
      where
        go :
            (history : List Elements)
            → c.history ≡ history
            → All AllSafe history
            → IsClean (canvas_after (undo_step lower hash text c))
        go [] same old = rw (same, undo_step) h
        go (before ∷ history) same old =
            rw (same, undo_step)
              (record { elements = old.0; history = old.1; checkpoints = h.checkpoints })

    step-IsClean :
        (a : Action) (c : Canvas) → IsClean c → IsClean (canvas_after (step lower hash text a c))
    unfolding step
    step-IsClean (add id value) c h = add-IsClean id value c h
    step-IsClean (update id value) c h = update-IsClean id value c h
    step-IsClean (delete id) c h = delete-IsClean id c h
    step-IsClean (group ids name) c h = group-IsClean (group ids name) ids name c h
    step-IsClean (ungroup ids) c h = group-IsClean (ungroup ids) ids none c h
    step-IsClean (checkpoint id) c h = record {
      elements = h.elements;
      history = h.history;
      checkpoints =
          put-AllValues AllSafe (checkpoint_name lower hash text id c) c.elements c.checkpoints
            h.elements h.checkpoints;
    }
    step-IsClean undo c h = undo-IsClean c h
    step-IsClean (other kind) c h = h

    restore-IsClean :
        (id : String) (c : Canvas)
        → IsClean c
        → IsClean (canvas_after (restore lower hash text id c))
    unfolding restore
    restore-IsClean id c h = elim (Option-cases (get id c.checkpoints)) [
      | inl missing ↦ rw (missing, restore) h
      | inr (elements, there) ↦
          rw (there, restore)
            (record {
              elements = get-AllValues AllSafe id elements c.checkpoints h.checkpoints there;
              history = (h.elements, h.history);
              checkpoints = h.checkpoints;
            })
    ]

    -- On a canvas where every element, in the picture, the history and the checkpoints, has an allowed
    -- tag and allowed attributes with no active value (where it has a tag and attributes), every action
    -- and every restoring of a checkpoint leaves such a canvas, whether it returns or raises.
    pub canvas_after-IsClean :
        (a : Action) (id : String) (c : Canvas)
        → IsClean c
        → IsClean (canvas_after (step lower hash text a c))
          × IsClean (canvas_after (restore lower hash text id c))
    canvas_after-IsClean a id c h = (step-IsClean a c h, restore-IsClean id c h)
