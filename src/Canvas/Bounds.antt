-- ===== src/Canvas/Bounds.antt =====
-- The limit on the number of elements in src/pelicanbench/canvas.py.
use pelican_bench.Base.{
  ℕ, ◌≤◌, String, ◌≡◌, refl, true, false, Option, none, some, List, [], ◌∷◌, arith, leb, is_none,
  Bool-cases, Option-cases, inl, inr,
}
use pelican_bench.Base.Lists.{length, All}
use pelican_bench.Base.Dict.{
  get, put, length-put_new, length-put_found, length-remove, AllValues, put-AllValues,
}
use pelican_bench.Canvas.Elements.{ElementValue, sanitize_element}
use pelican_bench.Canvas.Actions.{
  Elements, Action, add, update, delete, group, ungroup, checkpoint, undo, other, Canvas,
  canvas_after, set_groups, add_element, update_element, delete_element, group_elements, undo_step,
  step, updated, checkpoint_name,
}
use pelican_bench.Canvas.Undo.{Sanitized-cases}

abbrev pub Fits : ℕ → Elements → Type 0
Fits limit elements = length elements ≤ limit

-- The elements, all that the history holds and all checkpoints are within the limit.
pub record IsBounded (c : Canvas) : Type 0 where
  pub elements : Fits c.max_elements c.elements
  pub history : All (Fits c.max_elements) c.history
  pub checkpoints : AllValues (Fits c.max_elements) c.checkpoints

length-set_groups :
    (ids : List String) (name : Option String) (elements : Elements)
    → length (set_groups ids name elements).1 ≡ length elements
unfolding set_groups
length-set_groups [] name elements = refl
length-set_groups (id ∷ ids) name elements = elim (Option-cases (get id elements)) [
  | inl missing ↦ rw (missing, set_groups) refl
  | inr (e, there) ↦
      rw (there, set_groups)
        (omega (
          arith,
          length-set_groups ids name (put id (record e { group = some name }) elements),
          length-put_found id (record e { group = some name }) e elements there,
        ))
]

module _ (lower : String → String) (hash : Elements → String) (text : ℕ → String) where
  add-IsBounded :
      (id : String) (value : ElementValue) (c : Canvas)
      → IsBounded c
      → IsBounded (canvas_after (add_element lower hash text id value c))
  unfolding add_element
  add-IsBounded id value c h = elim (Option-cases (get id c.elements)) [
    | inr (e, there) ↦ rw (there, add_element) h
    | inl missing ↦ elim (Bool-cases (leb c.max_elements (length c.elements))) [
      | inl full ↦ rw (missing, full, add_element) h
      | inr room ↦ elim (Sanitized-cases (sanitize_element lower false value)) [
        | inr (x, bad) ↦ rw (missing, room, bad, add_element) h
        | inl (e, fine) ↦
            rw (missing, room, fine, add_element)
              (record {
                elements = ground (arith, length-put_new id e c.elements missing, room);
                history = (h.elements, h.history);
                checkpoints = h.checkpoints;
              })
      ]
    ]
  ]

  update-IsBounded :
      (id : String) (value : ElementValue) (c : Canvas)
      → IsBounded c
      → IsBounded (canvas_after (update_element lower hash text id value c))
  unfolding update_element
  update-IsBounded id value c h = elim (Option-cases (get id c.elements)) [
    | inl missing ↦ rw (missing, update_element) h
    | inr (old, there) ↦ elim (Sanitized-cases (sanitize_element lower true value)) [
      | inr (x, bad) ↦ rw (there, bad, update_element) h
      | inl (e, fine) ↦
          rw (there, fine, update_element)
            (record {
              elements = rw (length-put_found id (updated e old) old c.elements there) h.elements;
              history = (h.elements, h.history);
              checkpoints = h.checkpoints;
            })
    ]
  ]

  delete-IsBounded :
      (id : String) (c : Canvas)
      → IsBounded c
      → IsBounded (canvas_after (delete_element lower hash text id c))
  unfolding delete_element
  delete-IsBounded id c h = elim (Bool-cases (is_none (get id c.elements))) [
    | inl missing ↦ rw (missing, delete_element) h
    | inr there ↦
        rw (there, delete_element)
          (record {
            elements = omega (arith, length-remove id c.elements, h.elements);
            history = (h.elements, h.history);
            checkpoints = h.checkpoints;
          })
  ]

  group-IsBounded :
      (a : Action) (ids : List String) (name : Option String) (c : Canvas)
      → IsBounded c
      → IsBounded (canvas_after (group_elements lower hash text a ids name c))
  unfolding group_elements
  group-IsBounded a ids name c h =
      let same = length-set_groups ids name c.elements in
      let fits : Fits c.max_elements (set_groups ids name c.elements).1 = rw same h.elements in
      elim (Bool-cases (set_groups ids name c.elements).0) [
        | inl whole ↦
            rw (whole, group_elements)
              (record {
                elements = fits;
                history = (h.elements, h.history);
                checkpoints = h.checkpoints;
              })
        | inr part ↦
            rw (part, group_elements)
              (record { elements = fits; history = h.history; checkpoints = h.checkpoints })
      ]

  undo-IsBounded :
      (c : Canvas) → IsBounded c → IsBounded (canvas_after (undo_step lower hash text c))
  unfolding undo_step
  undo-IsBounded c h = go c.history refl h.history
    where
      go :
          (history : List Elements)
          → c.history ≡ history
          → All (Fits c.max_elements) history
          → IsBounded (canvas_after (undo_step lower hash text c))
      go [] same old = rw (same, undo_step) h
      go (before ∷ history) same old =
          rw (same, undo_step)
            (record { elements = old.0; history = old.1; checkpoints = h.checkpoints })

  -- On a canvas within its limit, whose history and checkpoints are within it too, every action leaves
  -- such a canvas, whether it returns or raises.
  pub step-IsBounded :
      (a : Action) (c : Canvas) → IsBounded c → IsBounded (canvas_after (step lower hash text a c))
  unfolding step
  step-IsBounded (add id value) c h = add-IsBounded id value c h
  step-IsBounded (update id value) c h = update-IsBounded id value c h
  step-IsBounded (delete id) c h = delete-IsBounded id c h
  step-IsBounded (group ids name) c h = group-IsBounded (group ids name) ids name c h
  step-IsBounded (ungroup ids) c h = group-IsBounded (ungroup ids) ids none c h
  step-IsBounded (checkpoint id) c h = record {
    elements = h.elements;
    history = h.history;
    checkpoints =
        put-AllValues (Fits c.max_elements) (checkpoint_name lower hash text id c) c.elements
          c.checkpoints h.elements h.checkpoints;
  }
  step-IsBounded undo c h = undo-IsBounded c h
  step-IsBounded (other kind) c h = h
