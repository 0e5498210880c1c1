-- ===== src/Canvas/Undo.antt =====
-- What "undo" does in src/pelicanbench/canvas.py.
use pelican_bench.Base.{
  ℕ, String, ◌≡◌, ◌⊎◌, refl, sym, ap, Bool, true, false, not, Option, none, List, ◌∷◌, leb, is_none,
  Bool-cases, Option-cases, inl, inr,
}
use pelican_bench.Base.Lists.{length}
use pelican_bench.Base.Dict.{get}
use pelican_bench.Canvas.Elements.{
  unsupported_action, Element, ElementValue, Sanitized, clean, refused, CanvasError,
  sanitize_element,
}
use pelican_bench.Canvas.Actions.{
  Elements, Action, add, update, delete, group, ungroup, checkpoint, undo, other, Canvas, returned,
  raised, set_groups, add_element, update_element, delete_element, group_elements, undo_step, step,
  finish, recorded, stepped,
}

-- the actions that an undo takes back
abbrev pub is_edit : Action → Bool
is_edit (checkpoint _) = false
is_edit undo = false
is_edit _ = true

-- `after` holds the elements of `before` as the newest in its history.
pub record Saves (before after : Canvas) : Type 0 where
  pub history : after.history ≡ before.elements ∷ before.history
  pub checkpoints : after.checkpoints ≡ before.checkpoints
  pub limit : after.max_elements ≡ before.max_elements

-- `after` has the elements and the history of `before`.
pub record Restores (before after : Canvas) : Type 0 where
  pub elements : after.elements ≡ before.elements
  pub history : after.history ≡ before.history
  pub checkpoints : after.checkpoints ≡ before.checkpoints

pub Sanitized-cases :
    (s : Sanitized) → ((e : Element) × (s ≡ clean e)) ⊎ ((x : CanvasError) × (s ≡ refused x))
Sanitized-cases (clean e) = inl (e, refl)
Sanitized-cases (refused x) = inr (x, refl)

returned-injective : {a b : Canvas} → returned a ≡ returned b → a ≡ b
returned-injective p = cc

pub not_returned : (x : CanvasError) {a b : Canvas} → raised x a ≡ returned b → ⊥
not_returned x p = cc

module _ (lower : String → String) (hash : Elements → String) (text : ℕ → String) where
  finished-Saves :
      (a : Action) (elements : Elements) (c c' : Canvas)
      → finish lower hash text a elements c ≡ returned c'
      → Saves c c'
  finished-Saves a elements c c' h =
      let same = sym (returned-injective h) in
      record {
        history = ap (λ (x : Canvas). x.history) same;
        checkpoints = ap (λ (x : Canvas). x.checkpoints) same;
        limit = ap (λ (x : Canvas). x.max_elements) same;
      }

  add-Saves :
      (id : String) (value : ElementValue) (c c' : Canvas)
      → add_element lower hash text id value c ≡ returned c'
      → Saves c c'
  unfolding add_element
  add-Saves id value c c' h = elim (Bool-cases (not (is_none (get id c.elements)))) [
    | inl there ↦ absurd (not_returned _ (rw there at h))
    | inr new ↦ elim (Bool-cases (leb c.max_elements (length c.elements))) [
      | inl full ↦ absurd (not_returned _ (rw full at (rw new at h)))
      | inr room ↦ elim (Sanitized-cases (sanitize_element lower false value)) [
        | inl (e, fine) ↦
            finished-Saves (add id value) _ c c' (rw fine at (rw room at (rw new at h)))
        | inr (x, bad) ↦ absurd (not_returned x (rw bad at (rw room at (rw new at h))))
      ]
    ]
  ]

  update-Saves :
      (id : String) (value : ElementValue) (c c' : Canvas)
      → update_element lower hash text id value c ≡ returned c'
      → Saves c c'
  unfolding update_element
  update-Saves id value c c' h = elim (Option-cases (get id c.elements)) [
    | inl missing ↦ absurd (not_returned _ (rw (missing, update_element) at h))
    | inr (old, there) ↦ elim (Sanitized-cases (sanitize_element lower true value)) [
      | inl (e, fine) ↦
          finished-Saves (update id value) _ c c' (rw fine at (rw (there, update_element) at h))
      | inr (x, bad) ↦ absurd (not_returned x (rw bad at (rw (there, update_element) at h)))
    ]
  ]

  delete-Saves :
      (id : String) (c c' : Canvas) → delete_element lower hash text id c ≡ returned c' → Saves c c'
  unfolding delete_element
  delete-Saves id c c' h = elim (Bool-cases (is_none (get id c.elements))) [
    | inl missing ↦ absurd (not_returned _ (rw missing at h))
    | inr there ↦ finished-Saves (delete id) _ c c' (rw there at h)
  ]

  group-Saves :
      (a : Action) (ids : List String) (name : Option String) (c c' : Canvas)
      → group_elements lower hash text a ids name c ≡ returned c'
      → Saves c c'
  unfolding group_elements
  group-Saves a ids name c c' h = elim (Bool-cases (set_groups ids name c.elements).0) [
    | inl whole ↦ finished-Saves a _ c c' (rw whole at h)
    | inr part ↦ absurd (not_returned _ (rw part at h))
  ]

  step-Saves :
      (a : Action) (c c' : Canvas)
      → is_edit a ≡ true
      → step lower hash text a c ≡ returned c'
      → Saves c c'
  unfolding step
  step-Saves (add id value) c c' e h = add-Saves id value c c' h
  step-Saves (update id value) c c' e h = update-Saves id value c c' h
  step-Saves (delete id) c c' e h = delete-Saves id c c' h
  step-Saves (group ids name) c c' e h = group-Saves (group ids name) ids name c c' h
  step-Saves (ungroup ids) c c' e h = group-Saves (ungroup ids) ids none c c' h
  step-Saves (checkpoint id) c c' e h = cc
  step-Saves undo c c' e h = cc
  step-Saves (other kind) c c' e h = absurd (not_returned unsupported_action h)

  undone : (c : Canvas) (elements : Elements) (history : List Elements) → Canvas
  undone c elements history =
      recorded lower hash text (stepped undo) (record c { elements = elements; history = history })

  undo-returned :
      (c : Canvas) (elements : Elements) (history : List Elements)
      → c.history ≡ elements ∷ history
      → step lower hash text undo c ≡ returned (undone c elements history)
  unfolding step undo_step undone
  undo-returned c elements history same = rw (same, undo_step) refl

  -- After an action that returned, other than a checkpoint or an undo, an undo returns, with the
  -- elements, the history and the checkpoints from before the action.
  pub undo-step :
      (a : Action) (c c' : Canvas)
      → is_edit a ≡ true
      → step lower hash text a c ≡ returned c'
      → (c'' : Canvas) × (step lower hash text undo c' ≡ returned c'') × Restores c c''
  unfolding undone
  undo-step a c c' e h =
      let saved = step-Saves a c c' e h in
      (
        undone c' c.elements c.history,
        undo-returned c' c.elements c.history saved.history,
        record { elements = refl; history = refl; checkpoints = saved.checkpoints },
      )
