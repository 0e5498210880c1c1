-- ===== src/Canvas/Safe.antt =====
-- What src/pelicanbench/canvas.py keeps out of a drawing: elements with other tags than the allowed ones,
-- with other attributes, or with active values.
use pelican_bench.Base.{
  String, ◌≡◌, subst, Bool, true, false, not, Option, none, some, List, [], ◌∷◌, ◌==◌, ◌&&◌, ◌||◌,
  arith, is_none, Bool-cases, inl, inr, if◌then◌else◌,
}
use pelican_bench.Base.Lists.{any}
use pelican_bench.Base.Dict.{put, collect}
use pelican_bench.Canvas.Elements.{
  Element, ElementValue, CanvasError, object, not_object, dict, not_dict, Sanitized, clean, refused,
  allowed_tags, allowed_attributes, is_in, tag_text, is_active, is_unsafe_name, has_active_value,
  is_empty_list, sanitize_element,
}

-- A name and a value that may stand in the picture.
pub record IsHarmless (lower : String → String) (name value : String) : Type 0 where
  pub allowed : is_in name allowed_attributes ≡ true
  pub passive : is_active lower value ≡ false

abbrev pub AllHarmless : (String → String) → List (String × String) → Type 0
AllHarmless lower [] = Unit
AllHarmless lower (a ∷ rest) = IsHarmless lower a.0 a.1 × AllHarmless lower rest

abbrev pub AttributesSafe : (String → String) → Option (List (String × String)) → Type 0
AttributesSafe lower none = Unit
AttributesSafe lower (some entries) = AllHarmless lower entries

abbrev pub TagSafe : Option String → Type 0
TagSafe none = Unit
TagSafe (some t) = is_in t allowed_tags ≡ true

-- An element whose tag and attributes, where it has them, are allowed, and that has no active value.
pub record IsSafe (lower : String → String) (e : Element) : Type 0 where
  pub tag : TagSafe e.tag
  pub attributes : AttributesSafe lower e.attributes

module _ (lower : String → String) where
  put-AllHarmless :
      (k v : String) (entries : List (String × String))
      → IsHarmless lower k v
      → AllHarmless lower entries
      → AllHarmless lower (put k v entries)
  unfolding put
  put-AllHarmless k v [] p h = (p, tt)
  put-AllHarmless k v (a ∷ rest) p h = elim (Bool-cases (a.0 == k)) [
    | inl e ↦ rw e ((record { allowed = h.0.allowed; passive = p.passive }), h.1)
    | inr e ↦ rw e (h.0, put-AllHarmless k v rest p h.1)
  ]

  pub collect-AllHarmless :
      (old new : List (String × String))
      → AllHarmless lower old
      → AllHarmless lower new
      → AllHarmless lower (collect old new)
  unfolding collect
  collect-AllHarmless old [] h h' = h
  collect-AllHarmless old (a ∷ new) h h' =
      collect-AllHarmless (put a.0 a.1 old) new (put-AllHarmless a.0 a.1 old h'.0 h) h'.1

  checked-AllHarmless :
      (entries : List (String × String))
      → any (is_unsafe_name lower) entries ≡ false
      → any (has_active_value lower) entries ≡ false
      → AllHarmless lower entries
  checked-AllHarmless [] names values = tt
  checked-AllHarmless (a ∷ rest) names values = elim (Bool-cases (is_in a.0 allowed_attributes)) [
    | inr e ↦ absurd (clash (rw e at names))
    | inl e ↦ elim (Bool-cases (is_active lower a.1)) [
      | inl e' ↦ absurd (clash (rw e' at values))
      | inr e' ↦ (
        record { allowed = e; passive = e' },
        checked-AllHarmless rest (rw e at names) (rw e' at values),
      )
    ]
  ]
    where
      clash : true ≡ false → ⊥
      clash p = cc

  tag_checked :
      (partial : Bool) (t : Option String)
      → ((not partial || not (is_none t)) && not (is_in (tag_text t) allowed_tags)) ≡ false
      → TagSafe t
  tag_checked partial none h = tt
  tag_checked partial (some t) h = elim (Bool-cases (is_in t allowed_tags)) [
    | inl e ↦ e
    | inr e ↦ absurd (refused_tag partial (rw e at h))
  ]
    where
      refused_tag : (b : Bool) → ((not b || true) && true) ≡ false → ⊥
      refused_tag true p = cc
      refused_tag false p = cc

  checks_passed :
      (b c : Bool) (x y : CanvasError) (rest : Sanitized) (e : Element)
      → (if b then refused x else if c then refused y else rest) ≡ clean e
      → (b ≡ false) × (c ≡ false) × (rest ≡ clean e)
  checks_passed b c x y rest e h = ground arith

  of_clean :
      (e e' : Element)
      → TagSafe e.tag
      → AttributesSafe lower e.attributes
      → clean e ≡ clean e'
      → IsSafe lower e'
  of_clean e e' tag attributes same =
      subst (IsSafe lower) (element_of same) (record { tag = tag; attributes = attributes })
    where
      element_of : {a b : Element} → clean a ≡ clean b → a ≡ b
      element_of p = cc

  -- What the sanitiser lets through is safe.
  pub sanitize_element-IsSafe :
      (partial : Bool) (v : ElementValue) (e : Element)
      → sanitize_element lower partial v ≡ clean e
      → IsSafe lower e
  unfolding sanitize_element
  sanitize_element-IsSafe partial not_object e h = cc
  sanitize_element-IsSafe partial (object unknown t none text g) e h =
      let (_, fine, end) =
        checks_passed (not (is_empty_list unknown))
          ((not partial || not (is_none t)) && not (is_in (tag_text t) allowed_tags)) _ _ _ e h in
      of_clean _ e (tag_checked partial t fine) tt end
  sanitize_element-IsSafe partial (object unknown t (some not_dict) text g) e h =
      let (_, _, end) =
        checks_passed (not (is_empty_list unknown))
          ((not partial || not (is_none t)) && not (is_in (tag_text t) allowed_tags)) _ _ _ e h in
      absurd (never end)
    where
      never : {x : CanvasError} → refused x ≡ clean e → ⊥
      never p = cc
  sanitize_element-IsSafe partial (object unknown t (some (dict entries)) text g) e h =
      let (_, fine, rest) =
        checks_passed (not (is_empty_list unknown))
          ((not partial || not (is_none t)) && not (is_in (tag_text t) allowed_tags)) _ _ _ e h in
      let (names, values, end) =
        checks_passed (any (is_unsafe_name lower) entries) (any (has_active_value lower) entries) _
          _ _ e rest in
      of_clean _ e (tag_checked partial t fine) (checked-AllHarmless entries names values) end
