-- ===== src/Base/Dict.antt =====
-- Python's dicts with strings for keys, in the order of insertion.
use pelican_bench.Base.Tests.{if◌then◌else◌, Bool-cases}
use Prim.Native.String.{String}
use text.Mathlib.Text.{◌==◌}
use text.Mathlib.TextEquality.{eq_iff}
use text.Mathlib.TextPositions.{eq_refl}
use native.Mathlib.Omega.{arith}
use pelican_bench.Base.Lists.{length}
use Prim.Native.Nat.{suc, ◌≤◌}
use mathlib.Core.Path.{◌≡◌, refl, subst}
use mathlib.Core.Logic.{inl, inr}
use mathlib.Core.Bool.{false}
use mathlib.Core.Option.{Option, none, some}
use mathlib.Core.List.{List, [], ◌∷◌}

module _ {ℓ} {V : Type ℓ} where
  -- `values.get(key)`
  unfoldable pub get : String → List (String × V) → Option V
  get k [] = none
  get k (entry ∷ rest) = if entry.0 == k then some entry.1 else get k rest

  -- `values[key] = value`
  unfoldable pub put : String → V → List (String × V) → List (String × V)
  put k v [] = (k, v) ∷ []
  put k v (entry ∷ rest) = if entry.0 == k then (entry.0, v) ∷ rest else entry ∷ put k v rest

  -- `del values[key]`
  unfoldable pub remove : String → List (String × V) → List (String × V)
  remove k [] = []
  remove k (entry ∷ rest) = if entry.0 == k then rest else entry ∷ remove k rest

  -- a dict comprehension: the entries one after the other
  unfoldable pub collect : List (String × V) → List (String × V) → List (String × V)
  collect dict [] = dict
  collect dict (entry ∷ entries) = collect (put entry.0 entry.1 dict) entries

  pub get-put_self : (k : String) (v : V) (dict : List (String × V)) → get k (put k v dict) ≡ some v
  unfolding get put
  get-put_self k v [] = rw (eq_refl k) refl
  get-put_self k v (entry ∷ rest) = ground (arith, get-put_self k v rest)

  pub get-put_ne :
      (j k : String) (v : V) (dict : List (String × V))
      → (k == j) ≡ false
      → get j (put k v dict) ≡ get j dict
  unfolding get put
  get-put_ne j k v [] ne = ground arith
  get-put_ne j k v (entry ∷ rest) ne =
      ground (arith, get-put_ne j k v rest ne, eq_iff entry.0 k, eq_iff entry.0 j, eq_iff k j)

  pub length-put_new :
      (k : String) (v : V) (dict : List (String × V))
      → get k dict ≡ none
      → length (put k v dict) ≡ suc (length dict)
  unfolding get put
  length-put_new k v [] h = refl
  length-put_new k v (entry ∷ rest) h = ground (arith, length-put_new k v rest)

  pub length-put_found :
      (k : String) (v w : V) (dict : List (String × V))
      → get k dict ≡ some w
      → length (put k v dict) ≡ length dict
  unfolding get put
  length-put_found k v w [] h = cc
  length-put_found k v w (entry ∷ rest) h = ground (arith, length-put_found k v w rest)

  pub length-remove : (k : String) (dict : List (String × V)) → length (remove k dict) ≤ length dict
  unfolding remove
  length-remove k [] = omega arith
  length-remove k (entry ∷ rest) = ground (arith, length-remove k rest)

  module _ {κ} (P : V → Type κ) where
    -- a property of every value
    abbrev pub AllValues : List (String × V) → Type κ
    AllValues [] = Unit
    AllValues (entry ∷ rest) = P entry.1 × AllValues rest

    pub put-AllValues :
        (k : String) (v : V) (dict : List (String × V))
        → P v
        → AllValues dict
        → AllValues (put k v dict)
    unfolding put
    put-AllValues k v [] p h = (p, tt)
    put-AllValues k v (entry ∷ rest) p h = elim (Bool-cases (entry.0 == k)) [
      | inl e ↦ rw e (p, h.1)
      | inr e ↦ rw e (h.0, put-AllValues k v rest p h.1)
    ]

    pub remove-AllValues :
        (k : String) (dict : List (String × V)) → AllValues dict → AllValues (remove k dict)
    unfolding remove
    remove-AllValues k [] h = tt
    remove-AllValues k (entry ∷ rest) h = elim (Bool-cases (entry.0 == k)) [
      | inl e ↦ rw e h.1
      | inr e ↦ rw e (h.0, remove-AllValues k rest h.1)
    ]

    pub get-AllValues :
        (k : String) (v : V) (dict : List (String × V)) → AllValues dict → get k dict ≡ some v → P v
    unfolding get
    get-AllValues k v [] h found = cc
    get-AllValues k v (entry ∷ rest) h found = elim (Bool-cases (entry.0 == k)) [
      | inl e ↦ subst P (some_value (rw e at found)) h.0
      | inr e ↦ get-AllValues k v rest h.1 (rw e at found)
    ]
      where
        some_value : {a b : V} → some a ≡ some b → a ≡ b
        some_value p = cc
