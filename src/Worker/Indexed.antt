-- ===== src/Worker/Indexed.antt =====
-- The dicts `event_map` and `record_map` of `reconcile_campaign_execution_records`
-- (src/pelicanbench/campaign_worker.py), where filling them has found no error.
use pelican_bench.Base.{
  ◌≡◌, ◌⊎◌, refl, sym, subst, Bool, true, Option, none, some, List, [], ◌∷◌, ◌==◌, eq_iff, eq_refl,
  eqb, eqb_iff, ◌&&◌, inl, inr, Bool-cases, Option-cases, &&-eq-true,
}
use pelican_bench.Base.Lists.{All, Has, select}
use pelican_bench.Worker.Reconcile.{Key, same_key, Mismatch, find_key, index_by, keys_of}

pub eq_of_same_key : (a b : Key) → same_key a b ≡ true → a ≡ b
eq_of_same_key a b h =
    let (texts, tries) =
      &&-eq-true ((a.cell_id == b.cell_id) && (a.lease_token == b.lease_token))
        (eqb a.attempt b.attempt) h in
    let (cell, token) =
      &&-eq-true (a.cell_id == b.cell_id) (a.lease_token == b.lease_token) texts in
    let ec = (eq_iff a.cell_id b.cell_id).0 cell in
    let et = (eq_iff a.lease_token b.lease_token).0 token in
    let ea = (eqb_iff a.attempt b.attempt).0 tries in
    λ i. record { cell_id = ec i; lease_token = et i; attempt = ea i }

same_key_refl : (a : Key) → same_key a a ≡ true
same_key_refl a =
    rw (eq_refl a.cell_id, eq_refl a.lease_token) ((eqb_iff a.attempt a.attempt).1 refl)

module _ {A : Type 0} where
  some_value : {x y : A} → some x ≡ some y → x ≡ y
  some_value p = cc

  -- What holds of all keys of a dict, holds of a key that is found.
  pub found-keys :
      (P : Key → Type 0) (k : Key) (x : A) (found : List (Key × A))
      → All P (keys_of found)
      → find_key k found ≡ some x
      → P k
  unfolding find_key
  found-keys P k x [] h at = cc
  found-keys P k x (entry ∷ rest) h at = elim (Bool-cases (same_key entry.0 k)) [
    | inl e ↦ subst P (eq_of_same_key entry.0 k e) h.0
    | inr e ↦ found-keys P k x rest h.1 (rw e at at)
  ]

  -- So does what holds of all keys that pass a test, of a key that passes it.
  pub found-select :
      (P : Key → Type 0) (test : Key → Bool) (k : Key) (x : A) (found : List (Key × A))
      → All P (select test (keys_of found))
      → test k ≡ true
      → find_key k found ≡ some x
      → P k
  unfolding find_key
  found-select P test k x [] h passes at = cc
  found-select P test k x (entry ∷ rest) h passes at = elim (Bool-cases (same_key entry.0 k)) [
    | inl e ↦
        let same = eq_of_same_key entry.0 k e in
        let here : test entry.0 ≡ true = rw same passes in subst P same ((rw here at h).0)
    | inr e ↦ elim (Bool-cases (test entry.0)) [
      | inl t ↦ found-select P test k x rest ((rw t at h).1) passes (rw e at at)
      | inr t ↦ found-select P test k x rest (rw t at h) passes (rw e at at)
    ]
  ]

  module _ (key_of : A → Option Key) (no_key : A → Mismatch) (twice : Key → Mismatch) where
    -- what a round without an error has found out
    pub record Fresh (x : A) (xs : List A) (found : List (Key × A)) : Type 0 where
      pub key : Key
      pub has_key : key_of x ≡ some key
      pub unused : find_key key found ≡ none
      pub result :
          index_by key_of no_key twice (x ∷ xs) found
          ≡ index_by key_of no_key twice xs ((key, x) ∷ found)

    pub round_ok :
        (x : A) (xs : List A) (found : List (Key × A))
        → (index_by key_of no_key twice (x ∷ xs) found).1 ≡ []
        → Fresh x xs found
    unfolding index_by
    round_ok x xs found h = elim (Option-cases (key_of x)) [
      | inl missing ↦ absurd (not_empty (rw (missing, index_by) at h))
      | inr (k, at) ↦ elim (Option-cases (find_key k found)) [
        | inr (y, there) ↦ absurd (not_empty (rw (at, there, index_by) at h))
        | inl unused ↦ record {
          key = k;
          has_key = at;
          unused = unused;
          result = rw (at, unused, index_by) refl;
        }
      ]
    ]
      where
        not_empty : {e : Mismatch} {es : List Mismatch} → e ∷ es ≡ [] → ⊥
        not_empty p = cc

    -- What is in the dict stays there.
    pub index_by-kept :
        (xs : List A) (found : List (Key × A)) (k : Key) (x : A)
        → (index_by key_of no_key twice xs found).1 ≡ []
        → find_key k found ≡ some x
        → find_key k (index_by key_of no_key twice xs found).0 ≡ some x
    unfolding index_by find_key
    index_by-kept [] found k x h at = at
    index_by-kept (y ∷ ys) found k x h at =
        let f = round_ok y ys found h in
        let there : find_key k ((f.key, y) ∷ found) ≡ some x =
          elim (Bool-cases (same_key f.key k)) [
            | inl e ↦ absurd (
                clash at (
                  subst (λ (j : Key). find_key j found ≡ none) (eq_of_same_key f.key k e) f.unused))
            | inr e ↦ rw e at
          ] in
        rw f.result (index_by-kept ys ((f.key, y) ∷ found) k x (rw f.result at h) there)
      where
        clash : {v : A} {o : Option A} → o ≡ some v → o ≡ none → ⊥
        clash p q = cc

    -- Every element is found under its key.
    pub index_by-found :
        (xs : List A) (found : List (Key × A))
        → (index_by key_of no_key twice xs found).1 ≡ []
        → All
            (λ (x : A).
              (k : Key) × (key_of x ≡ some k)
              × (find_key k (index_by key_of no_key twice xs found).0 ≡ some x))
            xs
    unfolding index_by find_key
    index_by-found [] found h = tt
    index_by-found (y ∷ ys) found h =
        let f = round_ok y ys found h in
        let h' = rw f.result at h in
        let here : find_key f.key ((f.key, y) ∷ found) ≡ some y = rw (same_key_refl f.key) refl in
        subst
          (λ (out : List (Key × A) × List Mismatch).
            All (λ (x : A). (k : Key) × (key_of x ≡ some k) × (find_key k out.0 ≡ some x)) (y ∷ ys))
          (sym f.result)
          (
            (f.key, f.has_key, index_by-kept ys ((f.key, y) ∷ found) f.key y h' here),
            index_by-found ys ((f.key, y) ∷ found) h',
          )

    -- What is found was there or is an element.
    pub index_by-Has :
        (xs : List A) (found : List (Key × A)) (k : Key) (x : A)
        → (index_by key_of no_key twice xs found).1 ≡ []
        → find_key k (index_by key_of no_key twice xs found).0 ≡ some x
        → (find_key k found ≡ some x) ⊎ Has x xs
    unfolding index_by find_key
    index_by-Has [] found k x h at = inl at
    index_by-Has (y ∷ ys) found k x h at =
        let f = round_ok y ys found h in
        elim (index_by-Has ys ((f.key, y) ∷ found) k x (rw f.result at h) (rw f.result at at)) [
          | inr later ↦ inr (inr later)
          | inl there ↦ elim (Bool-cases (same_key f.key k)) [
            | inl e ↦ inr (inl (some_value (rw e at there)))
            | inr e ↦ inl (rw e at there)
          ]
        ]
