-- ===== src/Challenge/Binding.antt =====
-- What a commitment of src/pelicanbench/challenge.py binds to.
use pelican_bench.Base.{
  ℕ, String, ◌≡◌, ◌≢◌, ◌⊎◌, refl, Bool, true, not, List, [], ◌∷◌, ◌==◌, ◌||◌, eq_iff, inl, inr,
  Bool-cases, &&-eq-true,
}
use pelican_bench.Base.Int.{ℤ}
use pelican_bench.Base.Lists.{all, All, Has}
use pelican_bench.Challenge.Commitment.{
  Reveal, same_texts, is_expected, hashes_of, commit_challenge, verify_challenge,
}

-- Two different payloads with the same hash.
pub record Collision {Task : Type 0} (hash : Reveal Task → String) : Type 0 where
  pub one : Reveal Task
  pub two : Reveal Task
  pub different : one ≢ two
  pub same_hash : hash one ≡ hash two

module _ {Task : Type 0} (hash : Reveal Task → String) (sha : String → String)
    (text_of_seed : ℤ → String) (text : ℕ → String)
    (decide : (a b : Reveal Task) → (a ≡ b) ⊎ (a ≢ b)) where
  collides : (a b : Reveal Task) → hash a ≡ hash b → Collision hash ⊎ (a ≡ b)
  collides a b h = elim (decide a b) [
    | inl e ↦ inr e
    | inr n ↦ inl (record { one = a; two = b; different = n; same_hash = h })
  ]

  expected-Has :
      (r : Reveal Task) (secrets : List (Reveal Task))
      → is_expected (hashes_of hash secrets) (hash r) ≡ true
      → Collision hash ⊎ Has r secrets
  unfolding hashes_of
  expected-Has r [] h = cc
  expected-Has r (s ∷ secrets) h = elim (Bool-cases (hash s == hash r)) [
    | inl e ↦ elim (collides s r ((eq_iff (hash s) (hash r)).0 e)) [
      | inl c ↦ inl c
      | inr same ↦ inr (inl same)
    ]
    | inr e ↦ elim (expected-Has r secrets (rw e at h)) [
      | inl c ↦ inl c
      | inr later ↦ inr (inr later)
    ]
  ]

  all-Has :
      (values secrets : List (Reveal Task))
      → all (is_expected (hashes_of hash secrets)) (hashes_of hash values) ≡ true
      → Collision hash ⊎ All (λ (r : Reveal Task). Has r secrets) values
  unfolding hashes_of
  all-Has [] secrets h = inr tt
  all-Has (r ∷ values) secrets h =
      let expected = hashes_of hash secrets in
      let (here, rest) =
        &&-eq-true (is_expected expected (hash r))
          (all (is_expected expected) (hashes_of hash values)) h in
      elim (expected-Has r secrets here) [
        | inl c ↦ inl c
        | inr at ↦ elim (all-Has values secrets rest) [
          | inl c ↦ inl c
          | inr others ↦ inr (at, others)
        ]
      ]

  same_hashes :
      (values secrets : List (Reveal Task))
      → same_texts (hashes_of hash values) (hashes_of hash secrets) ≡ true
      → Collision hash ⊎ (values ≡ secrets)
  unfolding hashes_of same_texts
  same_hashes [] [] h = inr refl
  same_hashes [] (s ∷ secrets) h = cc
  same_hashes (r ∷ values) [] h = cc
  same_hashes (r ∷ values) (s ∷ secrets) h =
      let (here, rest) =
        &&-eq-true (hash r == hash s) (same_texts (hashes_of hash values) (hashes_of hash secrets))
          h in
      elim (collides r s ((eq_iff (hash r) (hash s)).0 here)) [
        | inl c ↦ inl c
        | inr e ↦ elim (same_hashes values secrets rest) [
          | inl c ↦ inl c
          | inr others ↦ inr (λ i. e i ∷ others i)
        ]
      ]

  -- Payloads that verify against the commitment of a challenge, all of them required or not, are each
  -- among its reveals, or two different payloads with the same hash have been found.
  pub verify_challenge-Has :
      (tasks : List Task) (release : String) (seed : ℤ) (created_at : String) (require_full : Bool)
      (values : List (Reveal Task))
      → (verify_challenge hash
          (commit_challenge hash sha text_of_seed text tasks release seed created_at).0
          values
          require_full).valid
        ≡ true
      → Collision hash
        ⊎ All
            (λ (r : Reveal Task).
              Has r (commit_challenge hash sha text_of_seed text tasks release seed created_at).1)
            values
  verify_challenge-Has tasks release seed created_at require_full values h =
      let c = commit_challenge hash sha text_of_seed text tasks release seed created_at in
      let actual = hashes_of hash values in
      all-Has values c.1
        (&&-eq-true (all (is_expected c.0.commitments) actual)
          (not require_full || same_texts actual c.0.commitments) h).0

  -- Payloads that verify against the commitment of a challenge, all of them required, are just its
  -- reveals, in their order, or two different payloads with the same hash have been found.
  pub verify_challenge-commit_challenge :
      (tasks : List Task) (release : String) (seed : ℤ) (created_at : String)
      (values : List (Reveal Task))
      → (verify_challenge hash
          (commit_challenge hash sha text_of_seed text tasks release seed created_at).0
          values
          true).valid
        ≡ true
      → Collision hash
        ⊎ (values ≡ (commit_challenge hash sha text_of_seed text tasks release seed created_at).1)
  verify_challenge-commit_challenge tasks release seed created_at values h =
      let c = commit_challenge hash sha text_of_seed text tasks release seed created_at in
      let actual = hashes_of hash values in
      same_hashes values c.1
        (&&-eq-true (all (is_expected c.0.commitments) actual)
          (not true || same_texts actual c.0.commitments) h).1
