-- ===== src/Challenge/Opening.antt =====
-- That what was committed can be revealed and verified (src/pelicanbench/challenge.py).
use pelican_bench.Base.{
  ℕ, suc, String, ◌≡◌, refl, ap, Bool, true, false, not, List, [], ◌∷◌, ◌==◌, ◌&&◌, ◌||◌, eq_refl,
  inl, inr,
}
use pelican_bench.Base.Int.{ℤ}
use pelican_bench.Base.Lists.{length, all, All, All-map, Has, Has-self}
use pelican_bench.Base.Attempt.{returns}
use pelican_bench.Challenge.Commitment.{
  Reveal, same_texts, is_expected, reveals_from, hashes_of, commit_challenge, verify_challenge,
  are_tasks_of, reveal_challenge, challenge_key,
}

same_texts_refl : (xs : List String) → same_texts xs xs ≡ true
unfolding same_texts
same_texts_refl [] = refl
same_texts_refl (x ∷ xs) = rw (eq_refl x, same_texts_refl xs) refl

Has-is_expected :
    (x : String) (expected : List String) → Has x expected → is_expected expected x ≡ true
Has-is_expected x [] h = absurd h
Has-is_expected x (y ∷ ys) (inl e) = rw (e, eq_refl x) refl
Has-is_expected x (y ∷ ys) (inr h) = rw (Has-is_expected x ys h) (or_true (y == x))
  where
    or_true : (b : Bool) → (b || true) ≡ true
    or_true true = refl
    or_true false = refl

All-all :
    (p : String → Bool) (xs : List String) → All (λ (x : String). p x ≡ true) xs → all p xs ≡ true
All-all p [] h = refl
All-all p (x ∷ xs) h = rw (h.0, All-all p xs h.1) refl

all_expected : (xs : List String) → all (is_expected xs) xs ≡ true
all_expected xs = All-all (is_expected xs) xs (
    All-map (λ (x : String). Has x xs) (λ (x : String). is_expected xs x ≡ true) xs
      (λ x h. Has-is_expected x xs h) (Has-self xs))

module _ {Task : Type 0} (hash : Reveal Task → String) (sha : String → String)
    (text_of_seed : ℤ → String) (text : ℕ → String) where
  length-reveals_from :
      (key : String) (i : ℕ) (tasks : List Task)
      → length (reveals_from sha text key i tasks) ≡ length tasks
  unfolding reveals_from
  length-reveals_from key i [] = refl
  length-reveals_from key i (t ∷ tasks) =
      ap (λ (n : ℕ). suc n) (length-reveals_from key (suc i) tasks)

  length-hashes_of :
      (reveals : List (Reveal Task)) → length (hashes_of hash reveals) ≡ length reveals
  unfolding hashes_of
  length-hashes_of [] = refl
  length-hashes_of (r ∷ reveals) = ap (λ (n : ℕ). suc n) (length-hashes_of reveals)

  tasks_of_reveals :
      (same : Task → Task → Bool)
      → ((t : Task) → same t t ≡ true)
      → (key : String) (i : ℕ) (tasks : List Task)
      → are_tasks_of same (reveals_from sha text key i tasks) tasks ≡ true
  unfolding reveals_from are_tasks_of
  tasks_of_reveals same same_refl key i [] = refl
  tasks_of_reveals same same_refl key i (t ∷ tasks) =
      rw (same_refl t, tasks_of_reveals same same_refl key (suc i) tasks) refl

  not_required : (b : Bool) → (true && (not b || true)) ≡ true
  not_required true = refl
  not_required false = refl

  -- Where a task equals itself: the tasks that a challenge was committed to can be revealed with its
  -- secrets, which gives all the reveals, and these verify against the commitment, whether all are
  -- required or not, as valid and full, with as many revealed and committed as there are tasks.
  pub reveal_challenge-commit_challenge :
      (same : Task → Task → Bool)
      → ((t : Task) → same t t ≡ true)
      → (tasks : List Task) (release : String) (seed : ℤ) (created_at : String)
        (require_full : Bool)
      → (reveal_challenge same
            (commit_challenge hash sha text_of_seed text tasks release seed created_at).0
            tasks
            (commit_challenge hash sha text_of_seed text tasks release seed created_at).1
          ≡ returns (commit_challenge hash sha text_of_seed text tasks release seed created_at).1)
        × (verify_challenge hash
              (commit_challenge hash sha text_of_seed text tasks release seed created_at).0
              (commit_challenge hash sha text_of_seed text tasks release seed created_at).1
              require_full
            ≡ record {
              valid = true;
              revealed = length tasks;
              committed = length tasks;
              full = true;
            })
  reveal_challenge-commit_challenge same same_refl tasks release seed created_at require_full =
      let key = challenge_key sha text_of_seed release seed in
      let reveals = reveals_from sha text key 0 tasks in
      let hashes = hashes_of hash reveals in
      (
        rw (tasks_of_reveals same same_refl key 0 tasks) refl,
        rw
            (
              all_expected hashes,
              same_texts_refl hashes,
              length-hashes_of reveals,
              length-reveals_from key 0 tasks,
              not_required require_full,
            )
            refl,
      )
