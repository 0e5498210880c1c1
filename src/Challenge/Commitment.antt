-- ===== src/Challenge/Commitment.antt =====
-- `commit_challenge`, `reveal_challenge` and `verify_challenge` of src/pelicanbench/challenge.py.
use pelican_bench.Base.{ℕ, suc, String, Bool, true, false, not, List, [], ◌∷◌, ◌==◌, ◌&&◌, ◌||◌}
use pelican_bench.Base.Int.{ℤ}
use pelican_bench.Base.Lists.{length, any, all}
use pelican_bench.Base.Text.{◌^^◌}
use pelican_bench.Base.Attempt.{Attempt, returns, ◌>>◌, refuse_if}

-- `reveal_challenge` raises ValueError
pub data ChallengeError : Type 0 where
  tasks_do_not_match : ChallengeError

-- a payload of the reveals
pub record Reveal (Task : Type 0) : Type 0 where
  pub task : Task
  pub salt : String

-- what is published
pub record ChallengeCommitment : Type 0 where
  pub release : String
  pub created_at : String
  pub task_count : ℕ
  pub commitments : List String

pub record Verification : Type 0 where
  pub valid : Bool
  pub revealed : ℕ
  pub committed : ℕ
  pub full : Bool

-- `actual == expected`
unfoldable pub same_texts : List String → List String → Bool
same_texts [] [] = true
same_texts [] (_ ∷ _) = false
same_texts (_ ∷ _) [] = false
same_texts (x ∷ xs) (y ∷ ys) = (x == y) && same_texts xs ys

-- `x in expected`
abbrev pub is_expected : List String → String → Bool
is_expected expected x = any (λ (y : String). y == x) expected

-- `sha` is the hexadecimal SHA-256 of a text, `text_of_seed` and `text` are `str`
abbrev pub challenge_key : (String → String) → (ℤ → String) → String → ℤ → String
challenge_key sha text_of_seed release seed = sha (release ^^ ":" ^^ text_of_seed seed)

module _ {Task : Type 0} (sha : String → String) (text : ℕ → String) where
  -- the loop, from the task at `i`
  unfoldable pub reveals_from : String → ℕ → List Task → List (Reveal Task)
  reveals_from key i [] = []
  reveals_from key i (item ∷ items) =
      record { task = item; salt = sha (key ^^ ":" ^^ text i) } ∷ reveals_from key (suc i) items

-- `hash` is `content_hash`
module _ {Task : Type 0} (hash : Reveal Task → String) where
  -- `[content_hash(x) for x in reveals]`
  unfoldable pub hashes_of : List (Reveal Task) → List String
  hashes_of [] = []
  hashes_of (r ∷ reveals) = hash r ∷ hashes_of reveals

  -- `commit_challenge`: the commitment and the secrets
  abbrev pub commit_challenge :
      (String → String)
      → (ℤ → String)
      → (ℕ → String)
      → List Task
      → String
      → ℤ
      → String
      → ChallengeCommitment × List (Reveal Task)
  commit_challenge sha text_of_seed text tasks release seed created_at =
      let key = challenge_key sha text_of_seed release seed in
      let reveals = reveals_from sha text key 0 tasks in
      (
        record {
          release = release;
          created_at = created_at;
          task_count = length tasks;
          commitments = hashes_of reveals;
        },
        reveals,
      )

  -- `verify_challenge`
  abbrev pub verify_challenge : ChallengeCommitment → List (Reveal Task) → Bool → Verification
  verify_challenge commitment values require_full =
      let actual = hashes_of values in
      let expected = commitment.commitments in
      record {
        valid =
            all (is_expected expected) actual && (not require_full || same_texts actual expected);
        revealed = length values;
        committed = length expected;
        full = same_texts actual expected;
      }

-- `same` is the `==` of two tasks
module _ {Task : Type 0} (same : Task → Task → Bool) where
  -- `[x["task"] for x in reveals] == list(values)`
  unfoldable pub are_tasks_of : List (Reveal Task) → List Task → Bool
  are_tasks_of [] [] = true
  are_tasks_of [] (_ ∷ _) = false
  are_tasks_of (_ ∷ _) [] = false
  are_tasks_of (r ∷ reveals) (t ∷ tasks) = same r.task t && are_tasks_of reveals tasks

  -- `reveal_challenge`, which does not read the commitment
  abbrev pub reveal_challenge :
      ChallengeCommitment
      → List Task
      → List (Reveal Task)
      → Attempt ChallengeError (List (Reveal Task))
  reveal_challenge commitment tasks secrets =
      refuse_if (not (are_tasks_of secrets tasks)) tasks_do_not_match >> returns secrets
