-- ===== src/Tests/Challenges.antt =====
-- The theorems on sealed challenges, at a challenge of two tasks.
use pelican_bench.Base.{
  String, ◌≡◌, ◌≢◌, ◌⊎◌, refl, ap, Bool, true, false, List, [], ◌∷◌, ◌==◌, eq_iff, eq_refl, inl,
  inr, Bool-cases,
}
use pelican_bench.Base.Int.{ℤ, pos}
use pelican_bench.Base.Lists.{All, Has}
use pelican_bench.Base.Text.{◌^^◌}
use pelican_bench.Base.Attempt.{returns}
use pelican_bench.Challenge.Commitment.{
  Reveal, ChallengeCommitment, same_texts, reveals_from, hashes_of, commit_challenge,
  verify_challenge, reveal_challenge,
}
use pelican_bench.Challenge.Opening.{reveal_challenge-commit_challenge}
use pelican_bench.Challenge.Binding.{
  Collision, verify_challenge-Has, verify_challenge-commit_challenge,
}
use pelican_bench.Tests.Samples.{unary}

abbrev payload_text : Reveal String → String
payload_text r = r.task ^^ "|" ^^ r.salt

abbrev plain : String → String
plain s = s

abbrev seed_text : ℤ → String
seed_text seed = "1"

abbrev challenge_tasks : List String
challenge_tasks = "a pelican" ∷ "a bicycle" ∷ []

same_task : String → String → Bool
same_task a b = a == b

same_task_refl : (t : String) → same_task t t ≡ true
unfolding same_task
same_task_refl t = eq_refl t

decide_text : (a b : String) → (a ≡ b) ⊎ (a ≢ b)
decide_text a b = elim (Bool-cases (a == b)) [
  | inl e ↦ inl ((eq_iff a b).0 e)
  | inr e ↦ inr (λ same. clash e ((eq_iff a b).1 same))
]
  where
    clash : {c : Bool} → c ≡ false → c ≡ true → ⊥
    clash p q = cc

decide_reveal : (a b : Reveal String) → (a ≡ b) ⊎ (a ≢ b)
decide_reveal a b = elim (decide_text a.task b.task) [
  | inr n ↦ inr (λ same. n (ap (λ (r : Reveal String). r.task) same))
  | inl e ↦ elim (decide_text a.salt b.salt) [
    | inr n ↦ inr (λ same. n (ap (λ (r : Reveal String). r.salt) same))
    | inl e' ↦ inl (λ i. record { task = e i; salt = e' i })
  ]
]

abbrev challenge : ChallengeCommitment × List (Reveal String)
challenge = commit_challenge payload_text plain seed_text unary challenge_tasks "v1" (pos 1) "now"

reveal_challenge-commit_challenge_example :
    (reveal_challenge same_task challenge.0 challenge_tasks challenge.1 ≡ returns challenge.1)
    × (verify_challenge payload_text challenge.0 challenge.1 true
        ≡ record { valid = true; revealed = 2; committed = 2; full = true })
reveal_challenge-commit_challenge_example =
    reveal_challenge-commit_challenge payload_text plain seed_text unary same_task same_task_refl
      challenge_tasks "v1" (pos 1) "now" true

-- the second task alone
abbrev second_reveal : List (Reveal String)
second_reveal = record { task = "a bicycle"; salt = "v1:1:x" } ∷ []

second_is_valid : (verify_challenge payload_text challenge.0 second_reveal false).valid ≡ true
unfolding hashes_of reveals_from same_texts
second_is_valid = refl

verify_challenge-Has_example :
    Collision payload_text ⊎ All (λ (r : Reveal String). Has r challenge.1) second_reveal
verify_challenge-Has_example =
    verify_challenge-Has payload_text plain seed_text unary decide_reveal challenge_tasks "v1"
      (pos 1) "now" false second_reveal second_is_valid

abbrev both_reveals : List (Reveal String)
both_reveals = record { task = "a pelican"; salt = "v1:1:" } ∷ second_reveal

both_are_valid : (verify_challenge payload_text challenge.0 both_reveals true).valid ≡ true
unfolding hashes_of reveals_from same_texts
both_are_valid = refl

verify_challenge-commit_challenge_example : Collision payload_text ⊎ (both_reveals ≡ challenge.1)
verify_challenge-commit_challenge_example =
    verify_challenge-commit_challenge payload_text plain seed_text unary decide_reveal
      challenge_tasks "v1" (pos 1) "now" both_reveals both_are_valid
