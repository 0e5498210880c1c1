-- ===== src/Worker/Costs.antt =====
-- The costs that src/pelicanbench/campaign_worker.py charges, and the outcomes that it finds.
use pelican_bench.Base.{
  ℕ, ◌*◌, ◌/◌, ◌%◌, ◌+◌, suc, ◌≡◌, ◌⊎◌, ◌↔◌, refl, sym, ap, ◌∙◌, true, String, some, List, [], ◌∷◌,
  arith, Bool-cases, inl, inr, eqb, ltb, ◌||◌, ◌&&◌,
}
use pelican_bench.Base.Int.{ℤ, pos, negsuc, ◌-ℤ◌}
use pelican_bench.Base.Dict.{get}
use pelican_bench.Campaign.{CampaignManifest, succeeded, failed}
use pelican_bench.Store.Result.{ok}
use pelican_bench.Store.Money.{finite, round8, round8_ℤ, round8_grains}
use pelican_bench.Store.Tables.{StoreLease}
use pelican_bench.Store.Journal.{Codec}
use pelican_bench.Store.Holder.{finite_cost}
use pelican_bench.Store.Sound.Holders.{InGrains}
use pelican_bench.Worker.Outcome.{
  Reported, amount, nothing, invalid, Trial, Failure, Scorecard, RunResult, reported_cost,
  first_metadata, cost_for_result, terminal_outcome, gate_holds, scored_outcome,
}

round8_whole : (n : ℕ) → (k : ℕ) × (round8 n ≡ k * 10000)
unfolding round8
round8_whole n =
    let q = n / 10000 in
    let r = n % 10000 in
    elim (Bool-cases (ltb 5000 r || (eqb r 5000 && eqb (q % 2) 1))) [
      | inl e ↦ (q + 1, rw e refl)
      | inr e ↦ (q, rw e refl)
    ]

-- Rounding twice is rounding once.
pub round8-round8 : (n : ℕ) → round8 (round8 n) ≡ round8 n
round8-round8 n =
    let (k, e) = round8_whole n in ap (λ (x : ℕ). round8 x) e ∙ round8_grains k ∙ sym e

below_zero : (a n : ℕ) → finite_cost (finite (pos 0 -ℤ pos a)) ≡ ok n → n ≡ 0
unfolding ◌-ℤ◌
below_zero a n h = ground arith

module _ (d : Codec) (m : CampaignManifest) where
  -- A rounded amount, where it can be charged at all, is a whole number of grains.
  pub rounded-InGrains : (x : ℤ) → InGrains d m (finite (round8_ℤ x))
  unfolding round8_ℤ
  rounded-InGrains (pos n) k h = rw (← charged h) (round8-round8 n)
    where
      charged : {a b : ℕ} → finite_cost (finite (pos a)) ≡ ok b → a ≡ b
      charged p = ground arith
  rounded-InGrains (negsuc n) k h = rw (below_zero (round8 (suc n)) k h) (round8_grains 0)

  -- A missing task costs nothing.
  pub zero-InGrains : InGrains d m (finite (pos 0))
  zero-InGrains k h = rw (← charged h) (round8_grains 0)
    where
      charged : {b : ℕ} → finite_cost (finite (pos 0)) ≡ ok b → 0 ≡ b
      charged p = ground arith

  Reported-cases : (r : Reported) → ((n : ℕ) × (r ≡ amount n)) ⊎ ((r ≡ nothing) ⊎ (r ≡ invalid))
  Reported-cases (amount n) = inl (n, refl)
  Reported-cases nothing = inr (inl refl)
  Reported-cases invalid = inr (inr refl)

  -- What a run is charged is a whole number of grains, whatever its adapter reports.
  pub cost_for_result-InGrains :
      (l : StoreLease) (result : RunResult) → InGrains d m (finite (cost_for_result l result).0)
  unfolding cost_for_result round8 round8_ℤ
  cost_for_result-InGrains l result =
      elim (Reported-cases (reported_cost (first_metadata result.trials))) [
        | inl (n, e) ↦ rw (e, cost_for_result) (rounded-InGrains (pos n))
        | inr (inl e) ↦ rw (e, cost_for_result) (rounded-InGrains l.estimated_cost)
        | inr (inr e) ↦ rw (e, cost_for_result) (rounded-InGrains l.estimated_cost)
      ]

-- what a run must have given for its artifact to be retained
pub record IsRetained (result : RunResult) : Type 0 where
  pub clean : result.failures ≡ []
  pub trial : Trial
  pub trials : List Trial
  pub tried : result.trials ≡ trial ∷ trials
  pub score : Scorecard
  pub others : List Scorecard
  pub scored : result.scorecards ≡ score ∷ others
  pub safe : get "safe_and_parseable" score.critical_gates ≡ some true
  pub drawn : get "nonblank_render" score.critical_gates ≡ some true
  pub judged : get "judge_input_safe" score.critical_gates ≡ some true

scored_outcome-succeeded :
    (score : Scorecard)
    → (scored_outcome score).state ≡ succeeded
    → (gate_holds score "safe_and_parseable" ≡ true)
      × (gate_holds score "nonblank_render" ≡ true)
      × (gate_holds score "judge_input_safe" ≡ true)
scored_outcome-succeeded score h = ground arith

gate_named :
    (score : Scorecard) (name : String)
    → (gate_holds score name ≡ true) ↔ (get name score.critical_gates ≡ some true)
gate_named score name = ground arith

not_succeeded : failed ≡ succeeded → ⊥
not_succeeded p = cc

-- A run ends in "succeeded" just when it has no failure and has a trial and a scorecard, and the first
-- scorecard names the three gates of parsing, drawing and the judge's input, each with true.
pub terminal_outcome-IsRetained :
    (result : RunResult) → ((terminal_outcome result).state ≡ succeeded) ↔ IsRetained result
unfolding terminal_outcome
terminal_outcome-IsRetained result =
    (there result.failures refl result.trials refl result.scorecards refl, back)
  where
    there :
        (fs : List Failure)
        → result.failures ≡ fs
        → (ts : List Trial) → result.trials ≡ ts
        → (ss : List Scorecard) → result.scorecards ≡ ss
        → (terminal_outcome result).state ≡ succeeded
        → IsRetained result
    there (f ∷ fs) e ts e' ss e'' h = absurd (not_succeeded (rw (e, terminal_outcome) at h))
    there [] e [] e' ss e'' h = absurd (not_succeeded (rw (e, e', terminal_outcome) at h))
    there [] e (t ∷ ts) e' [] e'' h =
        absurd (not_succeeded (rw (e, e', e'', terminal_outcome) at h))
    there [] e (t ∷ ts) e' (score ∷ others) e'' h =
        let (safe, drawn, judged) =
          scored_outcome-succeeded score (rw (e, e', e'', terminal_outcome) at h) in
        record {
          clean = e;
          trial = t;
          trials = ts;
          tried = e';
          score = score;
          others = others;
          scored = e'';
          safe = (gate_named score "safe_and_parseable").0 safe;
          drawn = (gate_named score "nonblank_render").0 drawn;
          judged = (gate_named score "judge_input_safe").0 judged;
        }

    back : IsRetained result → (terminal_outcome result).state ≡ succeeded
    back r =
        rw (r.clean, r.tried, r.scored, terminal_outcome)
          (ground (
            arith,
            (gate_named r.score "safe_and_parseable").1 r.safe,
            (gate_named r.score "nonblank_render").1 r.drawn,
            (gate_named r.score "judge_input_safe").1 r.judged,
          ))
