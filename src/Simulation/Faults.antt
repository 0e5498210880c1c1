-- ===== src/Simulation/Faults.antt =====
-- What `run_canvas_simulation` (src/pelicanbench/simulation.py) executes.
use pelican_bench.Base.{
  ℕ, suc, ◌≡◌, ◌⊎◌, refl, sym, ap, subst, ◌∙◌, true, false, not, Option, none, some, List, [], ◌∷◌,
  arith, eqb, eqb_iff, is_none, inl, inr, Bool-cases, Option-cases, String,
}
use pelican_bench.Base.Int.{ℤ, pos, ltb_ℤ, pos_part}
use pelican_bench.Base.Lists.{All, Has}
use pelican_bench.Base.Attempt.{returns, returns-injective, refuse_if_returns, >>=-eq-returns}
use pelican_bench.Canvas.Actions.{Elements, Action, Canvas}
use pelican_bench.Canvas.Envelope.{envelope_step, envelope_reset, canvas_hash}
use pelican_bench.Simulation.Replay.{
  negative_seed, max_elements_not_positive, negative_fault_index, duplicate_fault_index,
  SimulationStep, FaultInjection, ReceiptPayload, SimulationReceipt, find_fault, fault_map,
  executed_of, count_errors, new_canvas, simulate, run_canvas_simulation,
}

some_action : {a b : Action} → some a ≡ some b → a ≡ b
some_action p = cc

natural : (z : ℤ) → ltb_ℤ z (pos 0) ≡ false → z ≡ pos (pos_part z)
natural z h = ground arith

found_none : (o : Option Action) → not (is_none o) ≡ false → o ≡ none
found_none none h = refl
found_none (some a) h = cc

-- what a round of the loop over the faults has found out
record Placed (f : FaultInjection) (faults : List FaultInjection) (found end : List (ℕ × Action))
    : Type 0 where
  pub at : f.index ≡ pos (pos_part f.index)
  pub unused : find_fault (pos_part f.index) found ≡ none
  pub rest : fault_map faults ((pos_part f.index, f.replacement) ∷ found) ≡ returns end

placed :
    (f : FaultInjection) (faults : List FaultInjection) (found end : List (ℕ × Action))
    → fault_map (f ∷ faults) found ≡ returns end
    → Placed f faults found end
unfolding fault_map
placed f faults found end h =
    let (fine, h₁) = refuse_if_returns (ltb_ℤ f.index (pos 0)) negative_fault_index _ h in
    let n = pos_part f.index in
    let (fresh, h₂) =
      refuse_if_returns (not (is_none (find_fault n found))) (duplicate_fault_index n) _ h₁ in
    record { at = natural f.index fine; unused = found_none (find_fault n found) fresh; rest = h₂ }

-- What is in the map stays there.
fault_map-kept :
    (faults : List FaultInjection) (found end : List (ℕ × Action)) (n : ℕ) (a : Action)
    → fault_map faults found ≡ returns end
    → find_fault n found ≡ some a
    → find_fault n end ≡ some a
unfolding fault_map find_fault
fault_map-kept [] found end n a h at =
    subst (λ (x : List (ℕ × Action)). find_fault n x ≡ some a) (returns-injective h) at
fault_map-kept (f ∷ faults) found end n a h at =
    let p = placed f faults found end h in
    let there : find_fault n ((pos_part f.index, f.replacement) ∷ found) ≡ some a =
      elim (Bool-cases (eqb (pos_part f.index) n)) [
        | inl e ↦
            absurd
              (clash at (subst (λ (k : ℕ). find_fault k found ≡ none) ((eqb_iff _ n).0 e) p.unused))
        | inr e ↦ rw e at
      ] in
    fault_map-kept faults ((pos_part f.index, f.replacement) ∷ found) end n a p.rest there
  where
    clash : {v : Action} {o : Option Action} → o ≡ some v → o ≡ none → ⊥
    clash p q = cc

eqb_refl : (n : ℕ) → eqb n n ≡ true
eqb_refl n = ground arith

-- Every fault is in the map, under its index.
fault_map-Has :
    (faults : List FaultInjection) (found end : List (ℕ × Action)) (f : FaultInjection) (n : ℕ)
    → fault_map faults found ≡ returns end
    → Has f faults
    → f.index ≡ pos n
    → find_fault n end ≡ some f.replacement
unfolding fault_map find_fault
fault_map-Has [] found end f n h at same = absurd at
fault_map-Has (g ∷ faults) found end f n h (inr later) same =
    fault_map-Has faults _ end f n (placed g faults found end h).rest later same
fault_map-Has (g ∷ faults) found end f n h (inl here) same =
    let p = placed g faults found end h in
    let k = pos_part g.index in
    let index : k ≡ n =
      ap (λ (x : FaultInjection). pos_part x.index) here ∙ ap (λ (z : ℤ). pos_part z) same in
    let kept : find_fault k end ≡ some g.replacement =
      fault_map-kept faults ((k, g.replacement) ∷ found) end k g.replacement p.rest
        (rw (eqb_refl k) refl) in
    subst (λ (j : ℕ). find_fault j end ≡ some f.replacement) index
      (kept ∙ ap (λ (x : FaultInjection). some x.replacement) here)

-- What the map has is from a fault, or was there.
fault_map-from :
    (faults : List FaultInjection) (found end : List (ℕ × Action)) (n : ℕ) (a : Action)
    → fault_map faults found ≡ returns end
    → find_fault n end ≡ some a
    → (find_fault n found ≡ some a) ⊎ ((f : FaultInjection) × Has f faults × (f.index ≡ pos n))
unfolding fault_map find_fault
fault_map-from [] found end n a h at =
    inl (subst (λ (x : List (ℕ × Action)). find_fault n x ≡ some a) (sym (returns-injective h)) at)
fault_map-from (f ∷ faults) found end n a h at =
    let p = placed f faults found end h in
    elim (fault_map-from faults ((pos_part f.index, f.replacement) ∷ found) end n a p.rest at) [
      | inr (g, later, same) ↦ inr (g, inr later, same)
      | inl there ↦ elim (Bool-cases (eqb (pos_part f.index) n)) [
        | inl e ↦
            inr (f, inl refl, p.at ∙ ap (λ (k : ℕ). pos k) ((eqb_iff (pos_part f.index) n).0 e))
        | inr e ↦ inl (rw e at there)
      ]
    ]

-- A step executes the replacement of the fault at its index, and what was requested where there is none.
pub record IsInjected (faults : List FaultInjection) (s : SimulationStep) : Type 0 where
  pub replaced :
      (f : FaultInjection)
      → Has f faults
      → f.index ≡ pos s.index
      → s.executed_action ≡ f.replacement
  pub as_requested :
      ((f : FaultInjection) → Has f faults → f.index ≡ pos s.index → ⊥)
      → s.executed_action ≡ s.requested_action

abbrev pub requested_actions : List SimulationStep → List Action
requested_actions [] = []
requested_actions (s ∷ steps) = s.requested_action ∷ requested_actions steps

-- The steps are those of the actions, in order, with indices from `n`.
abbrev pub IndexedFrom : ℕ → List SimulationStep → Type 0
IndexedFrom n [] = Unit
IndexedFrom n (s ∷ steps) = (s.index ≡ n) × IndexedFrom (suc n) steps

module _ (lower : String → String) (hash : Elements → String) (text : ℕ → String) where
  -- The canvas goes from `c` to `end` by the actions that the steps say were executed, one after the
  -- other, and each step tells what its action gave.
  abbrev pub Executes : Canvas → List SimulationStep → Canvas → Type 0
  Executes c [] end = c ≡ end
  Executes c (s ∷ steps) end =
      let o = envelope_step lower hash text s.executed_action c in
      (s.error ≡ o.error)
      × (s.reward ≡ o.reward)
      × (s.observation_hash ≡ canvas_hash hash o.canvas)
      × Executes o.canvas steps end

-- The number of steps with an error.
abbrev pub errors_in : List SimulationStep → ℕ
errors_in [] = 0
errors_in (s ∷ steps) = elim s.error [ none ↦ errors_in steps | some _ ↦ suc (errors_in steps) ]

pub record IsFaithful (lower : String → String) (hash : Elements → String) (text : ℕ → String)
    (limit : ℤ) (faults : List FaultInjection) (actions : List Action) (r : SimulationReceipt)
    : Type 0 where
  pub requested : requested_actions r.steps ≡ actions
  pub indexed : IndexedFrom 0 r.steps
  pub injected : All (IsInjected faults) r.steps
  pub end : Canvas
  pub executed : Executes lower hash text (new_canvas (pos_part limit)) r.steps end
  pub final : r.final_state_hash ≡ canvas_hash hash end
  pub errors : r.error_count ≡ errors_in r.steps

module _ (lower : String → String) (hash : Elements → String) (text : ℕ → String)
    (svg_hash : Canvas → String) (receipt : ReceiptPayload → String) where
  simulate-requested :
      (found : List (ℕ × Action)) (n : ℕ) (actions : List Action) (c : Canvas)
      → requested_actions (simulate lower hash text svg_hash receipt found n actions c).0 ≡ actions
  unfolding simulate
  simulate-requested found n [] c = refl
  simulate-requested found n (a ∷ actions) c =
      ap (λ (x : List Action). a ∷ x) (simulate-requested found (suc n) actions _)

  simulate-IndexedFrom :
      (found : List (ℕ × Action)) (n : ℕ) (actions : List Action) (c : Canvas)
      → IndexedFrom n (simulate lower hash text svg_hash receipt found n actions c).0
  unfolding simulate
  simulate-IndexedFrom found n [] c = tt
  simulate-IndexedFrom found n (a ∷ actions) c =
      (refl, simulate-IndexedFrom found (suc n) actions _)

  simulate-Executes :
      (found : List (ℕ × Action)) (n : ℕ) (actions : List Action) (c : Canvas)
      → Executes lower hash text c
          (simulate lower hash text svg_hash receipt found n actions c).0
          (simulate lower hash text svg_hash receipt found n actions c).1
  unfolding simulate
  simulate-Executes found n [] c = refl
  simulate-Executes found n (a ∷ actions) c =
      (refl, refl, refl, simulate-Executes found (suc n) actions _)

  count_errors-errors_in : (steps : List SimulationStep) → count_errors steps ≡ errors_in steps
  unfolding count_errors
  count_errors-errors_in [] = refl
  count_errors-errors_in (s ∷ steps) = elim (Option-cases s.error) [
    | inl e ↦ rw e (omega (arith, count_errors-errors_in steps))
    | inr (x, e) ↦ rw e (omega (arith, count_errors-errors_in steps))
  ]

  simulate-IsInjected :
      (faults : List FaultInjection) (found : List (ℕ × Action))
      → fault_map faults [] ≡ returns found
      → (n : ℕ) (actions : List Action) (c : Canvas)
      → All (IsInjected faults) (simulate lower hash text svg_hash receipt found n actions c).0
  unfolding simulate find_fault
  simulate-IsInjected faults found filled n [] c = tt
  simulate-IsInjected faults found filled n (a ∷ actions) c = (
    record {
      replaced = λ f has same.
          ap (λ (o : Option Action). elim o [ none ↦ a | some b ↦ b ])
            (fault_map-Has faults [] found f n filled has same);
      as_requested = λ free. unchanged free;
    },
    simulate-IsInjected faults found filled (suc n) actions _,
  )
    where
      unchanged :
          ((f : FaultInjection) → Has f faults → f.index ≡ pos n → ⊥) → executed_of found n a ≡ a
      unchanged free = elim (Option-cases (find_fault n found)) [
        | inl missing ↦ rw (missing, executed_of) refl
        | inr (b, there) ↦ elim (fault_map-from faults [] found n b filled there) [
          | inl p ↦ cc
          | inr (f, has, same) ↦ absurd (free f has same)
        ]
      ]

  -- A simulation that returned has one step for each action, in order and indexed from 0. The executed
  -- action of a step is the replacement of the fault at its index, and the requested action where no fault
  -- has that index. The executed actions, one after the other from an empty canvas, give the steps' errors,
  -- rewards and hashes and the final state's hash, and the error count is the number of steps with an
  -- error.
  pub run_canvas_simulation-IsFaithful :
      (actions : List Action) (seed limit : ℤ) (faults : List FaultInjection)
      (r : SimulationReceipt)
      → run_canvas_simulation lower hash text svg_hash receipt actions seed limit faults ≡ returns r
      → IsFaithful lower hash text limit faults actions r
  unfolding run_canvas_simulation
  run_canvas_simulation-IsFaithful actions seed limit faults r h =
      let (_, h₁) = refuse_if_returns (ltb_ℤ seed (pos 0)) negative_seed _ h in
      let (_, h₂) = refuse_if_returns (ltb_ℤ limit (pos 1)) max_elements_not_positive _ h₁ in
      let (found, filled, end) = >>=-eq-returns (fault_map faults []) _ h₂ in
      let c = (envelope_reset (new_canvas (pos_part limit))).canvas in
      subst (IsFaithful lower hash text limit faults actions) (returns-injective end) (record {
        requested = simulate-requested found 0 actions c;
        indexed = simulate-IndexedFrom found 0 actions c;
        injected = simulate-IsInjected faults found filled 0 actions c;
        end = (simulate lower hash text svg_hash receipt found 0 actions c).1;
        executed = simulate-Executes found 0 actions c;
        final = refl;
        errors =
            count_errors-errors_in (simulate lower hash text svg_hash receipt found 0 actions c).0;
      })
