-- ===== src/Chain/Selected.antt =====
-- What a call of `lease_ready_cells` (src/pelicanbench/campaign.py) that returned has leased.
use pelican_bench.Base.{
  ℕ, suc, ◌+◌, ◌≤◌, String, ◌≡◌, ◌≢◌, refl, sym, ap, subst, subst₂, ◌∙◌, false, none, some, List,
  [], ◌∷◌, ◌++◌, arith, ltb, leb, ◌==◌, eq_iff, ◌||◌, if◌then◌else◌, Bool-cases, Option-cases, inl,
  inr,
}
use text.Mathlib.Text.{starts_with}
use pelican_bench.Base.Int.{int_laws, ℤ, pos, ◌+ℤ◌, ◌≤ℤ◌, ltb_ℤ, +ℤ_assoc, +ℤ_zero, ≤ℤ_of_not_lt}
use pelican_bench.Base.Lists.{length_snoc, All, length}
use pelican_bench.Base.Dict.{get, put, get-put_self, get-put_ne}
use pelican_bench.Base.Text.{is_blank}
use pelican_bench.Campaign.{CampaignManifest, CampaignCell, CellState, leased}
use pelican_bench.Store.Result.{
  Result, ok, err, >>=-eq-ok, ok-injective, ok-pair, raise_if_ok, worker_id_required,
  hard_budget_required, budget_gate_blocked, limit_not_positive,
}
use pelican_bench.Store.Money.{or_zero}
use pelican_bench.Store.Queries.{one_if}
use pelican_bench.Chain.Events.{
  CampaignEvent, ChainPayload, ChainReplay, next_replay, event_of, payload_of,
  replay_campaign_events, append_campaign_event,
}
use pelican_bench.Chain.Leasing.{
  Selection, choose, select_cell, select_cells, lease_event, append_leases, active_by_model,
  chain_reserved, cells_by_id, next_ready_cells, ChainLeaseRequest, lease_ready_cells,
}
use pelican_bench.Chain.Append.{append-Appended}

-- the estimates of cells, and how many are of a model
unfoldable pub estimates : List CampaignCell → ℤ
estimates [] = pos 0
estimates (c ∷ cells) = or_zero c.estimated_cost +ℤ estimates cells

unfoldable pub of_model : String → List CampaignCell → ℕ
of_model model [] = 0
of_model model (c ∷ cells) = one_if (c.model_id == model) + of_model model cells

estimates_snoc :
    (cells : List CampaignCell) (c : CampaignCell)
    → estimates (cells ++ c ∷ []) ≡ estimates cells +ℤ or_zero c.estimated_cost
unfolding estimates
estimates_snoc [] c = omega int_laws
estimates_snoc (x ∷ cells) c =
    rw (estimates_snoc cells c)
      (sym (+ℤ_assoc (or_zero x.estimated_cost) (estimates cells) (or_zero c.estimated_cost)))

of_model_snoc :
    (model : String) (cells : List CampaignCell) (c : CampaignCell)
    → of_model model (cells ++ c ∷ []) ≡ of_model model cells + one_if (c.model_id == model)
unfolding of_model
of_model_snoc model [] c = omega arith
of_model_snoc model (x ∷ cells) c = omega (arith, of_model_snoc model cells c)

module _ (budget total : ℤ) (cap limit : ℕ) (first : Selection) where
  -- What the variables of the loop stand for.
  record Chosen (l : Selection) : Type 0 where
    within : l.selected ≢ [] → total +ℤ l.reserved ≤ℤ budget
    reserved : l.reserved ≡ first.reserved +ℤ estimates l.selected
    active : (model : String) → l.active model ≡ first.active model + of_model model l.selected
    capped : (model : String) → first.active model ≤ cap → l.active model ≤ cap
    count : length l.selected ≤ limit

  choose-Chosen :
      (cell : CampaignCell) (estimate : ℤ) (l : Selection)
      → Chosen l
      → (leb limit (length l.selected) || leb cap (l.active cell.model_id)) ≡ false
      → cell.estimated_cost ≡ some estimate
      → ltb_ℤ budget (total +ℤ l.reserved +ℤ estimate) ≡ false
      → Chosen (choose cell estimate l)
  choose-Chosen cell estimate l h room priced fits = record {
    within = λ _.
        rw (← +ℤ_assoc total l.reserved estimate)
          (≤ℤ_of_not_lt (total +ℤ l.reserved +ℤ estimate) budget fits);
    reserved =
        rw (h.reserved, estimates_snoc l.selected cell, priced)
          (+ℤ_assoc first.reserved (estimates l.selected) estimate);
    active = λ model. grown model;
    capped = λ model low. kept model low;
    count = rw (length_snoc l.selected cell) (ground (arith, room));
  }
    where
      grown :
          (model : String)
          → (if cell.model_id == model then suc (l.active model) else l.active model)
            ≡ first.active model + of_model model (l.selected ++ cell ∷ [])
      grown model = elim (Bool-cases (cell.model_id == model)) [
        | inl e ↦ rw (e, of_model_snoc model l.selected cell) (rw e (omega (arith, h.active model)))
        | inr e ↦ rw (e, of_model_snoc model l.selected cell) (rw e (omega (arith, h.active model)))
      ]

      kept :
          (model : String)
          → first.active model ≤ cap
          → (if cell.model_id == model then suc (l.active model) else l.active model) ≤ cap
      kept model low = elim (Bool-cases (cell.model_id == model)) [
        | inl e ↦ rw e (ground (arith, room, ap l.active ((eq_iff cell.model_id model).0 e)))
        | inr e ↦ rw e (h.capped model low)
      ]

  select_cell-Chosen :
      (cell : CampaignCell) (l : Selection)
      → Chosen l
      → Chosen (select_cell budget total cap limit cell l)
  unfolding select_cell
  select_cell-Chosen cell l h =
      elim (Bool-cases (leb limit (length l.selected) || leb cap (l.active cell.model_id))) [
        | inl full ↦ rw (full, select_cell) h
        | inr room ↦ elim (Option-cases cell.estimated_cost) [
          | inl unknown ↦ rw (room, unknown, select_cell) h
          | inr (estimate, priced) ↦
              elim (Bool-cases (ltb_ℤ budget (total +ℤ l.reserved +ℤ estimate))) [
                | inl over ↦ rw (room, priced, over, select_cell) h
                | inr fits ↦
                    rw (room, priced, fits, select_cell)
                      (choose-Chosen cell estimate l h room priced fits)
              ]
        ]
      ]

  select_cells-Chosen :
      (cells : List CampaignCell) (l : Selection)
      → Chosen l
      → Chosen (select_cells budget total cap limit cells l)
  unfolding select_cells
  select_cells-Chosen [] l h = h
  select_cells-Chosen (cell ∷ cells) l h =
      select_cells-Chosen cells (select_cell budget total cap limit cell l)
        (select_cell-Chosen cell l h)

  first-Chosen : first.selected ≡ [] → Chosen first
  unfolding estimates of_model
  first-Chosen none_yet = record {
    within = λ h. absurd (h none_yet);
    reserved = rw none_yet (sym (+ℤ_zero first.reserved));
    active = λ model. rw none_yet (omega arith);
    capped = λ model low. low;
    count = rw none_yet (omega arith);
  }

module _ (hash : ChainPayload → String) (m : CampaignManifest) where
  -- A chain replays to these variables, in which these cells are leased.
  record Leased (v : ChainReplay) (cells : List CampaignCell) (events : List CampaignEvent)
      : Type 0 where
    after : ChainReplay
    replayed : replay_campaign_events hash m events ≡ ok after
    cost : after.total_cost ≡ v.total_cost
    kept : (k : String) → get k v.states ≡ some leased → get k after.states ≡ some leased
    leases : All (λ (c : CampaignCell). get c.cell_id after.states ≡ some leased) cells

  still_leased :
      (k j : String) (states : List (String × CellState))
      → get k states ≡ some leased
      → get k (put j leased states) ≡ some leased
  still_leased k j states h = elim (Bool-cases (j == k)) [
    | inl e ↦ rw ((eq_iff j k).0 e) (get-put_self k leased states)
    | inr e ↦ get-put_ne k j leased states e ∙ h
  ]

  append_leases-Leased :
      (worker : String) (cells : List CampaignCell) (events : List CampaignEvent) (v : ChainReplay)
      {updated : List CampaignEvent}
      → replay_campaign_events hash m events ≡ ok v
      → append_leases hash m worker cells events ≡ ok updated
      → Leased v cells updated
  unfolding append_leases
  append_leases-Leased worker [] events v replayed h = record {
    after = v;
    replayed = rw (ok-injective (sym h)) replayed;
    cost = refl;
    kept = λ k p. p;
    leases = tt;
  }
  append_leases-Leased worker (cell ∷ cells) events v replayed h =
      let (events', first, rest) =
        >>=-eq-ok (append_campaign_event hash m events (lease_event worker cell)) _ h in
      let a = append-Appended hash m (lease_event worker cell) events events' first in
      let o =
        append_leases-Leased worker cells events'
          (next_replay
            (event_of hash (payload_of (lease_event worker cell) a.previous_state events)) a.before)
          a.after rest in
      let same : a.before ≡ v = ok-injective (sym a.replayed ∙ replayed) in
      record {
        after = o.after;
        replayed = o.replayed;
        cost = o.cost ∙ +ℤ_zero a.before.total_cost ∙ ap (λ (x : ChainReplay). x.total_cost) same;
        kept = λ k p. o.kept k (
            still_leased k cell.cell_id a.before.states
              (ap (λ (x : ChainReplay). get k x.states) same ∙ p));
        leases = (o.kept cell.cell_id (get-put_self cell.cell_id leased a.before.states), o.leases);
      }

  -- What a call that returned has leased, from the variables that the events replay to.
  pub record BatchLeased (q : ChainLeaseRequest) (v : ChainReplay) (budget : ℤ)
      (updated : List CampaignEvent) (selected : List CampaignCell) : Type 0 where
    pub count : length selected ≤ q.limit
    pub within :
        selected ≢ []
        → v.total_cost +ℤ (chain_reserved (cells_by_id m) v.states +ℤ estimates selected) ≤ℤ budget
    pub capped :
        (model : String)
        → active_by_model model (cells_by_id m) v.states ≤ m.max_parallel_per_model
        → active_by_model model (cells_by_id m) v.states + of_model model selected
          ≤ m.max_parallel_per_model
    pub after : ChainReplay
    pub replayed : replay_campaign_events hash m updated ≡ ok after
    pub cost : after.total_cost ≡ v.total_cost
    pub leases : All (λ (c : CampaignCell). get c.cell_id after.states ≡ some leased) selected

  abbrev budget_of : Result ℤ
  budget_of = elim m.hard_budget [ none ↦ err hard_budget_required | some b ↦ ok b ]

  budget_known : (b budget : ℤ) → m.hard_budget ≡ some budget → budget_of ≡ ok b → b ≡ budget
  budget_known b budget hard found = ground arith

  -- A call that returns leases at most `limit` cells; if it leases any, then the total cost, what was
  -- reserved, and the estimates of the leased cells are together within the hard budget; a model that
  -- was within its cap stays so; and the longer chain replays, to the same total cost, with every
  -- leased cell leased.
  pub lease_ready_cells-BatchLeased :
      (q : ChainLeaseRequest) (events updated : List CampaignEvent) (selected : List CampaignCell)
      (v : ChainReplay) (budget : ℤ)
      → m.hard_budget ≡ some budget
      → replay_campaign_events hash m events ≡ ok v
      → lease_ready_cells hash m events q ≡ ok (updated, selected)
      → BatchLeased q v budget updated selected
  unfolding lease_ready_cells
  lease_ready_cells-BatchLeased q events updated selected v budget hard replayed h =
      let (_, h₁) = raise_if_ok (is_blank q.worker_id) worker_id_required _ h in
      let (b, found, h₂) = >>=-eq-ok budget_of _ h₁ in
      let (_, h₃) = raise_if_ok (starts_with m.budget_gate "blocked-") budget_gate_blocked _ h₂ in
      let (_, h₄) = raise_if_ok (ltb q.limit 1) limit_not_positive _ h₃ in
      let (w, at, h₅) = >>=-eq-ok (replay_campaign_events hash m events) _ h₄ in
      let (cells, _, h₆) =
        >>=-eq-ok (next_ready_cells hash m events (length m.cells) q.stage_id q.model_id) _ h₅ in
      let first : Selection = record {
        selected = [];
        active = λ model. active_by_model model (cells_by_id m) w.states;
        reserved = chain_reserved (cells_by_id m) w.states;
      } in
      let l = select_cells b w.total_cost m.max_parallel_per_model q.limit cells first in
      let (events', appended, end) =
        >>=-eq-ok (append_leases hash m q.worker_id l.selected events) _ h₆ in
      let c : Chosen b w.total_cost m.max_parallel_per_model q.limit first l =
        select_cells-Chosen b w.total_cost m.max_parallel_per_model q.limit first cells first
          (first-Chosen b w.total_cost m.max_parallel_per_model q.limit first refl) in
      let o = append_leases-Leased q.worker_id l.selected events w at appended in
      subst₂ (λ (x : ChainReplay) (y : ℤ). BatchLeased q x y updated selected)
        (ok-injective (sym at ∙ replayed)) (budget_known b budget hard found)
        (subst (λ (x : List CampaignEvent). BatchLeased q w b x selected) (ok-pair end).0
          (subst (BatchLeased q w b events') (ok-pair end).1 (record {
            count = c.count;
            within = λ some_given. rw (← c.reserved) (c.within some_given);
            capped = λ model low. rw (← c.active model) (c.capped model low);
            after = o.after;
            replayed = o.replayed;
            cost = o.cost;
            leases = o.leases;
          })))
