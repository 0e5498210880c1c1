-- ===== src/Chain/Leasing.antt =====
-- `campaign_status`, `next_ready_cells` and `lease_ready_cells` of src/pelicanbench/campaign.py.
use pelican_bench.Base.{
  ℕ, suc, ◌+◌, String, Bool, true, false, not, Option, none, some, List, [], ◌∷◌, ◌++◌, ◌==◌,
  if◌then◌else◌, ltb, leb, eqb, ◌&&◌, ◌||◌, map,
}
use Prim.Native.String.{compare}
use text.Mathlib.Text.{starts_with, is_lt}
use pelican_bench.Base.Int.{ℤ, pos, ◌+ℤ◌, ltb_ℤ}
use pelican_bench.Base.Lists.{length, select, sort_by, take}
use pelican_bench.Base.Dict.{get, collect}
use pelican_bench.Base.Text.{◌^^◌, is_blank}
use pelican_bench.Campaign.{
  CampaignManifest, CampaignCell, CellState, leased, ready, succeeded, failed, quarantined,
  cancelled, blocked_qualification, blocked_price, same_state,
}
use pelican_bench.Store.Result.{
  Result, ok, err, ◌>>=◌, ◌>>◌, raise_if, worker_id_required, limit_not_positive,
  hard_budget_required, budget_gate_blocked,
}
use pelican_bench.Store.Money.{or_zero, round8_ℤ}
use pelican_bench.Store.Queries.{one_if}
use pelican_bench.Chain.Events.{
  CampaignEvent, ChainPayload, EventRequest, replay_campaign_events, append_campaign_event,
}

-- `stage_id is None or cell.stage_id == stage_id`
abbrev pub is_wanted : Option String → String → Bool
is_wanted none t = true
is_wanted (some u) t = t == u

abbrev pub text_less : String → String → Bool
text_less a b = is_lt (compare a b)

-- the order of the tuples (stage_id, model_id, task_id, replicate)
unfoldable pub cell_before : CampaignCell → CampaignCell → Bool
cell_before a b =
    text_less a.stage_id b.stage_id
    || (a.stage_id == b.stage_id)
      && (text_less a.model_id b.model_id
          || (a.model_id == b.model_id)
            && (text_less a.task_id b.task_id
                || (a.task_id == b.task_id) && ltb a.replicate b.replicate))

-- `states[cell.cell_id] == "ready"`; every cell of the manifest is a key of `states`
abbrev pub has_state : CellState → Option CellState → Bool
has_state c none = false
has_state c (some s) = same_state s c

-- `by_id`
abbrev pub cells_by_id : CampaignManifest → List (String × CampaignCell)
cells_by_id m = collect [] (map (λ (c : CampaignCell). (c.cell_id, c)) m.cells)

-- the model of a leased cell is this one; `by_id` has the same keys as `states`
abbrev pub is_model : String → Option CampaignCell → Bool
is_model model none = false
is_model model (some c) = c.model_id == model

abbrev pub estimate_of : Option CampaignCell → ℤ
estimate_of none = pos 0
estimate_of (some c) = or_zero c.estimated_cost

-- `active_by_model`
unfoldable pub active_by_model :
    String → List (String × CampaignCell) → List (String × CellState) → ℕ
active_by_model model by_id [] = 0
active_by_model model by_id (entry ∷ states) =
    one_if (same_state entry.1 leased && is_model model (get entry.0 by_id))
    + active_by_model model by_id states

-- `reserved_cost`
unfoldable pub chain_reserved : List (String × CampaignCell) → List (String × CellState) → ℤ
chain_reserved by_id [] = pos 0
chain_reserved by_id (entry ∷ states) =
    (if same_state entry.1 leased then estimate_of (get entry.0 by_id) else pos 0)
    +ℤ chain_reserved by_id states

-- `counts.get(state, 0)`
unfoldable pub count_states : CellState → List (String × CellState) → ℕ
count_states c [] = 0
count_states c (entry ∷ states) = one_if (same_state entry.1 c) + count_states c states

pub record CampaignStatus : Type 0 where
  pub count : CellState → ℕ
  pub events : ℕ
  pub total_cost : ℤ
  pub remaining_ready : ℕ
  pub terminal_cells : ℕ
  pub budget_exceeded : Bool
  pub complete : Bool

abbrev pub over_budget : ℤ → Option ℤ → Bool
over_budget total none = false
over_budget total (some budget) = ltb_ℤ budget total

abbrev pub selected_budget : Option ℤ → Option ℤ → Option ℤ
selected_budget declared none = declared
selected_budget declared (some budget) = some budget

abbrev pub terminal_states : List (String × CellState) → ℕ
terminal_states states =
    count_states succeeded states
    + count_states failed states
    + count_states quarantined states
    + count_states cancelled states

-- the arguments of `lease_ready_cells`
pub record ChainLeaseRequest : Type 0 where
  pub worker_id : String
  pub limit : ℕ
  pub stage_id : Option String
  pub model_id : Option String

-- the variables of the loop that selects cells
pub record Selection : Type 0 where
  pub selected : List CampaignCell
  pub active : String → ℕ
  pub reserved : ℤ

abbrev pub choose : CampaignCell → ℤ → Selection → Selection
choose cell estimate l = record {
  selected = l.selected ++ cell ∷ [];
  active = λ model. if cell.model_id == model then suc (l.active model) else l.active model;
  reserved = l.reserved +ℤ estimate;
}

-- One round of the loop. The limit, once reached, is reached in every later round, which is the
-- loop's `break`.
unfoldable pub select_cell : ℤ → ℤ → ℕ → ℕ → CampaignCell → Selection → Selection
select_cell budget total cap limit cell l =
    if leb limit (length l.selected) || leb cap (l.active cell.model_id)
    then l
    else elim cell.estimated_cost [
      | none ↦ l
      | some estimate ↦
          if ltb_ℤ budget (total +ℤ l.reserved +ℤ estimate) then l else choose cell estimate l
    ]

unfoldable pub select_cells : ℤ → ℤ → ℕ → ℕ → List CampaignCell → Selection → Selection
select_cells budget total cap limit [] l = l
select_cells budget total cap limit (cell ∷ cells) l =
    select_cells budget total cap limit cells (select_cell budget total cap limit cell l)

abbrev pub lease_event : String → CampaignCell → EventRequest
lease_event worker cell = record {
  cell_id = cell.cell_id;
  new_state = leased;
  reason = "worker-lease:" ^^ worker;
  cost = pos 0;
  artifact_id = none;
}

module _ (hash : ChainPayload → String) (m : CampaignManifest) where
  unfoldable pub campaign_status : List CampaignEvent → Option ℤ → Result CampaignStatus
  campaign_status events hard_budget = do
    v ← replay_campaign_events hash m events
    let exceeded = over_budget v.total_cost (selected_budget m.hard_budget hard_budget)
    let terminal = terminal_states v.states
    ok (record {
      count = λ c. count_states c v.states;
      events = length events;
      total_cost = round8_ℤ v.total_cost;
      remaining_ready = count_states ready v.states;
      terminal_cells = terminal;
      budget_exceeded = exceeded;
      complete =
          eqb (count_states ready v.states) 0
          && eqb (count_states leased v.states) 0
          && eqb (count_states blocked_qualification v.states + count_states blocked_price v.states)
              0
          && eqb terminal (length v.states)
          && not exceeded;
    })

  unfoldable pub next_ready_cells :
      List CampaignEvent → ℕ → Option String → Option String → Result (List CampaignCell)
  next_ready_cells events limit stage_id model_id = do
    raise_if (ltb limit 1) limit_not_positive
    v ← replay_campaign_events hash m events
    let candidates =
        select
          (λ (c : CampaignCell).
            has_state ready (get c.cell_id v.states)
            && is_wanted stage_id c.stage_id
            && is_wanted model_id c.model_id)
          m.cells
    ok (take limit (sort_by cell_before candidates))

  -- the loop that appends an event for each selected cell
  unfoldable pub append_leases :
      String → List CampaignCell → List CampaignEvent → Result (List CampaignEvent)
  append_leases worker [] events = ok events
  append_leases worker (cell ∷ cells) events = do
    events' ← append_campaign_event hash m events (lease_event worker cell)
    append_leases worker cells events'

  unfoldable pub lease_ready_cells :
      List CampaignEvent → ChainLeaseRequest → Result (List CampaignEvent × List CampaignCell)
  lease_ready_cells events q = do
    raise_if (is_blank q.worker_id) worker_id_required
    budget ← elim m.hard_budget [ none ↦ err hard_budget_required | some b ↦ ok b ]
    raise_if (starts_with m.budget_gate "blocked-") budget_gate_blocked
    raise_if (ltb q.limit 1) limit_not_positive
    v ← replay_campaign_events hash m events
    candidates ← next_ready_cells events (length m.cells) q.stage_id q.model_id
    let by_id = cells_by_id m
    let first : Selection = record {
      selected = [];
      active = λ model. active_by_model model by_id v.states;
      reserved = chain_reserved by_id v.states;
    }
    let l = select_cells budget v.total_cost m.max_parallel_per_model q.limit candidates first
    updated ← append_leases q.worker_id l.selected events
    ok (updated, l.selected)
