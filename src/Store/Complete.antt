-- ===== src/Store/Complete.antt =====
-- What `campaign_store_status` (src/pelicanbench/campaign_store.py) means by a campaign that is
-- complete.
use pelican_bench.Base.{
  ℕ, ◌+◌, ◌≡◌, ◌↔◌, refl, ap, sym, ◌∙◌, Bool, true, false, not, List, [], ◌∷◌, arith, eqb_iff, ◌&&◌,
}
use pelican_bench.Base.Lists.{All, length}
use pelican_bench.Campaign.{
  CampaignManifest, CellState, same_state, is_terminal, blocked_qualification, blocked_price, ready,
  leased, succeeded, failed, quarantined, cancelled,
}
use pelican_bench.Store.Result.{ok, >>=-eq-ok, ok-injective}
use pelican_bench.Store.Time.{Timestamp, parse_utc}
use pelican_bench.Store.Tables.{Store, CellRow}
use pelican_bench.Store.Journal.{Codec, verify_manifest}
use pelican_bench.Store.Queries.{one_if, spent_cost}
use pelican_bench.Store.Status.{
  StoreStatus, count_state, count_expired, terminal_count, exceeds, is_complete,
  campaign_store_status,
}

-- the cells in a state that is not terminal
abbrev open_count : List CellRow → ℕ
open_count rows =
    (count_state blocked_qualification rows + count_state blocked_price rows)
    + (count_state ready rows + count_state leased rows)

abbrev ends : CellState → ℕ
ends c =
    one_if (same_state c succeeded)
    + one_if (same_state c failed)
    + one_if (same_state c quarantined)
    + one_if (same_state c cancelled)

abbrev waits : CellState → ℕ
waits c =
    (one_if (same_state c blocked_qualification) + one_if (same_state c blocked_price))
    + (one_if (same_state c ready) + one_if (same_state c leased))

one_state : (c : CellState) → ends c + waits c ≡ 1
one_state c = ground arith

terminal_iff : (c : CellState) → (is_terminal c ≡ true) ↔ (ends c ≡ 1)
terminal_iff c = ground arith

-- Every cell is in one state.
partition : (rows : List CellRow) → terminal_count rows + open_count rows ≡ length rows
unfolding count_state
partition [] = omega arith
partition (r ∷ rows) = omega (arith, partition rows, one_state r.state)

abbrev AllTerminal : List CellRow → Type 0
AllTerminal = All (λ (r : CellRow). is_terminal r.state ≡ true)

counted : (rows : List CellRow) → AllTerminal rows → terminal_count rows ≡ length rows
unfolding count_state
counted [] h = omega arith
counted (r ∷ rows) h = omega (arith, counted rows h.1, (terminal_iff r.state).0 h.0)

all_terminal : (rows : List CellRow) → terminal_count rows ≡ length rows → AllTerminal rows
unfolding count_state
all_terminal [] h = tt
all_terminal (r ∷ rows) h = (
  (terminal_iff r.state).1 (omega (arith, h, partition rows, one_state r.state)),
  all_terminal rows (omega (arith, h, partition rows, one_state r.state)),
)

five : (a b c e f : Bool) → (a && b && c && e && not f) ≡ true → (a ≡ true) × (f ≡ false)
five a b c e f h = ground arith

complete_terminal :
    (m : CampaignManifest) (rows : List CellRow)
    → is_complete m rows ≡ true
    → AllTerminal rows × (exceeds (spent_cost rows) m.hard_budget ≡ false)
complete_terminal m rows h =
    let (a, f) = five _ _ _ _ (exceeds (spent_cost rows) m.hard_budget) h in
    (all_terminal rows ((eqb_iff _ _).0 a), f)

terminal_complete :
    (m : CampaignManifest) (rows : List CellRow)
    → AllTerminal rows
    → exceeds (spent_cost rows) m.hard_budget ≡ false
    → is_complete m rows ≡ true
terminal_complete m rows h within =
    let n = counted rows h in
    let total = partition rows in
    let none_blocked : count_state blocked_qualification rows + count_state blocked_price rows ≡ 0 =
      omega (arith, n, total) in
    let none_ready : count_state ready rows ≡ 0 = omega (arith, n, total) in
    let none_leased : count_state leased rows ≡ 0 = omega (arith, n, total) in
    rw
      (
        n,
        within,
        none_blocked,
        none_ready,
        none_leased,
        (eqb_iff (length rows) (length rows)).1 refl,
      )
      refl

-- The status that is returned says that the campaign is complete exactly if every cell has succeeded,
-- failed, or is quarantined or cancelled, and the cost that is spent is not over the hard budget.
pub status-complete :
    (d : Codec) (m : CampaignManifest) (now : Timestamp) (s : Store) (v : StoreStatus)
    → campaign_store_status d m now s ≡ ok v
    → (v.complete ≡ true) ↔ (
        All (λ (r : CellRow). is_terminal r.state ≡ true) s.cells
        × (exceeds (spent_cost s.cells) m.hard_budget ≡ false))
unfolding campaign_store_status
status-complete d m now s v done =
    let (n, _, h₁) = >>=-eq-ok (parse_utc now) _ done in
    let (_, _, h₂) = >>=-eq-ok (verify_manifest d m s) _ h₁ in
    let (expired, _, h₃) = >>=-eq-ok (count_expired n s.cells) _ h₂ in
    let same : is_complete m s.cells ≡ v.complete =
      ap (λ (x : StoreStatus). x.complete) (ok-injective h₃) in
    (
      λ h. complete_terminal m s.cells (same ∙ h),
      λ h. sym same ∙ terminal_complete m s.cells h.0 h.1,
    )
