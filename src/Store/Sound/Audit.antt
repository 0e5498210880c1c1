-- ===== src/Store/Sound/Audit.antt =====
-- `reconcile_campaign_store` of src/pelicanbench/campaign_store.py accepts a sound store.
use pelican_bench.Base.{◌≡◌, refl, Bool, true, not, some, List, [], ◌∷◌, arith, is_none}
use pelican_bench.Base.Lists.{All, all}
use pelican_bench.Campaign.{CampaignManifest, same_state_refl}
use pelican_bench.Store.Tables.{Store, CellRow, find_cell}
use pelican_bench.Store.Journal.{Codec}
use pelican_bench.Store.Reconcile.{
  ReplayCell, find_replay, against, state_agrees, cost_agrees, lease_agrees,
  reconcile_campaign_store,
}
use pelican_bench.Store.Cells.{All-found}
use pelican_bench.Store.Sound.{Agrees, Tracks, IsSound, find_replay-Tracks}

module _ (cells : List CellRow) (cs : List ReplayCell) (tracks : Tracks cells cs) where
  all-against :
      (test : CellRow → ReplayCell → Bool)
      (passes : (r : CellRow) (c : ReplayCell) → Agrees r c → test r c ≡ true) (rows : List CellRow)
      → All (λ (r : CellRow). find_cell r.cell_id cells ≡ some r) rows
      → all (against test cs) rows ≡ true
  all-against test passes [] h = refl
  all-against test passes (r ∷ rows) h =
      let (c, at, agrees) = find_replay-Tracks r.cell_id r cells cs tracks h.0 in
      rw (at, against) (rw (passes r c agrees) (all-against test passes rows h.1))

  rows_replayed :
      (rows : List CellRow)
      → All (λ (r : CellRow). find_cell r.cell_id cells ≡ some r) rows
      → all (λ (r : CellRow). not (is_none (find_replay r.cell_id cs))) rows ≡ true
  rows_replayed [] h = refl
  rows_replayed (r ∷ rows) h =
      let (c, at, agrees) = find_replay-Tracks r.cell_id r cells cs tracks h.0 in
      rw at (rows_replayed rows h.1)

replayed_stored :
    (cells rows : List CellRow) (cs : List ReplayCell)
    → Tracks rows cs
    → All (λ (r : CellRow). find_cell r.cell_id cells ≡ some r) rows
    → all (λ (c : ReplayCell). not (is_none (find_cell c.cell_id cells))) cs ≡ true
replayed_stored cells [] [] t h = refl
replayed_stored cells [] (c ∷ cs) t h = absurd t
replayed_stored cells (r ∷ rows) [] t h = absurd t
replayed_stored cells (r ∷ rows) (c ∷ cs) t h =
    let found : find_cell c.cell_id cells ≡ some r = rw (← t.0.key) h.0 in
    rw found (replayed_stored cells rows cs t.1 h.1)

state_passes : (r : CellRow) (c : ReplayCell) → Agrees r c → state_agrees r c ≡ true
state_passes r c a = rw a.state (same_state_refl c.state)

cost_passes : (r : CellRow) (c : ReplayCell) → Agrees r c → cost_agrees r c ≡ true
cost_passes r c a = ground (arith, a.cost)

lease_passes : (r : CellRow) (c : ReplayCell) → Agrees r c → lease_agrees r c ≡ true
lease_passes r c a = a.clean

-- The audit of a sound store finds nothing wrong.
pub reconcile-IsSound :
    (d : Codec) (m : CampaignManifest) (s : Store)
    → IsSound d m s
    → (reconcile_campaign_store d m s).valid ≡ true
unfolding reconcile_campaign_store
reconcile-IsSound d m s h =
    let cs = h.view.replayed in
    let found = All-found s.cells h.unique in
    rw (h.replays, h.belongs)
      (rw
        (
          rows_replayed s.cells cs h.tracks s.cells found,
          replayed_stored s.cells s.cells cs h.tracks found,
          all-against s.cells cs h.tracks state_agrees state_passes s.cells found,
          all-against s.cells cs h.tracks cost_agrees cost_passes s.cells found,
          all-against s.cells cs h.tracks lease_agrees lease_passes s.cells found,
        )
        refl)
