-- ===== src/Store/Outcomes/Once.antt =====
-- That a completion uses up its lease (`complete_campaign_lease`, src/pelicanbench/campaign_store.py).
use pelican_bench.Base.{String, ◌≡◌, sym, ap, subst, ◌∙◌, true, some, arith}
use pelican_bench.Campaign.{CampaignManifest, CellState, leased}
use pelican_bench.Store.Result.{Result, ok}
use pelican_bench.Store.Tables.{Store, CellRow, EventRow, find_cell}
use pelican_bench.Store.Journal.{Codec}
use pelican_bench.Store.Holder.{Completion, is_completion, complete_campaign_lease}
use pelican_bench.Store.Sound.{IsSound}
use pelican_bench.Store.Sound.Writes.{Writes-IsSound}
use pelican_bench.Store.Sound.Holders.{InGrains}
use pelican_bench.Store.History.{History, start, more, complete, History-Writes}
use pelican_bench.Store.History.Anew.{LeasedAnew, Writes-LeasedAnew}
use pelican_bench.Store.Outcomes.{complete_effect}

no_completion-leased : (c : CellState) → is_completion c ≡ true → c ≡ leased → ⊥
no_completion-leased c fit live = ground arith

some_row : {a b : CellRow} → some a ≡ some b → a ≡ b
some_row p = cc

module _ (d : Codec) (m : CampaignManifest) where
  -- A lease is completed at most once. On a sound store, let a completion with a cost in whole grains
  -- return, let any history of calls follow (costs are whole grains, no leased cell is requeued), and let
  -- a completion of the same cell then return, by any worker and with any token: in between, the
  -- journal has got an event that takes the cell from ready to leased. Without such a new lease every
  -- further completion of the cell raises.
  pub complete_once :
      (q again : Completion) {s s' t u : Store} (event second : EventRow)
      → IsSound d m s
      → InGrains d m q.actual_cost
      → complete_campaign_lease d m q s ≡ (ok event, s')
      → History d m s' t
      → again.cell_id ≡ q.cell_id
      → complete_campaign_lease d m again t ≡ (ok second, u)
      → LeasedAnew q.cell_id s' t
  complete_once q again {s} {s'} {t} {u} event second sound grains done calls same redone =
      let h = complete_effect d m q s s' event done in
      let h' = complete_effect d m again t u second redone in
      let sound' : IsSound d m s' =
        subst (IsSound d m) (ap (λ (p : Result EventRow × Store). p.1) done)
          (Writes-IsSound d m sound (History-Writes d m sound (more start (complete q grains)))) in
      Writes-LeasedAnew d m q.cell_id h'.row (History-Writes d m sound' calls)
        (λ x found live. no_completion-leased q.new_state h.completion (
          sym h.columns.state
          ∙ ap (λ (r : CellRow). r.state) (some_row (sym h.changes.after ∙ found))
          ∙ live))
        (ap (λ (k : String). find_cell k t.cells) (sym same) ∙ h'.owns.found) h'.owns.live
