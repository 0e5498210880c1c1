-- ===== src/Store/Sound/Initial.antt =====
-- `initialise_campaign_store` of src/pelicanbench/campaign_store.py makes a sound store.
use mathlib.Core.List.{append_assoc, append-nil}
use pelican_bench.Base.{
  String, ◌≡◌, ◌≢◌, refl, subst, true, false, none, List, [], ◌∷◌, ◌++◌, arith, ◌==◌, eq_iff,
  eq_refl, is_none,
}
use pelican_bench.Base.Lists.{All}
use pelican_bench.Campaign.{CampaignManifest, CampaignCell, leased}
use pelican_bench.Store.Result.{
  ok, >>=-eq-ok, ok-pair, ok-injective, raise_unless_ok, integrity_error,
}
use pelican_bench.Store.Time.{Timestamp}
use pelican_bench.Store.Tables.{Store, CellRow, find_cell}
use pelican_bench.Store.Journal.{Codec, verify_manifest}
use pelican_bench.Store.Queries.{transaction_ok}
use pelican_bench.Store.Reconcile.{
  ReplayCell, replay_start, replay_init, replay_events, lease_is_clean,
}
use pelican_bench.Store.Initialise.{
  no_tables, first_row, insert_cells, first_metadata, initialise_body, initialise_campaign_store,
}
use pelican_bench.Store.Cells.{Unique, missing-cons}
use pelican_bench.Store.Sound.{Agrees, Tracks, IsSound}

-- no cell of a manifest starts out leased
abbrev pub NoneLeased : List CampaignCell → Type 0
NoneLeased cells = All (λ (c : CampaignCell). c.state ≢ leased) cells

Tracks-append :
    (rows rows' : List CellRow) (cs cs' : List ReplayCell)
    → Tracks rows cs
    → Tracks rows' cs'
    → Tracks (rows ++ rows') (cs ++ cs')
Tracks-append [] rows' [] cs' t t' = t'
Tracks-append [] rows' (c ∷ cs) cs' t t' = absurd t
Tracks-append (r ∷ rows) rows' [] cs' t t' = absurd t
Tracks-append (r ∷ rows) rows' (c ∷ cs) cs' t t' = (t.0, Tracks-append rows rows' cs cs' t.1 t')

find_cell-append_none :
    (k : String) (rows : List CellRow) (x : CellRow)
    → find_cell k rows ≡ none
    → (x.cell_id == k) ≡ false
    → find_cell k (rows ++ x ∷ []) ≡ none
unfolding find_cell
find_cell-append_none k [] x h ne = rw ne
find_cell-append_none k (r ∷ rows) x h ne = ground (arith, find_cell-append_none k rows x)

Unique-append :
    (rows : List CellRow) (x : CellRow)
    → Unique rows
    → find_cell x.cell_id rows ≡ none
    → Unique (rows ++ x ∷ [])
unfolding find_cell
Unique-append [] x u h = (refl, tt)
Unique-append (r ∷ rows) x u h =
    let (ne, rest) = missing-cons x.cell_id r rows h in
    (
      find_cell-append_none r.cell_id rows x u.0
          (ground (arith, ne, eq_iff r.cell_id x.cell_id, eq_iff x.cell_id r.cell_id)),
      Unique-append rows x u.1 rest,
    )

first_row-Agrees :
    (t : Timestamp) (c : CampaignCell)
    → c.state ≢ leased
    → Agrees (first_row t c) (record { cell_id = c.cell_id; state = c.state; cost = 0 })
first_row-Agrees t c idle = record { key = refl; state = refl; cost = refl; clean = clean }
  where
    clean : lease_is_clean (first_row t c) ≡ true
    clean = ground arith

insert_cells-Tracks :
    (t : Timestamp) (cells : List CampaignCell) (rows : List CellRow) (cs : List ReplayCell)
    {rows' : List CellRow}
    → NoneLeased cells
    → Unique rows
    → Tracks rows cs
    → insert_cells t cells rows ≡ ok rows'
    → Unique rows' × Tracks rows' (cs ++ replay_start cells)
unfolding insert_cells
insert_cells-Tracks t [] rows cs idle u tr h =
    subst (λ (x : List CellRow). Unique x × Tracks x (cs ++ [])) (ok-injective h)
      (u, rw append-nil tr)
insert_cells-Tracks t (c ∷ cells) rows cs idle u tr h =
    let (new, rest) = raise_unless_ok (is_none (find_cell c.cell_id rows)) integrity_error _ h in
    let missing : find_cell c.cell_id rows ≡ none = ground arith in
    let start : ReplayCell = record { cell_id = c.cell_id; state = c.state; cost = 0 } in
    let (u', tr') =
      insert_cells-Tracks t cells (rows ++ first_row t c ∷ []) (cs ++ start ∷ []) idle.1
        (Unique-append rows (first_row t c) u missing)
        (Tracks-append rows (first_row t c ∷ []) cs (start ∷ []) tr
          (first_row-Agrees t c idle.0, tt))
        rest in
    (u', rw (← append_assoc cs (start ∷ []) (replay_start cells)) tr')

first_metadata-verify :
    (d : Codec) (m : CampaignManifest) (created : String) (s : Store)
    → s.metadata ≡ first_metadata d m created
    → verify_manifest d m s ≡ ok tt
unfolding verify_manifest
first_metadata-verify d m created s h = rw h (simp eq_refl)

first_store-IsSound :
    (d : Codec) (m : CampaignManifest) (created : String) (t : Timestamp) (rows : List CellRow)
    → NoneLeased m.cells
    → insert_cells t m.cells [] ≡ ok rows
    → IsSound d m (record { metadata = first_metadata d m created; cells = rows; events = [] })
unfolding replay_events
first_store-IsSound d m created t rows idle done =
    let (unique, tracks) = insert_cells-Tracks t m.cells [] [] idle tt tt done in
    record {
      belongs = first_metadata-verify d m created _ refl;
      unique = unique;
      view = replay_init m;
      replays = refl;
      sequence = refl;
      head = refl;
      tracks = tracks;
    }

-- If `initialise_campaign_store` is called with `overwrite` and returns, for a manifest that has no
-- cell leased, then the store that it leaves is sound.
pub initialise-IsSound :
    (d : Codec) (m : CampaignManifest) (created : String) (t : Timestamp) (old : Store) {s : Store}
    → NoneLeased m.cells
    → initialise_campaign_store d m true created t old ≡ (ok tt, s)
    → IsSound d m s
unfolding initialise_campaign_store initialise_body
initialise-IsSound d m created t old idle h =
    let (rows, inserted, end) =
      >>=-eq-ok (insert_cells t m.cells []) _
        (transaction_ok (initialise_body d m created t) no_tables h) in
    subst (IsSound d m) (ok-pair end).1 (first_store-IsSound d m created t rows idle inserted)
