-- ===== src/Store/Cells.antt =====
-- Lemmas on the table `cells` of src/pelicanbench/campaign_store.py: rows by their primary key.
use pelican_bench.Base.{
  String, ◌≡◌, refl, Bool, true, false, none, some, List, [], ◌∷◌, arith, ◌==◌, eq_iff, eq_refl,
  Bool-cases, inl, inr,
}
use pelican_bench.Base.Lists.{All, select, insert_by, sort_by}
use pelican_bench.Store.Queries.{query, row_before}
use pelican_bench.Store.Tables.{CellRow, find_cell, update_cell}

-- The primary key: no two rows have the same `cell_id`.
abbrev pub Unique : List CellRow → Type 0
Unique [] = Unit
Unique (r ∷ rows) = (find_cell r.cell_id rows ≡ none) × Unique rows

-- an UPDATE that leaves the primary key alone
abbrev pub KeepsKey : (CellRow → CellRow) → Type 0
KeepsKey f = (r : CellRow) → (f r).cell_id ≡ r.cell_id

-- the key under which a row is found is its own
pub find_cell-key :
    (k : String) (r : CellRow) (rows : List CellRow) → find_cell k rows ≡ some r → r.cell_id ≡ k
unfolding find_cell
find_cell-key k r [] h = cc
find_cell-key k r (x ∷ rows) h = ground (arith, find_cell-key k r rows, eq_iff x.cell_id k)

-- an UPDATE of a key that is not there changes nothing
pub update_cell_missing :
    (k : String) (f : CellRow → CellRow) (rows : List CellRow)
    → find_cell k rows ≡ none
    → update_cell k f rows ≡ rows
unfolding find_cell update_cell
update_cell_missing k f [] h = refl
update_cell_missing k f (x ∷ rows) h = ground (arith, update_cell_missing k f rows)

module _ (k j : String) (f : CellRow → CellRow) (keeps : KeepsKey f) where
  pub find-update_ne :
      (rows : List CellRow)
      → (j == k) ≡ false
      → find_cell j (update_cell k f rows) ≡ find_cell j rows
  unfolding find_cell update_cell
  find-update_ne [] h = refl
  find-update_ne (x ∷ rows) h = ground (
    arith,
    find-update_ne rows,
    eq_iff j k,
    eq_iff x.cell_id k,
    eq_iff x.cell_id j,
    eq_iff (f x).cell_id j,
    keeps x,
  )

  pub find-update_none :
      (rows : List CellRow) → find_cell j rows ≡ none → find_cell j (update_cell k f rows) ≡ none
  unfolding find_cell update_cell
  find-update_none [] h = refl
  find-update_none (x ∷ rows) h = ground (
    arith,
    find-update_none rows,
    eq_iff x.cell_id k,
    eq_iff x.cell_id j,
    eq_iff (f x).cell_id j,
    keeps x,
  )

module _ (k : String) (f : CellRow → CellRow) (keeps : KeepsKey f) where
  pub find-update_self :
      (r : CellRow) (rows : List CellRow)
      → find_cell k rows ≡ some r
      → find_cell k (update_cell k f rows) ≡ some (f r)
  unfolding find_cell update_cell
  find-update_self r [] h = cc
  find-update_self r (x ∷ rows) h =
      ground (arith, find-update_self r rows, eq_iff x.cell_id k, eq_iff (f x).cell_id k, keeps x)

  pub update-Unique : (rows : List CellRow) → Unique rows → Unique (update_cell k f rows)
  unfolding update_cell
  update-Unique [] u = tt
  update-Unique (x ∷ rows) u = elim (Bool-cases (x.cell_id == k)) [
    | inl e ↦
        rw e (rw (keeps x) (find-update_none k x.cell_id f keeps rows u.0), update-Unique rows u.1)
    | inr e ↦ rw e (find-update_none k x.cell_id f keeps rows u.0, update-Unique rows u.1)
  ]

-- Rows that were read from the table before it was written: each is still there as it was read,
-- and no two have the same key.
pub record IsSnapshot (rows cells : List CellRow) : Type 0 where
  pub unique : Unique rows
  pub found : All (λ (r : CellRow). find_cell r.cell_id cells ≡ some r) rows

-- A key that is not found differs from the first row's, and is not found behind it.
pub missing-cons :
    (k : String) (x : CellRow) (rows : List CellRow)
    → find_cell k (x ∷ rows) ≡ none
    → ((x.cell_id == k) ≡ false) × (find_cell k rows ≡ none)
unfolding find_cell
missing-cons k x rows h = ground arith

-- A key that no row has differs from the key of each.
pub missing-All :
    (k : String) (rows : List CellRow)
    → find_cell k rows ≡ none
    → All (λ (r : CellRow). (r.cell_id == k) ≡ false) rows
missing-All k [] h = tt
missing-All k (x ∷ rows) h =
    let (ne, rest) = missing-cons k x rows h in (ne, missing-All k rows rest)

module _ (cells : List CellRow) (k : String) (f : CellRow → CellRow) (keeps : KeepsKey f) where
  found-update :
      (rows : List CellRow)
      → All (λ (r : CellRow). (r.cell_id == k) ≡ false) rows
      → All (λ (r : CellRow). find_cell r.cell_id cells ≡ some r) rows
      → All (λ (r : CellRow). find_cell r.cell_id (update_cell k f cells) ≡ some r) rows
  found-update [] ne h = tt
  found-update (x ∷ rows) ne h =
      (rw (find-update_ne k x.cell_id f keeps cells ne.0) h.0, found-update rows ne.1 h.1)

-- Once the first row of a snapshot has been written, the others are a snapshot still.
pub IsSnapshot-update :
    (x : CellRow) (rows cells : List CellRow) (f : CellRow → CellRow)
    → KeepsKey f
    → IsSnapshot (x ∷ rows) cells
    → IsSnapshot rows (update_cell x.cell_id f cells)
IsSnapshot-update x rows cells f keeps h = record {
  unique = h.unique.1;
  found =
      found-update cells x.cell_id f keeps rows (missing-All x.cell_id rows h.unique.0) h.found.1;
}

pub IsSnapshot-tail :
    (x : CellRow) (rows cells : List CellRow) → IsSnapshot (x ∷ rows) cells → IsSnapshot rows cells
IsSnapshot-tail x rows cells h = record { unique = h.unique.1; found = h.found.1 }

-- A query keeps a table's primary key, and finds rows of the table.
select-missing :
    (k : String) (test : CellRow → Bool) (rows : List CellRow)
    → find_cell k rows ≡ none
    → find_cell k (select test rows) ≡ none
unfolding find_cell
select-missing k test [] h = refl
select-missing k test (x ∷ rows) h = ground (arith, select-missing k test rows)

select-Unique :
    (test : CellRow → Bool) (rows : List CellRow) → Unique rows → Unique (select test rows)
select-Unique test [] u = tt
select-Unique test (x ∷ rows) u =
    ground (arith, select-Unique test rows, select-missing x.cell_id test rows)

insert_by-missing :
    (k : String) (x : CellRow) (before : CellRow → CellRow → Bool) (rows : List CellRow)
    → (x.cell_id == k) ≡ false
    → find_cell k rows ≡ none
    → find_cell k (insert_by before x rows) ≡ none
unfolding find_cell
insert_by-missing k x before [] ne h = ground arith
insert_by-missing k x before (y ∷ rows) ne h = ground (arith, insert_by-missing k x before rows ne)

==-sym_false : (a b : String) → (a == b) ≡ false → (b == a) ≡ false
==-sym_false a b h = ground (arith, eq_iff a b, eq_iff b a)

insert_by-Unique :
    (x : CellRow) (before : CellRow → CellRow → Bool) (rows : List CellRow)
    → find_cell x.cell_id rows ≡ none
    → Unique rows
    → Unique (insert_by before x rows)
insert_by-Unique x before [] h u = (h, tt)
insert_by-Unique x before (y ∷ rows) h u =
    let (ne, rest) = missing-cons x.cell_id y rows h in
    elim (Bool-cases (before y x)) [
      | inl e ↦ rw e (
        insert_by-missing y.cell_id x before rows (==-sym_false y.cell_id x.cell_id ne) u.0,
        insert_by-Unique x before rows rest u.1,
      )
      | inr e ↦ rw e (h, u)
    ]

module _ (k : String) (before : CellRow → CellRow → Bool) where
  sort_by-missing :
      (rows : List CellRow) → find_cell k rows ≡ none → find_cell k (sort_by before rows) ≡ none
  sort_by-missing [] h = h
  sort_by-missing (x ∷ rows) h =
      let (ne, rest) = missing-cons k x rows h in
      insert_by-missing k x before (sort_by before rows) ne (sort_by-missing rows rest)

sort_by-Unique :
    (before : CellRow → CellRow → Bool) (rows : List CellRow)
    → Unique rows
    → Unique (sort_by before rows)
sort_by-Unique before [] u = tt
sort_by-Unique before (x ∷ rows) u =
    insert_by-Unique x before (sort_by before rows) (sort_by-missing x.cell_id before rows u.0)
      (sort_by-Unique before rows u.1)

module _ {κ} (P : CellRow → Type κ) where
  pub select-All :
      (test : CellRow → Bool) (rows : List CellRow) → All P rows → All P (select test rows)
  select-All test [] h = tt
  select-All test (x ∷ rows) h = elim (Bool-cases (test x)) [
    | inl e ↦ rw e (h.0, select-All test rows h.1)
    | inr e ↦ rw e (select-All test rows h.1)
  ]

  insert_by-All :
      (before : CellRow → CellRow → Bool) (x : CellRow) (rows : List CellRow)
      → P x
      → All P rows
      → All P (insert_by before x rows)
  insert_by-All before x [] p h = (p, tt)
  insert_by-All before x (y ∷ rows) p h = elim (Bool-cases (before y x)) [
    | inl e ↦ rw e (h.0, insert_by-All before x rows p h.1)
    | inr e ↦ rw e (p, h)
  ]

  pub sort_by-All :
      (before : CellRow → CellRow → Bool) (rows : List CellRow)
      → All P rows
      → All P (sort_by before rows)
  sort_by-All before [] h = tt
  sort_by-All before (x ∷ rows) h =
      insert_by-All before x (sort_by before rows) h.0 (sort_by-All before rows h.1)

found-weaken :
    (x : CellRow) (cells rows : List CellRow)
    → All (λ (r : CellRow). (r.cell_id == x.cell_id) ≡ false) rows
    → All (λ (r : CellRow). find_cell r.cell_id cells ≡ some r) rows
    → All (λ (r : CellRow). find_cell r.cell_id (x ∷ cells) ≡ some r) rows
unfolding find_cell
found-weaken x cells [] ne h = tt
found-weaken x cells (r ∷ rows) ne h =
    (rw (==-sym_false r.cell_id x.cell_id ne.0) h.0, found-weaken x cells rows ne.1 h.1)

found_self : (x : CellRow) (rows : List CellRow) → find_cell x.cell_id (x ∷ rows) ≡ some x
unfolding find_cell
found_self x rows = rw (eq_refl x.cell_id)

pub All-found :
    (cells : List CellRow)
    → Unique cells
    → All (λ (r : CellRow). find_cell r.cell_id cells ≡ some r) cells
All-found [] u = tt
All-found (x ∷ cells) u = (
  found_self x cells,
  found-weaken x cells cells (missing-All x.cell_id cells u.0) (All-found cells u.1),
)

-- What a query reads is a snapshot of the table.
pub query-IsSnapshot :
    (test : CellRow → Bool) (cells : List CellRow)
    → Unique cells
    → IsSnapshot (query test cells) cells
query-IsSnapshot test cells u = record {
  unique = sort_by-Unique row_before (select test cells) (select-Unique test cells u);
  found =
      sort_by-All (λ (r : CellRow). find_cell r.cell_id cells ≡ some r) row_before
        (select test cells)
        (select-All (λ (r : CellRow). find_cell r.cell_id cells ≡ some r) test cells
          (All-found cells u));
}

select_passes :
    (test : CellRow → Bool) (rows : List CellRow)
    → All (λ (r : CellRow). test r ≡ true) (select test rows)
select_passes test [] = tt
select_passes test (x ∷ rows) = elim (Bool-cases (test x)) [
  | inl e ↦ rw e (e, select_passes test rows)
  | inr e ↦ rw e (select_passes test rows)
]

All-map {κ} :
    (P Q : CellRow → Type κ) (rows : List CellRow)
    → ((r : CellRow) → P r → Q r)
    → All P rows
    → All Q rows
All-map P Q [] f h = tt
All-map P Q (x ∷ rows) f h = (f x h.0, All-map P Q rows f h.1)

-- Every row that a query reads has passed its test.
pub query-All :
    (P : CellRow → Type 0) (test : CellRow → Bool) (cells : List CellRow)
    → ((r : CellRow) → test r ≡ true → P r)
    → All P (query test cells)
query-All P test cells f =
    sort_by-All P row_before (select test cells)
      (All-map (λ (r : CellRow). test r ≡ true) P (select test cells) f (select_passes test cells))
