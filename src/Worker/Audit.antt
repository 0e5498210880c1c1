-- ===== src/Worker/Audit.antt =====
-- What a valid reconciliation of execution records (src/pelicanbench/campaign_worker.py) means.
use pelican_bench.Base.{
  ◌≡◌, refl, subst, Bool, true, false, Option, some, List, [], ◌∷◌, ◌++◌, inl, inr, Option-cases,
}
use pelican_bench.Base.Lists.{All, Has, Has-All, All-left, All-right, All-sort_by, select}
use pelican_bench.Campaign.{CampaignManifest}
use pelican_bench.Store.Tables.{Store, EventRow}
use pelican_bench.Store.Journal.{Codec}
use pelican_bench.Store.Reconcile.{reconcile_campaign_store}
use pelican_bench.Worker.Files.{StoredRecord}
use pelican_bench.Worker.Reconcile.{
  Key, Mismatch, find_key, keys_of, pair_errors, key_errors, keys_errors, is_record_only,
  sorted_keys, key_before, no_errors, store_errors, terminal_events_of, event_index, record_index,
  reconcile_records, terminal_event_key, record_key, no_token, duplicate_event, malformed_identity,
  duplicate_record,
}
use pelican_bench.Worker.Indexed.{found-keys, found-select, index_by-found, index_by-Has}
use pelican_bench.Worker.Agreement.{Agree, append_nil, pair-Agree}

module _ (events : List (Key × EventRow)) (records : List (Key × StoredRecord)) where
  keys_passed :
      (ks : List Key)
      → keys_errors events records ks ≡ []
      → All (λ (k : Key). key_errors events records k ≡ []) ks
  unfolding keys_errors
  keys_passed [] h = tt
  keys_passed (k ∷ ks) h =
      let (here, rest) =
        append_nil (key_errors events records k) (keys_errors events records ks) h in
      (here, keys_passed ks rest)

  one_error : {x : Mismatch} {xs : List Mismatch} → x ∷ xs ≡ [] → ⊥
  one_error p = cc

  event_record :
      (k : Key) (e : EventRow)
      → find_key k events ≡ some e
      → key_errors events records k ≡ []
      → (r : StoredRecord) × (find_key k records ≡ some r) × (pair_errors k e r ≡ [])
  unfolding key_errors
  event_record k e at h = elim (Option-cases (find_key k records)) [
    | inl missing ↦ absurd (one_error (rw (at, missing, key_errors) at h))
    | inr (r, there) ↦ (r, there, rw (at, there, key_errors) at h)
  ]

  has_event :
      (k : Key) → key_errors events records k ≡ [] → (e : EventRow) × (find_key k events ≡ some e)
  unfolding key_errors
  has_event k h = elim (Option-cases (find_key k events)) [
    | inl missing ↦ absurd (one_error (rw (missing, key_errors) at h))
    | inr (e, there) ↦ (e, there)
  ]

  module _ (passed : keys_errors events records (sorted_keys events records) ≡ []) where
    every_key :
        All
          (λ (k : Key). key_errors events records k ≡ [])
          (keys_of events ++ select (is_record_only events records) (keys_of records))
    every_key = All-sort_by _ key_before _ (keys_passed (sorted_keys events records) passed)

    event_key_passed :
        (k : Key) (e : EventRow) → find_key k events ≡ some e → key_errors events records k ≡ []
    event_key_passed k e at =
        found-keys (λ (j : Key). key_errors events records j ≡ []) k e events
          (All-left _ (keys_of events) _ every_key) at

    record_key_passed :
        (k : Key) (r : StoredRecord)
        → find_key k records ≡ some r
        → key_errors events records k ≡ []
    record_key_passed k r at = elim (Option-cases (find_key k events)) [
      | inr (e, there) ↦ event_key_passed k e there
      | inl missing ↦
          found-select (λ (j : Key). key_errors events records j ≡ [])
            (is_record_only events records) k r records (All-right _ (keys_of events) _ every_key)
            (rw missing refl) at
    ]

-- Every worker's terminal event has a record file that agrees with it, and every record file has such
-- an event.
pub record IsReconciled (d : Codec) (m : CampaignManifest) (s : Store) (records : List StoredRecord)
    : Type 0 where
  pub audit : (reconcile_campaign_store d m s).valid ≡ true
  pub of_events :
      (e : EventRow) → Has e (terminal_events_of s) → (r : StoredRecord) × Has r records × Agree e r
  pub of_records :
      (r : StoredRecord) → Has r records → (e : EventRow) × Has e (terminal_events_of s) × Agree e r

module _ (events : List EventRow) (records : List StoredRecord)
    (clean_events : (event_index events).1 ≡ []) (clean_records : (record_index records).1 ≡ [])
    (passed : keys_errors
        (event_index events).0
        (record_index records).0
        (sorted_keys (event_index events).0 (record_index records).0)
      ≡ []) where
  absent_key : {A : Type 0} (k : Key) (x : A) → find_key k [] ≡ some x → ⊥
  unfolding find_key
  absent_key k x p = cc

  indexed_event :
      (k : Key) (e : EventRow) → find_key k (event_index events).0 ≡ some e → Has e events
  indexed_event k e at =
      elim (index_by-Has terminal_event_key (λ (x : EventRow). no_token x.event_id) duplicate_event
        events [] k e clean_events at) [ inl there ↦ absurd (absent_key k e there) | inr has ↦ has ]

  indexed_record :
      (k : Key) (r : StoredRecord) → find_key k (record_index records).0 ≡ some r → Has r records
  indexed_record k r at =
      elim (index_by-Has record_key (λ (x : StoredRecord). malformed_identity) duplicate_record
        records [] k r clean_records at) [
          | inl there ↦ absurd (absent_key k r there)
          | inr has ↦ has
        ]

  of_event : (e : EventRow) → Has e events → (r : StoredRecord) × Has r records × Agree e r
  of_event e has =
      let es = (event_index events).0 in
      let rs = (record_index records).0 in
      let (k, _, at) =
        Has-All _ e events
          (index_by-found terminal_event_key (λ (x : EventRow). no_token x.event_id) duplicate_event
            events [] clean_events)
          has in
      let (r, there, pair) = event_record es rs k e at (event_key_passed es rs passed k e at) in
      (r, indexed_record k r there, pair-Agree k e r pair)

  of_record : (r : StoredRecord) → Has r records → (e : EventRow) × Has e events × Agree e r
  of_record r has =
      let es = (event_index events).0 in
      let rs = (record_index records).0 in
      let (k, _, at) =
        Has-All _ r records
          (index_by-found record_key (λ (x : StoredRecord). malformed_identity) duplicate_record
            records [] clean_records)
          has in
      let clear = record_key_passed es rs passed k r at in
      let (e, there) = has_event es rs k clear in
      let (r', found, pair) = event_record es rs k e there clear in
      (
        e,
        indexed_event k e there,
        subst (λ (x : StoredRecord). Agree e x) (one_record found at) (pair-Agree k e r' pair),
      )
    where
      one_record : {a b : StoredRecord} {o : Option StoredRecord} → o ≡ some a → o ≡ some b → a ≡ b
      one_record p q = cc

no_error : (xs : List Mismatch) → no_errors xs ≡ true → xs ≡ []
no_error [] h = refl
no_error (x ∷ xs) h = cc

audited : (b : Bool) → store_errors b ≡ [] → b ≡ true
audited true h = refl
audited false h = cc

module _ (d : Codec) (m : CampaignManifest) where
  -- A reconciliation that is valid means that the store's audit is valid, that every terminal event of a
  -- worker has a record among the files, and every record a terminal event, of the same campaign, cell,
  -- worker, lease token, attempt, state, reason and artifact, and of the same cost to within 1e-8,
  -- unless the record's cost is not a number.
  pub reconcile_records-IsReconciled :
      (s : Store) (records : List StoredRecord)
      → (reconcile_records d m s records).valid ≡ true
      → IsReconciled d m s records
  unfolding reconcile_records
  reconcile_records-IsReconciled s records h =
      let events = terminal_events_of s in
      let es = event_index events in
      let rs = record_index records in
      let per_key = keys_errors es.0 rs.0 (sorted_keys es.0 rs.0) in
      let checks = store_errors (reconcile_campaign_store d m s).valid in
      let (h₁, passed) =
        append_nil (checks ++ es.1 ++ rs.1) per_key
          (no_error (checks ++ es.1 ++ rs.1 ++ per_key) h) in
      let (h₂, clean_records) = append_nil (checks ++ es.1) rs.1 h₁ in
      let (store, clean_events) = append_nil checks es.1 h₂ in
      record {
        audit = audited (reconcile_campaign_store d m s).valid store;
        of_events = of_event events records clean_events clean_records passed;
        of_records = of_record events records clean_events clean_records passed;
      }
