-- ===== src/Store/Result.antt =====
-- The exceptions that src/pelicanbench/campaign_store.py and campaign_worker.py raise, one for each message,
-- and the results of code that may raise.
use pelican_bench.Base.{◌⊎◌, inl, inr, ◌≡◌, refl, Bool, true, false}
use pelican_bench.Campaign.{CellState}

pub data Error : Type 0 where
  worker_id_required limit_not_positive lease_seconds_not_positive extend_not_positive : Error
  hard_budget_required budget_gate_blocked : Error
  bad_timestamp naive_timestamp time_overflow : Error
  not_initialised schema_unsupported different_campaign manifest_mismatch : Error
  illegal_transition : CellState → CellState → Error
  reason_required negative_cost artifact_required : Error
  unknown_cell not_leased token_mismatch lease_expired : Error
  unsupported_completion cost_not_finite : Error
  tokens_exhausted integrity_error : Error
  sequence_not_contiguous chain_broken columns_differ hash_differs event_id_differs : Error
  payload_unreadable replay_state_differs : Error
  record_not_object record_hash_mismatch record_malformed : Error
  interval_negative interval_with_fixed_time interval_too_long record_collision : Error

-- The value that is returned, or the exception.
pub data Result {ℓ} (Value : Type ℓ) : Type ℓ where
  ok : Value → Result Value
  err : Error → Result Value

infixl 5 ◌>>=◌ ◌>>◌
abbrev pub ◌>>=◌ {ℓ κ} :
    {Value : Type ℓ} {Next : Type κ} → Result Value → (Value → Result Next) → Result Next
err x >>= continue = err x
ok v >>= continue = continue v

abbrev pub ◌>>◌ {ℓ} : {Next : Type ℓ} → Result (Unit {0}) → Result Next → Result Next
check >> rest = check >>= λ done. rest

-- `if test: raise error`
abbrev pub raise_if : Bool → Error → Result (Unit {0})
raise_if true x = err x
raise_if false x = ok tt

abbrev pub raise_unless : Bool → Error → Result (Unit {0})
raise_unless true x = ok tt
raise_unless false x = err x

pub >>=-eq-ok {ℓ κ} :
    {Value : Type ℓ} {Next : Type κ} (first : Result Value) (continue : Value → Result Next)
    {end : Next}
    → (first >>= continue) ≡ ok end
    → (v : Value) × (first ≡ ok v) × (continue v ≡ ok end)
>>=-eq-ok (err x) continue raised = cc
>>=-eq-ok (ok v) continue returned = (v, refl, returned)

pub ok-injective {ℓ} : {A : Type ℓ} {a b : A} → ok a ≡ ok b → a ≡ b
ok-injective p = cc

pub ok-pair {ℓ κ} :
    {A : Type ℓ} {B : Type κ} {a b : A} {s t : B}
    → ◌≡◌ {A = Result (A × B)} (ok (a, s)) (ok (b, t))
    → (a ≡ b) × (s ≡ t)
ok-pair p = (cc, cc)

pub Result-cases {ℓ} :
    {A : Type ℓ} (r : Result A) → ((a : A) × (r ≡ ok a)) ⊎ ((e : Error) × (r ≡ err e))
Result-cases (ok a) = inl (a, refl)
Result-cases (err e) = inr (e, refl)

-- What follows a check that passed.
pub raise_unless_ok {ℓ} :
    {A : Type ℓ} (b : Bool) (e : Error) (k : Unit {0} → Result A) {a : A}
    → (raise_unless b e >>= k) ≡ ok a
    → (b ≡ true) × (k tt ≡ ok a)
raise_unless_ok true e k h = (refl, h)
raise_unless_ok false e k h = cc

pub raise_if_ok {ℓ} :
    {A : Type ℓ} (b : Bool) (e : Error) (k : Unit {0} → Result A) {a : A}
    → (raise_if b e >>= k) ≡ ok a
    → (b ≡ false) × (k tt ≡ ok a)
raise_if_ok true e k h = cc
raise_if_ok false e k h = (refl, h)
