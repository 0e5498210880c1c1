-- ===== src/Campaign/States.antt =====
-- `CellState`, `TERMINAL_STATES`, `CELL_STATES` and the transition tables of
-- src/pelicanbench/campaign.py and src/pelicanbench/campaign_store.py.
use pelican_bench.Base.{Bool, true, false, ◌≡◌, eqb, ℕ, arith}

pub data CellState : Type 0 where
  blocked_qualification blocked_price ready leased succeeded failed quarantined cancelled :
      CellState

-- the place of a state in `CellState`'s list
abbrev pub index : CellState → ℕ
index blocked_qualification = 0
index blocked_price = 1
index ready = 2
index leased = 3
index succeeded = 4
index failed = 5
index quarantined = 6
index cancelled = 7

-- `==` on states
abbrev pub same_state : CellState → CellState → Bool
same_state a b = eqb (index a) (index b)

pub same_state_refl : (a : CellState) → same_state a a ≡ true
same_state_refl a = ground arith

pub eq_of_same_state : (a b : CellState) → same_state a b ≡ true → a ≡ b
eq_of_same_state a b h = ground arith

-- `state in TERMINAL_STATES`
abbrev pub is_terminal : CellState → Bool
is_terminal succeeded = true
is_terminal failed = true
is_terminal quarantined = true
is_terminal cancelled = true
is_terminal _ = false

-- `new_state in _ALLOWED_TRANSITIONS.get(previous_state, frozenset())` of campaign.py
abbrev pub chain_allows : CellState → CellState → Bool
chain_allows ready leased = true
chain_allows ready cancelled = true
chain_allows leased ready = true
chain_allows leased succeeded = true
chain_allows leased failed = true
chain_allows leased quarantined = true
chain_allows leased cancelled = true
chain_allows failed ready = true
chain_allows _ _ = false

-- the same test with `_ALLOWED_STORE_TRANSITIONS` of campaign_store.py: a heartbeat keeps `leased`
abbrev pub store_allows : CellState → CellState → Bool
store_allows ready leased = true
store_allows ready cancelled = true
store_allows leased leased = true
store_allows leased ready = true
store_allows leased succeeded = true
store_allows leased failed = true
store_allows leased quarantined = true
store_allows leased cancelled = true
store_allows failed ready = true
store_allows _ _ = false
