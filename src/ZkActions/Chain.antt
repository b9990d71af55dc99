-- ===== src/ZkActions/Chain.antt =====
-- zkRecoveryActions.ts: `fetchLeavesFromChain`, the scan of the pool's events. What `getEvents`
-- answers is a parameter; an event's topics and value stand decoded.
pub mod Complete
use nido.Base.{
  ℕ, zero, suc, ◌-◌, ◌/◌, ◌^◌, List, [], ◌∷◌, ◌++◌, Option, none, some, Bool, true, false, ◌&&◌,
  Result, ok, err, ◌>>=◌, ◌==◌, leb, ltb, if◌then◌else◌, length,
}
use nido.Base.Decimal.{Text}
use nido.Base.Sort.{sort_by}
use nido.ZkRecovery.Field.{Bytes}
use nido.ZkRecovery.PoolSync.{Leaf}

-- The number of topics, the second one as a number, and the `leaf` of the value when there is one.
pub record PoolEvent : Type 0 where
  pub topics : ℕ
  pub index : ℕ
  pub leaf : Option Bytes

-- A cursor `<toid>-<n>`, or one whose first part is not a number.
pub data Cursor : Type 0 where
  toid : (position : ℕ) (n : Text) → Cursor
  other : Text → Cursor

pub record Page : Type 0 where
  pub events : List PoolEvent
  pub cursor : Option Cursor
  pub latest_ledger : ℕ

pub data ChainError : Type 0 where
  rpc_failed too_many_pages : ChainError

abbrev pub page_limit : ℕ
page_limit = 1000

abbrev pub max_pages : ℕ
max_pages = 1000

-- The leaf that one event adds.
unfoldable pub leaf_of : PoolEvent → List Leaf
leaf_of ev = if ltb ev.topics 2 then [] else elim ev.leaf [
  | none ↦ []
  | some leaf ↦ if length leaf == 32 then record { index = ev.index; leaf = leaf } ∷ [] else []
]

unfoldable pub leaves_of : List PoolEvent → List Leaf
leaves_of [] = []
leaves_of (ev ∷ events) = leaf_of ev ++ leaves_of events

-- The ledger of a cursor: the high half of its number.
unfoldable pub ledger_of : ℕ → ℕ
ledger_of position = position / 2 ^ 32

-- The test that ends the loop after a page: nothing follows it.
unfoldable pub is_last : Page → Bool
is_last page = elim page.cursor [
  | none ↦ true
  | some (toid position n) ↦
      leb page.latest_ledger (ledger_of position) && ltb (length page.events) page_limit
  | some (other c) ↦ length page.events == 0
]

module _ (get_events : Option Cursor → Result ChainError Page) where
  -- The loop with `left` pages before the cap. A page that reaches the cap is thrown away.
  unfoldable pub scan : (left : ℕ) → Option Cursor → Result ChainError (List Leaf)
  scan zero cursor = get_events cursor >>= λ page. err too_many_pages
  scan (suc left) cursor = get_events cursor >>= λ page.
      let rest = scan left page.cursor in
      if is_last page
      then ok (leaves_of page.events)
      else rest >>= λ leaves. ok (leaves_of page.events ++ leaves)

  -- The first page is read without a cursor, from the oldest ledger that the node keeps.
  unfoldable pub fetch_leaves_from_chain : Result ChainError (List Leaf)
  fetch_leaves_from_chain =
      scan (max_pages - 1) none >>= λ leaves. ok (sort_by (λ (l : Leaf). l.index) leaves)
