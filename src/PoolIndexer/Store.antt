-- ===== src/PoolIndexer/Store.antt =====
-- infra/pool-indexer/src/handler.ts and `runScan` of scanner.ts: the leaves in a key-value store.
-- The store is KVNamespace, a service: its state and its three operations are parameters. A page of
-- `list` is its names and the cursor to go on from, none when the list is complete.
pub mod Keys
pub mod Scan
pub mod Listing
use nido.Base.{
  ℕ, zero, suc, List, [], ◌∷◌, ◌++◌, Option, none, some, Bool, true, false, ◌&&◌, not, ◌==◌, leb,
  ltb, if◌then◌else◌, length, drop, map,
}
use nido.Base.Sort.{sort_by}
use nido.Base.Decimal.{Text, is_digit, to_decimal, decimal_value}
use nido.Base.Texts.{same_text}
use nido.Money.{pad_start, all_digits}

pub record LeafRecord : Type 0 where
  pub index : ℕ
  pub leaf : Text

abbrev pub LeafEvent : Type 0
LeafEvent = LeafRecord

pub data AppendResult : Type 0 where
  inserted duplicate conflict : AppendResult

abbrev pub leaf_key_width : ℕ
leaf_key_width = 8

abbrev pub leaf_prefix : Text
leaf_prefix = b'l' ∷ b'e' ∷ b'a' ∷ b'f' ∷ b'/' ∷ []

unfoldable pub leaf_key : ℕ → Text
leaf_key index = leaf_prefix ++ pad_start leaf_key_width (to_decimal index)

-- The keys under the prefix are written by `leafKey`, so that `Number` reads digits.
unfoldable pub index_from_key : Text → ℕ
index_from_key key = decimal_value 0 (drop (length leaf_prefix) key)

pub record Page : Type 0 where
  pub names : List Text
  pub next : Option Text

-- `parseFrom` on the query parameter. Above the safe integers a double rounds to no safe integer.
unfoldable pub parse_from : Option Text → Option ℕ
parse_from none = some 0
parse_from (some raw) =
    if not (ltb 0 (length raw) && all_digits raw)
    then none
    else if ltb 9007199254740991 (decimal_value 0 raw)
    then none
    else some (decimal_value 0 raw)

module _ {S : Type 0} (get : S → Text → Option Text) (put : S → Text → Text → S) where
  unfoldable pub append_leaf : S → ℕ → Text → AppendResult × S
  append_leaf store index leaf = elim (get store (leaf_key index)) [
    | some existing ↦ ((if same_text existing leaf then duplicate else conflict), store)
    | none ↦ (inserted, put store (leaf_key index) leaf)
  ]

  -- The loop of `runScan` over the sorted events.
  unfoldable pub append_all : S → List LeafEvent → S
  append_all store [] = store
  append_all store (e ∷ events) = append_all ((append_leaf store e.index e.leaf).1) events

  -- `runScan` on the events that the source gave: the sorted events and the store.
  unfoldable pub run_scan : S → List LeafEvent → List LeafEvent × S
  run_scan store events =
      let sorted = sort_by (λ (e : LeafEvent). e.index) events in (sorted, append_all store sorted)

module _ {S : Type 0} (get : S → Text → Option Text) where
  -- What one round of the loop over a page pushes.
  unfoldable pub record_at : S → ℕ → Text → List LeafRecord
  record_at store from name =
      if leb from (index_from_key name)
      then elim (get store name) [
        | none ↦ []
        | some leaf ↦ record { index = index_from_key name; leaf = leaf } ∷ []
      ]
      else []

  unfoldable pub records_of : S → ℕ → List Text → List LeafRecord
  records_of store from [] = []
  records_of store from (name ∷ names) = record_at store from name ++ records_of store from names

module _ {S : Type 0} (get : S → Text → Option Text) (list : S → Text → Option Text → Page) where
  -- The loop over the pages, for at most `fuel` pages; none when they do not suffice.
  unfoldable pub pages_from : ℕ → S → ℕ → Option Text → Option (List LeafRecord)
  pages_from zero store from cursor = none
  pages_from (suc fuel) store from cursor =
      let page = list store leaf_prefix cursor in
      let here = records_of get store from page.names in
      elim page.next [
        | none ↦ some here
        | some next ↦ elim (pages_from fuel store from (some next)) [
          | none ↦ none
          | some rest ↦ some (here ++ rest)
        ]
      ]

  unfoldable pub list_leaves_from : ℕ → S → ℕ → Option (List LeafRecord)
  list_leaves_from fuel store from = elim (pages_from fuel store from none) [
    | none ↦ none
    | some records ↦ some (sort_by (λ (r : LeafRecord). r.index) records)
  ]
