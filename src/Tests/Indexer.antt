-- ===== src/Tests/Indexer.antt =====
-- The pool indexer over a store that is an association list, listed in one page.
use nido.Base.{List, [], ◌∷◌, ◌++◌, Option, none, some, if◌then◌else◌, replicate}
use nido.Base.Decimal.{Text}
use nido.Base.Texts.{same_text}
use nido.ZkRecovery.Field.{Fr}
use nido.PoolIndexer.Store.{LeafRecord, Page, leaf_key}

abbrev Kv : Type 0
Kv = List (Text × Text)

unfoldable kv_get : Kv → Text → Option Text
kv_get [] k = none
kv_get ((j, v) ∷ s) k = if same_text j k then some v else kv_get s k

abbrev kv_put : Kv → Text → Text → Kv
kv_put s k v = (k, v) ∷ s

abbrev kv_names : Kv → List Text
kv_names [] = []
kv_names ((k, v) ∷ s) = k ∷ kv_names s

abbrev kv_list : Kv → Text → Option Text → Page
kv_list s prefix cursor = record { names = kv_names s; next = none }

abbrev events : List LeafRecord
events =
    record { index = 1; leaf = b'b' ∷ [] }
    ∷ record { index = 0; leaf = b'a' ∷ [] }
    ∷ record { index = 1; leaf = b'c' ∷ [] }
    ∷ []

abbrev stored : Kv
stored = (leaf_key 1, b'b' ∷ []) ∷ (leaf_key 0, b'a' ∷ []) ∷ []

abbrev toy_hash : List Fr → Fr
toy_hash xs = 5

abbrev served : List LeafRecord
served = record { index = 0; leaf = replicate 63 b'0' ++ b'a' ∷ [] } ∷ []
