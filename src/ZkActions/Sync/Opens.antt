-- ===== src/ZkActions/Sync/Opens.antt =====
-- zkRecoveryActions.ts: a witness that the sync returns opens the root that the contract holds.
use nido.Base.{
  ◌≡◌, ◌≤◌, ◌^◌, refl, ap, sym, ◌∙◌, List, [], map, Option, none, some, Bool, true, false, Result,
  ok, err, >>=-ok, ◌==◌, ==_iff, length, up_from,
}
use nido.Base.Decimal.{Text}
use nido.Base.Texts.{codes}
use nido.ZkRecovery.Field.{Fr, Bytes, bytes_to_field_canonical}
use nido.ZkRecovery.Merkle
use nido.ZkRecovery.Merkle.{bit_at, compute_root}
use nido.ZkRecovery.PoolSync.{
  Leaf, merge_leaves, rebuild_root, verify_against_on_chain_root, Located, locate_leaf,
}
use nido.ZkRecovery.PoolSync.Witness.{compute_root-locate_leaf}
use nido.ZkActions.Sync.{
  ActionError, lift, sync, Reads, fetch_registry_address, incoming_leaves, fetch_current_root_fr,
  PoolWitness, rooted, with_root, locate_verified, sync_pool_and_locate,
}

pub lift-eq-ok :
    {E A : Type 0} (tag : E → ActionError) (call : Result E A) (x : A)
    → lift tag call ≡ ok x
    → call ≡ ok x
lift-eq-ok tag (ok y) x e = cc
lift-eq-ok tag (err d) x e = cc

module _ (hash : Fr → Fr → Fr) where
  -- A snapshot that is verified rebuilds the root of the chain.
  verify_against_on_chain_root-eq :
      (leaves : List Leaf) (r : Fr)
      → verify_against_on_chain_root hash leaves r ≡ ok true
      → rebuild_root hash leaves ≡ ok r
  unfolding verify_against_on_chain_root
  verify_against_on_chain_root-eq leaves r e =
      let (built, built_ok, test) = >>=-ok (rebuild_root hash leaves) _ e in
      let same : (built == r) ≡ true = cc in rw (← (==_iff built r).0 same) built_ok

  with_root-eq :
      (root : Fr) (located : Option Located) (w : PoolWitness)
      → with_root root located ≡ some w
      → (l : Located) × (located ≡ some l) × (w ≡ rooted root l)
  unfolding with_root
  with_root-eq root none w e = cc
  with_root-eq root (some l) w e = (l, refl, let same : rooted root l ≡ w = cc in sym same)

  locate_verified-eq-ok :
      (merged : List Leaf) (mine : Bytes) (verified : Bool) (located : Option Located)
      → locate_verified hash merged mine verified ≡ ok located
      → (verified ≡ true) × (locate_leaf hash merged mine ≡ ok located)
  unfolding locate_verified
  locate_verified-eq-ok merged mine false located e = cc
  locate_verified-eq-ok merged mine true located e =
      (refl, lift-eq-ok sync (locate_leaf hash merged mine) located e)

  -- What holds of a witness that opens a leaf to its root.
  abbrev pub IsOpening : Fr → PoolWitness → Type 0
  IsOpening leaf w =
      (compute_root hash leaf w.index w.siblings ≡ ok w.root)
      × (w.bits ≡ map (bit_at w.index) (up_from Merkle.depth 0))

  IsOpening-at :
      (leaf root : Fr) (l : Located) (w : PoolWitness)
      → w ≡ rooted root l
      → IsOpening leaf (rooted root l)
      → IsOpening leaf w
  IsOpening-at leaf root l w same h = rw same h

  located-Opens :
      (merged : List Leaf) (root : Fr) (mine : Bytes) (w : PoolWitness) (located : Option Located)
      → length merged ≤ 2 ^ Merkle.depth
      → verify_against_on_chain_root hash merged root ≡ ok true
      → locate_leaf hash merged mine ≡ ok located
      → with_root root located ≡ some w
      → (leaf : Fr) × (w.root ≡ root) × (bytes_to_field_canonical mine ≡ ok leaf) × IsOpening leaf w
  located-Opens merged root mine w located small checked found shown =
      let (l, same, same_w) = with_root-eq root located w shown in
      let (leaf, r, canonical, rebuilt, opened, bits) =
        compute_root-locate_leaf hash merged mine l small (found ∙ ap ok same) in
      let chain_root = verify_against_on_chain_root-eq merged root checked in
      let same_r : r ≡ root = cc in
      (
        leaf,
        ap {B = Fr} (λ (x : PoolWitness). x.root) same_w,
        canonical,
        IsOpening-at leaf root l w same_w (opened ∙ ap ok same_r, bits),
      )

  -- The pool as the action sees it: the leaves that the source gives, merged.
  pub record IsSnapshot (reads : Reads) (controller_id : Text) (merged : List Leaf) : Type 0 where
    pub incoming : List Leaf
    pub read : incoming_leaves reads controller_id ≡ ok incoming
    pub merge : merge_leaves [] incoming ≡ ok merged

  -- Whatever the indexer or the node answers: a witness that `syncPoolAndLocate` returns opens the
  -- given leaf, along its siblings and the bits of its index, to the root that the contract itself
  -- reports, when the merged snapshot has at most 2^24 leaves.
  pub sync_pool_and_locate-Opens :
      (reads : Reads) (mine : Bytes) (w : PoolWitness)
      → ((controller_id : Text) (merged : List Leaf)
          → IsSnapshot reads controller_id merged
          → length merged ≤ 2 ^ Merkle.depth)
      → sync_pool_and_locate hash reads mine ≡ ok (some w)
      → (controller_id : Text) × (leaf : Fr) × (fetch_registry_address reads (codes "zk-recovery")
          ≡ ok controller_id)
        × (fetch_current_root_fr reads controller_id ≡ ok w.root)
        × (bytes_to_field_canonical mine ≡ ok leaf)
        × IsOpening leaf w
  unfolding sync_pool_and_locate
  sync_pool_and_locate-Opens reads mine w small e =
      let (controller_id, registered, e1) =
        >>=-ok (fetch_registry_address reads (codes "zk-recovery")) _ e in
      let (incoming, given, e2) = >>=-ok (incoming_leaves reads controller_id) _ e1 in
      let (merged, merged_ok, e3) = >>=-ok (lift sync (merge_leaves [] incoming)) _ e2 in
      let (root, rooted_ok, e4) = >>=-ok (fetch_current_root_fr reads controller_id) _ e3 in
      let (verified, checked, e5) =
        >>=-ok (lift sync (verify_against_on_chain_root hash merged root)) _ e4 in
      let (located, found, e6) = >>=-ok (locate_verified hash merged mine verified) _ e5 in
      let (true_result, found_leaf) = locate_verified-eq-ok merged mine verified located found in
      let checked_true : verify_against_on_chain_root hash merged root ≡ ok true =
        lift-eq-ok sync (verify_against_on_chain_root hash merged root) verified checked
        ∙ ap ok true_result in
      let shown : with_root root located ≡ some w = cc in
      let (leaf, same_root, canonical, opened) =
        located-Opens merged root mine w located
          (small controller_id merged (record {
            incoming = incoming;
            read = given;
            merge = lift-eq-ok sync (merge_leaves [] incoming) merged merged_ok;
          }))
          checked_true found_leaf shown in
      (controller_id, leaf, registered, rooted_ok ∙ ap ok (sym same_root), canonical, opened)
