-- ===== src/PoolIndexer/Store/Scan.antt =====
-- handler.ts and scanner.ts: what a scan does to the store. The laws of the service are that a
-- value put at a key is read back there and that no other key changes.
use native.Mathlib.Decide.{ℕ_discrete}
use mathlib.Core.List.{List-discrete}
use nido.Base.{
  ℕ, ◌≡◌, ◌≢◌, ◌⊎◌, inl, inr, refl, sym, ◌∙◌, List, [], ◌∷◌, Option, none, some, All, Elem,
  Option-cases,
}
use nido.Base.Sort.{sort_by}
use nido.Base.Decimal.{Text}
use nido.PoolIndexer.Store.{LeafEvent, leaf_key, append_leaf, append_all, run_scan}

pub record IsKv {S : Type 0} (get : S → Text → Option Text) (put : S → Text → Text → S)
    : Type 0 where
  pub get-put : (s : S) (k v : Text) → get (put s k v) k ≡ some v
  pub get-put_ne : (s : S) (k j v : Text) → k ≢ j → get (put s k v) j ≡ get s j

module _ {S : Type 0} (get : S → Text → Option Text) (put : S → Text → Text → S)
    (laws : IsKv get put) where
  -- The key holds a leaf of an event for it.
  abbrev pub IsFrom : Text → Text → LeafEvent → Type 0
  IsFrom k v e = (k ≡ leaf_key e.index) × (v ≡ e.leaf)

  -- What a store holds after the events: what it held, and for every event a leaf at its index;
  -- whatever is new is the leaf of an event.
  pub record IsScanned (s : S) (events : List LeafEvent) (s' : S) : Type 0 where
    pub keeps : (k v : Text) → get s k ≡ some v → get s' k ≡ some v
    pub stores : All (λ e. (leaf : Text) × (get s' (leaf_key e.index) ≡ some leaf)) events
    pub sound :
        (k v : Text)
        → get s' k ≡ some v
        → (get s k ≡ some v) ⊎ ((e : LeafEvent) × (Elem e events × IsFrom k v e))

  append_leaf-fresh :
      (s : S) (i : ℕ) (leaf : Text)
      → get s (leaf_key i) ≡ none
      → (append_leaf get put s i leaf).1 ≡ put s (leaf_key i) leaf
  unfolding append_leaf
  append_leaf-fresh s i leaf h = rw (h, append_leaf) refl

  append_leaf-known :
      (s : S) (i : ℕ) (leaf old : Text)
      → get s (leaf_key i) ≡ some old
      → (append_leaf get put s i leaf).1 ≡ s
  unfolding append_leaf
  append_leaf-known s i leaf old h = rw (h, append_leaf) refl

  append_leaf-IsScanned :
      (s : S) (e : LeafEvent) → IsScanned s (e ∷ []) ((append_leaf get put s e.index e.leaf).1)
  append_leaf-IsScanned s e = elim (Option-cases (get s (leaf_key e.index))) [
    | inl fresh ↦ rw (append_leaf-fresh s e.index e.leaf fresh) (record {
      keeps = λ k v h. elim (List-discrete ℕ_discrete (leaf_key e.index) k) [
        | yes same ↦ let clash : get s k ≡ none = cc in cc
        | no n ↦ laws.get-put_ne s (leaf_key e.index) k e.leaf n ∙ h
      ];
      stores = ((e.leaf, laws.get-put s (leaf_key e.index) e.leaf), tt);
      sound = λ k v h. elim (List-discrete ℕ_discrete (leaf_key e.index) k) [
        | yes same ↦
            let new = laws.get-put s (leaf_key e.index) e.leaf in
            inr (e, (inl refl, (sym same, cc)))
        | no n ↦ inl (sym (laws.get-put_ne s (leaf_key e.index) k e.leaf n) ∙ h)
      ];
    })
    | inr (old, known) ↦
        rw (append_leaf-known s e.index e.leaf old known)
          (record { keeps = λ k v h. h; stores = ((old, known), tt); sound = λ k v h. inl h })
  ]

  append_all-IsScanned :
      (events : List LeafEvent) (s : S) → IsScanned s events (append_all get put s events)
  unfolding append_all
  append_all-IsScanned [] s = record { keeps = λ k v h. h; stores = tt; sound = λ k v h. inl h }
  append_all-IsScanned (e ∷ events) s =
      let one = append_leaf-IsScanned s e in
      let rest = append_all-IsScanned events ((append_leaf get put s e.index e.leaf).1) in
      let (leaf, stored) = one.stores.0 in
      record {
        keeps = λ k v h. rest.keeps k v (one.keeps k v h);
        stores = ((leaf, rest.keeps (leaf_key e.index) leaf stored), rest.stores);
        sound = λ k v h. elim (rest.sound k v h) [
          | inr (f, (member, from)) ↦ inr (f, (inr member, from))
          | inl old ↦ elim (one.sound k v old) [
            | inl known ↦ inl known
            | inr (f, (member, from)) ↦ elim member [
              | inl same ↦ inr (f, (inl same, from))
              | inr other ↦ absurd other
            ]
          ]
        ];
      }

  append_all-known :
      (events : List LeafEvent) (s : S)
      → All (λ e. (leaf : Text) × (get s (leaf_key e.index) ≡ some leaf)) events
      → append_all get put s events ≡ s
  unfolding append_all
  append_all-known [] s h = refl
  append_all-known (e ∷ events) s ((old, known), h) =
      rw (append_leaf-known s e.index e.leaf old known) (append_all-known events s h)

  -- Scanning the same events again changes nothing.
  pub run_scan_idempotent :
      (s : S) (events : List LeafEvent)
      → (run_scan get put ((run_scan get put s events).1) events).1 ≡ (run_scan get put s events).1
  unfolding run_scan
  run_scan_idempotent s events =
      let by = λ (e : LeafEvent). e.index in
      append_all-known (sort_by by events) (append_all get put s (sort_by by events))
        (append_all-IsScanned (sort_by by events) s).stores
