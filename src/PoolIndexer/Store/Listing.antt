-- ===== src/PoolIndexer/Store/Listing.antt =====
-- handler.ts: what `listLeavesFrom` returns of the store.
use nido.Base.{
  ℕ, zero, suc, ◌≤◌, ◌≡◌, ◌↔◌, inl, inr, refl, sym, ap, ◌∙◌, List, [], ◌∷◌, ◌++◌, Option, none,
  some, leb, leb→le, Elem, Elem-append, Bool-cases, Option-cases, append_assoc, arith,
}
use nido.Base.Sort.{sort_by, sort_by-IsAscending, Elem-sort_by, IsAscending}
use nido.Base.Decimal.{Text}
use nido.PoolIndexer.Store.{
  LeafRecord, Page, leaf_prefix, index_from_key, record_at, records_of, pages_from,
  list_leaves_from,
}

module _ {S : Type 0} (get : S → Text → Option Text) (list : S → Text → Option Text → Page) where
  -- The pages of the service from a cursor on: their names, and how many there are.
  pub data IsListed (s : S) : (cursor : Option Text) (names : List Text) (pages : ℕ) → Type 0 where
    last :
        (cursor : Option Text) (names : List Text)
        → (list s leaf_prefix cursor).names ≡ names
        → (list s leaf_prefix cursor).next ≡ none
        → IsListed s cursor names 1
    more :
        (cursor : Option Text) (next : Text) (names rest : List Text) (pages : ℕ)
        → (list s leaf_prefix cursor).names ≡ names
        → (list s leaf_prefix cursor).next ≡ some next
        → IsListed s (some next) rest pages
        → IsListed s cursor (names ++ rest) (suc pages)

  -- A leaf that the store holds at one of the names, at `start` or above.
  abbrev pub IsHeld : S → ℕ → List Text → LeafRecord → Type 0
  IsHeld s start names r =
      (name : Text) × (Elem name names
        × ((start ≤ r.index) × ((index_from_key name ≡ r.index) × (get s name ≡ some r.leaf))))

  records_of-append :
      (s : S) (start : ℕ) (xs ys : List Text)
      → records_of get s start (xs ++ ys) ≡ records_of get s start xs ++ records_of get s start ys
  unfolding records_of
  records_of-append s start [] ys = refl
  records_of-append s start (x ∷ xs) ys =
      ap (λ (t : List LeafRecord). record_at get s start x ++ t) (records_of-append s start xs ys)
      ∙ sym (
          append_assoc (record_at get s start x) (records_of get s start xs)
            (records_of get s start ys))

  pages_from-suc :
      (s : S) (start fuel : ℕ) (cursor : Option Text)
      → pages_from get list (suc fuel) s start cursor ≡ elim ((list s leaf_prefix cursor).next) [
        | none ↦ some (records_of get s start ((list s leaf_prefix cursor).names))
        | some next ↦ elim (pages_from get list fuel s start (some next)) [
          | none ↦ none
          | some rest ↦ some (records_of get s start ((list s leaf_prefix cursor).names) ++ rest)
        ]
      ]
  unfolding pages_from
  pages_from-suc s start fuel cursor = refl

  pages_from-more :
      (s : S) (start fuel : ℕ) (cursor : Option Text) (next : Text) (rest : List LeafRecord)
      → (list s leaf_prefix cursor).next ≡ some next
      → pages_from get list fuel s start (some next) ≡ some rest
      → pages_from get list (suc fuel) s start cursor
        ≡ some (records_of get s start ((list s leaf_prefix cursor).names) ++ rest)
  pages_from-more s start fuel cursor next rest h k =
      rw (pages_from-suc s start fuel cursor, h, k) refl

  pages_from_lem :
      (s : S) (start fuel pages : ℕ) (cursor : Option Text) (names : List Text)
      → IsListed s cursor names pages
      → pages ≤ fuel
      → pages_from get list fuel s start cursor ≡ some (records_of get s start names)
  unfolding pages_from
  pages_from_lem s start zero _ _ _ (last cursor names p q) h = absurd (omega arith)
  pages_from_lem s start (suc fuel) _ _ _ (last cursor names p q) h = rw (q, p, pages_from) refl
  pages_from_lem s start zero _ _ _ (more cursor next names rest pages p q d) h =
      absurd (omega arith)
  pages_from_lem s start (suc fuel) _ _ _ (more cursor next names rest pages p q d) h =
      pages_from-more s start fuel cursor next (records_of get s start rest) q
        (pages_from_lem s start fuel pages (some next) rest d (omega arith))
      ∙ ap (λ (t : List Text). some (records_of get s start t ++ records_of get s start rest)) p
      ∙ ap some (sym (records_of-append s start names rest))

  Elem-record_at :
      (s : S) (start : ℕ) (name : Text) (r : LeafRecord)
      → Elem r (record_at get s start name)
        ↔ ((start ≤ r.index) × ((index_from_key name ≡ r.index) × (get s name ≡ some r.leaf)))
  unfolding record_at index_from_key
  Elem-record_at s start name r = elim (Bool-cases (leb start (index_from_key name))) [
    | inr below ↦ rw (below, record_at) ((λ m. absurd m), λ h. absurd (ground arith))
    | inl above ↦ elim (Option-cases (get s name)) [
      | inl gone ↦ rw (above, gone, record_at) ((λ m. absurd m), λ h. absurd (cc (h.1.1)))
      | inr (leaf, held) ↦
          rw (above, held, record_at)
            (
              λ m. elim m [
                | inl e ↦ rw e (leb→le start (index_from_key name) above, (refl, refl))
                | inr other ↦ absurd other
              ],
              λ h. inl (cc (h.1.0, h.1.1)),
            )
    ]
  ]

  Elem-records_of :
      (s : S) (start : ℕ) (names : List Text) (r : LeafRecord)
      → Elem r (records_of get s start names) ↔ IsHeld s start names r
  unfolding records_of
  Elem-records_of s start [] r = ((λ m. absurd m), λ h. h.1.0)
  Elem-records_of s start (x ∷ names) r =
      let (to, from) = Elem-append r (record_at get s start x) (records_of get s start names) in
      let (here, back) = Elem-record_at s start x r in
      let (there, back') = Elem-records_of s start names r in
      (
        λ m. elim (to m) [
          | inl a ↦ (x, (inl refl, here a))
          | inr b ↦ let (name, (e, held)) = there b in (name, (inr e, held))
        ],
        λ (name, (e, held)). from (elim e [
          | inl same ↦ inl (back (rw same at held))
          | inr e' ↦ inr (back' (name, (e', held)))
        ]),
      )

  -- Given enough fuel for the pages of the service, `listLeavesFrom` returns leaves in ascending
  -- order of the index, and exactly those that the store holds under the listed names with an index
  -- at `start` or above.
  pub list_leaves_from_lem :
      (s : S) (start fuel pages : ℕ) (names : List Text)
      → IsListed s none names pages
      → pages ≤ fuel
      → (records : List LeafRecord) × ((list_leaves_from get list fuel s start ≡ some records)
          × (IsAscending (λ (r : LeafRecord). r.index) records
              × ((r : LeafRecord) → Elem r records ↔ IsHeld s start names r)))
  unfolding list_leaves_from
  list_leaves_from_lem s start fuel pages names d h =
      let by = λ (r : LeafRecord). r.index in
      let records = records_of get s start names in
      (
        sort_by by records,
        (
          rw (pages_from_lem s start fuel pages none names d h, list_leaves_from) refl,
          (
            sort_by-IsAscending by records,
            λ r.
                let (to, from) = Elem-sort_by by r records in
                let (to', from') = Elem-records_of s start names r in
                ((λ m. to' (to m)), λ m. from (from' m)),
          ),
        ),
      )
