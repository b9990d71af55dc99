-- ===== src/ZkActions/Chain/Complete.antt =====
-- zkRecoveryActions.ts: what the scan of the pool's events returns, of a node that keeps to what
-- `getEvents` documents.
use nido.Base.{
  leb, ltb, true, ◌&&◌, refl, ℕ, zero, suc, ◌<◌, ◌≤◌, ◌≡◌, ◌↔◌, ◌⊎◌, inl, inr, List, [], ◌∷◌, ◌++◌,
  Option, none, some, Result, ok, length, Elem, Elem-append, Bool-cases, >>=-ok, arith,
}
use nido.Base.Decimal.{Text}
use nido.Base.Sort.{sort_by, IsAscending, sort_by-IsAscending, Elem-sort_by}
use nido.ZkRecovery.PoolSync.{Leaf}
use nido.ZkActions.Chain.{
  PoolEvent, Cursor, toid, other, Page, ChainError, page_limit, leaf_of, leaves_of, ledger_of,
  is_last, scan, fetch_leaves_from_chain,
}

-- The events of the pool with their positions, in the numbering of the cursors.
abbrev pub Log : Type 0
Log = List (ℕ × PoolEvent)

-- What a request with this cursor still has to read.
abbrev pub IsAfter : Option Cursor → ℕ → Type 0
IsAfter none position = Unit
IsAfter (some (toid start n)) position = start < position
IsAfter (some (other t)) position = ⊥

-- What a page leaves to the next request: nothing without a cursor.
abbrev pub IsLeft : Option Cursor → ℕ → Type 0
IsLeft none position = ⊥
IsLeft (some (toid end n)) position = end < position
IsLeft (some (other t)) position = ⊥

-- What `getEvents` documents: a page holds events of the log only, it misses none between its two
-- cursors, cursors are numbers, and a page that is not full and reaches the tip is the last one.
pub record IsFaithful (log : Log) (get_events : Option Cursor → Result ChainError Page)
    : Type 0 where
  pub logged :
      (c : Option Cursor) (page : Page) (ev : PoolEvent)
      → get_events c ≡ ok page
      → Elem ev page.events
      → (position : ℕ) × Elem (position, ev) log
  pub gapless :
      (c : Option Cursor) (page : Page) (position : ℕ) (ev : PoolEvent)
      → get_events c ≡ ok page
      → Elem (position, ev) log
      → IsAfter c position
      → Elem ev page.events ⊎ IsLeft page.cursor position
  pub numeric :
      (c : Option Cursor) (page : Page) (t : Text)
      → get_events c ≡ ok page
      → page.cursor ≡ some (other t)
      → ⊥
  pub at_tip :
      (c : Option Cursor) (page : Page) (end : ℕ) (n : Text) (position : ℕ) (ev : PoolEvent)
      → get_events c ≡ ok page
      → page.cursor ≡ some (toid end n)
      → page.latest_ledger ≤ ledger_of end
      → length page.events < page_limit
      → Elem (position, ev) log
      → position ≤ end

Elem-leaves_of :
    (l : Leaf) (ev : PoolEvent) (events : List PoolEvent)
    → Elem ev events
    → Elem l (leaf_of ev)
    → Elem l (leaves_of events)
unfolding leaves_of
Elem-leaves_of l ev [] m h = absurd m
Elem-leaves_of l ev (x ∷ events) (inl e) h =
    (Elem-append l (leaf_of x) (leaves_of events)).1 (inl (rw (← e) h))
Elem-leaves_of l ev (x ∷ events) (inr m) h =
    (Elem-append l (leaf_of x) (leaves_of events)).1 (inr (Elem-leaves_of l ev events m h))

Elem-of_leaves_of :
    (l : Leaf) (events : List PoolEvent)
    → Elem l (leaves_of events)
    → (ev : PoolEvent) × Elem ev events × Elem l (leaf_of ev)
unfolding leaves_of
Elem-of_leaves_of l [] m = absurd m
Elem-of_leaves_of l (x ∷ events) m = elim ((Elem-append l (leaf_of x) (leaves_of events)).0 m) [
  | inl here ↦ (x, inl refl, here)
  | inr later ↦ let (ev, at, h) = Elem-of_leaves_of l events later in (ev, inr at, h)
]

both : (a b c d : ℕ) → (leb a b && ltb c d) ≡ true → (a ≤ b) × (c < d)
both a b c d h = ground arith

module _ (log : Log) (get_events : Option Cursor → Result ChainError Page)
    (faithful : IsFaithful log get_events) where
  -- Nothing of the log is left after the page that ends the loop.
  IsLeft-is_last :
      (c : Option Cursor) (page : Page) (position : ℕ) (ev : PoolEvent) (next : Option Cursor)
      → page.cursor ≡ next
      → get_events c ≡ ok page
      → is_last page ≡ true
      → Elem (position, ev) log
      → IsLeft next position
      → ⊥
  unfolding is_last
  IsLeft-is_last c page position ev none same e last m h = h
  IsLeft-is_last c page position ev (some (other t)) same e last m h = h
  IsLeft-is_last c page position ev (some (toid end n)) same e last m h =
      let tests : (leb page.latest_ledger (ledger_of end) && ltb (length page.events) page_limit)
          ≡ true =
        rw same at last in
      let (tip, short) =
        both page.latest_ledger (ledger_of end) (length page.events) page_limit tests in
      let below = faithful.at_tip c page end n position ev e same tip short m in omega arith

  IsLeft→IsAfter :
      (next : Option Cursor) (position : ℕ) → IsLeft next position → IsAfter next position
  IsLeft→IsAfter none position h = tt
  IsLeft→IsAfter (some (toid end n)) position h = h
  IsLeft→IsAfter (some (other t)) position h = h

  -- The events after the cursor have their leaves in what the loop returns, and it returns no others.
  scan-complete :
      (left : ℕ) (c : Option Cursor) (leaves : List Leaf) (position : ℕ) (ev : PoolEvent) (l : Leaf)
      → scan get_events left c ≡ ok leaves
      → Elem (position, ev) log
      → IsAfter c position
      → Elem l (leaf_of ev)
      → Elem l leaves
  unfolding scan
  scan-complete zero c leaves position ev l e m after h =
      let (page, read, never) = >>=-ok (get_events c) _ e in absurd (cc)
  scan-complete (suc left) c leaves position ev l e m after h =
      let (page, read, rest) = >>=-ok (get_events c) _ e in
      elim (Bool-cases (is_last page)) [
        | inl last ↦
            let done : ok (leaves_of page.events) ≡ ok leaves = rw last at rest in
            let same : leaves_of page.events ≡ leaves = cc in
            elim (faithful.gapless c page position ev read m after) [
              | inl here ↦ rw (← same) (Elem-leaves_of l ev page.events here h)
              | inr later ↦
                  absurd (IsLeft-is_last c page position ev page.cursor refl read last m later)
            ]
        | inr more ↦
            let (others, scanned, whole) =
              >>=-ok (scan get_events left page.cursor)
                (λ leaves. ok (leaves_of page.events ++ leaves)) (rw more at rest) in
            let same : leaves_of page.events ++ others ≡ leaves = cc in
            rw (← same) (
              (Elem-append l (leaves_of page.events) others).1
                (elim (faithful.gapless c page position ev read m after) [
                  | inl here ↦ inl (Elem-leaves_of l ev page.events here h)
                  | inr later ↦ inr (
                      scan-complete left page.cursor others position ev l scanned m
                        (IsLeft→IsAfter page.cursor position later) h)
                ]))
      ]

  of_page :
      (c : Option Cursor) (page : Page) (l : Leaf)
      → get_events c ≡ ok page
      → Elem l (leaves_of page.events)
      → (position : ℕ) × (ev : PoolEvent) × Elem (position, ev) log × Elem l (leaf_of ev)
  of_page c page l read m =
      let (ev, at, h) = Elem-of_leaves_of l page.events m in
      let (position, here) = faithful.logged c page ev read at in (position, ev, here, h)

  scan-sound :
      (left : ℕ) (c : Option Cursor) (leaves : List Leaf) (l : Leaf)
      → scan get_events left c ≡ ok leaves
      → Elem l leaves
      → (position : ℕ) × (ev : PoolEvent) × Elem (position, ev) log × Elem l (leaf_of ev)
  unfolding scan
  scan-sound zero c leaves l e h =
      let (page, read, never) = >>=-ok (get_events c) _ e in absurd (cc)
  scan-sound (suc left) c leaves l e h =
      let (page, read, rest) = >>=-ok (get_events c) _ e in
      elim (Bool-cases (is_last page)) [
        | inl last ↦
            let done : ok (leaves_of page.events) ≡ ok leaves = rw last at rest in
            let same : leaves_of page.events ≡ leaves = cc in of_page c page l read (rw same h)
        | inr more ↦
            let (others, scanned, whole) =
              >>=-ok (scan get_events left page.cursor)
                (λ leaves. ok (leaves_of page.events ++ leaves)) (rw more at rest) in
            let same : leaves_of page.events ++ others ≡ leaves = cc in
            elim ((Elem-append l (leaves_of page.events) others).0 (rw same h)) [
              | inl here ↦ of_page c page l read here
              | inr later ↦ scan-sound left page.cursor others l scanned later
            ]
      ]

  -- When the scan returns, a node that keeps to the documentation has given it every leaf of the
  -- log, however many empty pages came first: the result is ascending by index, and holds exactly
  -- the leaves of the logged events.
  pub fetch_leaves_from_chain_complete :
      (leaves : List Leaf)
      → fetch_leaves_from_chain get_events ≡ ok leaves
      → IsAscending (λ (l : Leaf). l.index) leaves
        × ((l : Leaf)
            → Elem l leaves
              ↔ ((position : ℕ) × (ev : PoolEvent) × Elem (position, ev) log × Elem l (leaf_of ev)))
  unfolding fetch_leaves_from_chain
  fetch_leaves_from_chain_complete leaves e =
      let (found, scanned, sorted) = >>=-ok (scan get_events 999 none) _ e in
      let same : sort_by (λ (l : Leaf). l.index) found ≡ leaves = cc in
      rw (← same) (
        sort_by-IsAscending (λ (l : Leaf). l.index) found,
        λ l. (
          λ m.
              scan-sound 999 none found l scanned
                ((Elem-sort_by (λ (l : Leaf). l.index) l found).0 m),
          λ (position, ev, m, h).
              (Elem-sort_by (λ (l : Leaf). l.index) l found).1
                (scan-complete 999 none found position ev l scanned m tt h),
        ),
      )
