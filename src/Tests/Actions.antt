-- ===== src/Tests/Actions.antt =====
-- The actions of ZK recovery, with a toy hash in place of Poseidon2, a pool of one leaf, and a network
-- that takes what it is given.
use nido.Base.{
  ℕ, ◌*◌, ◌<◌, ◌≡◌, ◌↔◌, ◌^◌, ◌≤◌, refl, inl, inr, ◌⊎◌, [], ◌∷◌, Option, none, some, Result, ok,
  length, replicate, Elem, arith,
}
use mathlib.Core.Path.{subst}
use nido.Base.Decimal.{Text}
use nido.Base.Sort.{IsAscending, insert_by, sort_by}
use nido.ZkRecovery.PoolSync.{Leaf}
use nido.ZkActions.Chain.{
  PoolEvent, Cursor, toid, other, Page, ChainError, page_limit, leaf_of, leaves_of, ledger_of,
  is_last, scan, fetch_leaves_from_chain,
}
use nido.ZkActions.Chain.Complete.{
  Log, IsAfter, IsLeft, IsFaithful, fetch_leaves_from_chain_complete,
}

abbrev event : ℕ → ℕ → PoolEvent
event index byte = record { topics = 2; index = index; leaf = some (replicate 32 byte) }

abbrev log : Log
log = (4 * 2 ^ 32, event 1 7) ∷ (5 * 2 ^ 32, event 0 9) ∷ []

-- An empty page first, then the events.
abbrev empty_page : Page
empty_page = record { events = []; cursor = some (toid (3 * 2 ^ 32) []); latest_ledger = 5 }

abbrev full_page : Page
full_page = record { events = event 1 7 ∷ event 0 9 ∷ []; cursor = none; latest_ledger = 5 }

abbrev pages : Option Cursor → Result ChainError Page
pages none = ok empty_page
pages (some c) = ok full_page

pages-logged :
    (c : Option Cursor) (page : Page) (ev : PoolEvent)
    → pages c ≡ ok page
    → Elem ev page.events
    → (position : ℕ) × Elem {A = ℕ × PoolEvent} (position, ev) log
pages-logged none page ev e m =
    let same : page ≡ empty_page = cc in absurd (subst (λ (p : Page). Elem ev p.events) same m)
pages-logged (some c) page ev e m =
    let same : page ≡ full_page = cc in
    elim (subst (λ (p : Page). Elem ev p.events) same m) [
      | inl first ↦ (4 * 2 ^ 32, inl (rw first refl))
      | inr (inl second) ↦ (5 * 2 ^ 32, inr (inl (rw second refl)))
      | inr (inr end) ↦ absurd end
    ]

pages-gapless :
    (c : Option Cursor) (page : Page) (position : ℕ) (ev : PoolEvent)
    → pages c ≡ ok page
    → Elem {A = ℕ × PoolEvent} (position, ev) log
    → IsAfter c position
    → Elem ev page.events ⊎ IsLeft page.cursor position
pages-gapless none page position ev e m after =
    let same : empty_page ≡ page = cc in
    subst (λ (p : Page). Elem ev p.events ⊎ IsLeft p.cursor position) same
      (inr (elim m [
        | inl first ↦ let at : position ≡ 4 * 2 ^ 32 = cc in omega arith
        | inr (inl second) ↦ let at : position ≡ 5 * 2 ^ 32 = cc in omega arith
        | inr (inr end) ↦ absurd end
      ]))
pages-gapless (some c) page position ev e m after =
    let same : full_page ≡ page = cc in
    subst (λ (p : Page). Elem ev p.events ⊎ IsLeft p.cursor position) same
      (inl (elim m [
        | inl first ↦ inl (cc)
        | inr (inl second) ↦ inr (inl (cc))
        | inr (inr end) ↦ absurd end
      ]))

pages-numeric :
    (c : Option Cursor) (page : Page) (t : Text)
    → pages c ≡ ok page
    → page.cursor ≡ some (other t)
    → ⊥
pages-numeric none page t e h =
    let same : page ≡ empty_page = cc in
    let clash : some (toid (3 * 2 ^ 32) []) ≡ some (other t) =
      subst (λ (p : Page). p.cursor ≡ some (other t)) same h in
    cc
pages-numeric (some c) page t e h =
    let same : page ≡ full_page = cc in
    let clash : none ≡ some (other t) = subst (λ (p : Page). p.cursor ≡ some (other t)) same h in cc

pages-at_tip :
    (c : Option Cursor) (page : Page) (end : ℕ) (n : Text) (position : ℕ) (ev : PoolEvent)
    → pages c ≡ ok page
    → page.cursor ≡ some (toid end n)
    → page.latest_ledger ≤ ledger_of end
    → length page.events < page_limit
    → Elem {A = ℕ × PoolEvent} (position, ev) log
    → position ≤ end
unfolding ledger_of
pages-at_tip none page end n position ev e h tip short m =
    let same : page ≡ empty_page = cc in
    let at : some (toid (3 * 2 ^ 32) []) ≡ some (toid end n) =
      subst (λ (p : Page). p.cursor ≡ some (toid end n)) same h in
    let low : 5 ≤ ledger_of end = subst (λ (p : Page). p.latest_ledger ≤ ledger_of end) same tip in
    let same_end : end ≡ 3 * 2 ^ 32 = cc in absurd (omega arith)
pages-at_tip (some c) page end n position ev e h tip short m =
    let same : page ≡ full_page = cc in
    let clash : none ≡ some (toid end n) =
      subst (λ (p : Page). p.cursor ≡ some (toid end n)) same h in
    cc

pages-IsFaithful : IsFaithful log pages
pages-IsFaithful = record {
  logged = pages-logged;
  gapless = pages-gapless;
  numeric = pages-numeric;
  at_tip = pages-at_tip;
}

abbrev leaf_at : ℕ → ℕ → Leaf
leaf_at index byte = record { index = index; leaf = replicate 32 byte }

fetch_leaves_from_chain_complete_example :
    IsAscending (λ (l : Leaf). l.index) (leaf_at 0 9 ∷ leaf_at 1 7 ∷ [])
    × ((l : Leaf)
        → Elem l (leaf_at 0 9 ∷ leaf_at 1 7 ∷ []) ↔ (
            (position : ℕ) × (ev : PoolEvent) × Elem {A = ℕ × PoolEvent} (position, ev) log
            × Elem l (leaf_of ev)))
fetch_leaves_from_chain_complete_example =
    fetch_leaves_from_chain_complete log pages pages-IsFaithful (leaf_at 0 9 ∷ leaf_at 1 7 ∷ []) run
  where
    run : fetch_leaves_from_chain pages ≡ ok (leaf_at 0 9 ∷ leaf_at 1 7 ∷ [])
    run =
        unfold fetch_leaves_from_chain scan leaves_of leaf_of is_last ledger_of sort_by insert_by in
        refl
