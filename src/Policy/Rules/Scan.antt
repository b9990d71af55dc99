-- ===== src/Policy/Rules/Scan.antt =====
-- The scan of packages/frontend/src/lib/policyChainFetch.ts (`fetchAllChainRules`) against the rules
-- that the account has: revoked ids are gaps, and the answer is cut at the count that the chain tells.
use nido.Base.{
  ℕ, zero, suc, ◌+◌, ◌-◌, ◌<◌, List, [], ◌∷◌, ◌++◌, Option, none, some, ◌≡◌, refl, ap, ok, err,
  if◌then◌else◌, ltb, length, take, append-nil, append_assoc, arith, inl, inr, Bool-cases,
}
use nido.Policy.{ChainRule}
use nido.Policy.Rules.{
  RawContextRule, View, found_rule, not_found, parse_rule, scan_exhausted, scan_margin, scan_from,
  fetch_all_chain_rules,
}

-- The chain's table of rules by id, and a view that answers from it.
pub data Reads (chain : ℕ → Option ChainRule) (view : ℕ → View) (id : ℕ) : Type 0 where
  gap : chain id ≡ none → view id ≡ not_found → Reads chain view id
  live :
      (rule : ChainRule) (native : RawContextRule)
      → chain id ≡ some rule
      → view id ≡ found_rule native
      → parse_rule native ≡ ok rule
      → Reads chain view id

-- The live rules among `bound` ids from `id` on.
unfoldable pub live_rules : (ℕ → Option ChainRule) → ℕ → ℕ → List ChainRule
live_rules chain zero id = []
live_rules chain (suc bound) id =
    let rest = live_rules chain bound (suc id) in
    elim (chain id) [ none ↦ rest | some rule ↦ rule ∷ rest ]

module _ {ℓ} {A : Type ℓ} where
  pub take-nil : (n : ℕ) → take {A = A} n [] ≡ []
  take-nil zero = refl
  take-nil (suc n) = refl

  pub take_none : (n : ℕ) (xs : List A) → n ≡ 0 → take n xs ≡ []
  take_none zero xs e = refl
  take_none (suc n) xs e = absurd (omega arith)

  pub take_next :
      (m n : ℕ) (x : A) (xs : List A) → m < n → take (n - m) (x ∷ xs) ≡ x ∷ take (n - suc m) xs
  take_next m n x xs h = let e : n - m ≡ suc (n - suc m) = omega arith in rw e refl

module _ (chain : ℕ → Option ChainRule) (view : ℕ → View)
    (reads : (id : ℕ) → Reads chain view id) where
  scan-live :
      (bound id count found : ℕ) (out : List ChainRule)
      → scan_from view bound id count found out
        ≡ ok (out ++ take (count - found) (live_rules chain bound id))
  unfolding scan_from live_rules
  scan-live zero id count found out =
      rw (take-nil {A = ChainRule} (count - found), append-nil out) refl
  scan-live (suc bound) id count found out = elim (Bool-cases (ltb found count)) [
    | inr full ↦
        let none_left : count - found ≡ 0 = ground arith in
        rw
          (
            full,
            take_none (count - found) (live_rules chain (suc bound) id) none_left,
            append-nil out,
          )
          refl
    | inl more ↦ rw more (elim (reads id) [
      | gap e v ↦ rw (live_rules, e, v) (scan-live bound (suc id) count found out)
      | live rule native e v p ↦
          let below : found < count = ground arith in
          rw
            (
              live_rules,
              e,
              v,
              p,
              take_next found count rule (live_rules chain bound (suc id)) below,
              scan-live bound (suc id) count (suc found) (out ++ rule ∷ []),
            )
            (ap ok (
              append_assoc out (rule ∷ [])
                (take (count - suc found) (live_rules chain bound (suc id)))))
    ])
  ]

  -- Where every id reads as a revoked one or as a rule that parses, `fetchAllChainRules` returns the
  -- first `count` live rules in the order of their ids, whatever the gaps, and throws the error of an
  -- exhausted scan exactly when fewer than `count` live rules have an id below `count + 100`.
  pub fetch_all_chain_rules-live :
      (count : ℕ)
      → (let listed = take count (live_rules chain (count + scan_margin) 0) in
          fetch_all_chain_rules view count ≡ (
            if ltb (length listed) count
            then err (scan_exhausted (length listed) count)
            else ok listed))
  unfolding fetch_all_chain_rules
  fetch_all_chain_rules-live count =
      let whole : count - 0 ≡ count = omega arith in
      rw (scan-live (count + scan_margin) 0 count 0 [], whole) refl
