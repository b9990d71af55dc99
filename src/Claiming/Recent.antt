-- ===== src/Claiming/Recent.antt =====
-- claimFlow.ts: the account that `selectClaimer` defaults to.
use nido.Base.{
  ℕ, ◌≤◌, ◌<◌, ◌≡◌, ◌⊎◌, inl, inr, refl, ap, List, [], ◌∷◌, ◌++◌, Option, none, some, true, false,
  ltb, ltb→lt, Bool-cases, All, ◌&&◌, arith,
}
use nido.Base.Decimal.{Text}
use nido.Claiming.{best_from, select_known, select_claimer, is_contract_id, truthy}

module _ (last_used : Text → ℕ) where
  -- Where an account stands in a list: all before it were used earlier, none behind it later.
  pub record IsMostRecent (accounts : List Text) (id : Text) : Type 0 where
    pub before : List Text
    pub after : List Text
    pub split : accounts ≡ before ++ id ∷ after
    pub earlier : All (λ x. last_used x < last_used id) before
    pub not_later : All (λ x. last_used x ≤ last_used id) after

  head-le :
      (id r : Text) (ids before after : List Text)
      → id ∷ ids ≡ before ++ r ∷ after
      → All (λ x. last_used x < last_used r) before
      → last_used id ≤ last_used r
  head-le id r ids [] after e h = let same : id ≡ r = cc in rw same (omega arith)
  head-le id r ids (x ∷ before) after e (hx, h) = let same : id ≡ x = cc in rw same (omega arith)

  -- An account that is not used later than the first goes behind it.
  IsMostRecent-insert :
      (best id r : Text) (ids before after : List Text)
      → last_used id ≤ last_used best
      → best ∷ ids ≡ before ++ r ∷ after
      → All (λ x. last_used x < last_used r) before
      → All (λ x. last_used x ≤ last_used r) after
      → IsMostRecent (best ∷ id ∷ ids) r
  IsMostRecent-insert best id r ids [] after le e h k =
      let same : best ≡ r = cc in
      let rest : ids ≡ after = cc in
      record {
        before = [];
        after = id ∷ after;
        split = cc;
        earlier = tt;
        not_later = (rw (← same) le, k);
      }
  IsMostRecent-insert best id r ids (x ∷ before) after le e (hx, h) k =
      let same : best ≡ x = cc in
      let rest : ids ≡ before ++ r ∷ after = cc in
      let below : last_used best < last_used r = rw same hx in
      record {
        before = best ∷ id ∷ before;
        after = after;
        split = cc;
        earlier = (below, ((omega arith), h));
        not_later = k;
      }

  keeps :
      (best id : Text) (ids : List Text)
      → ltb (last_used best) (last_used id) ≡ false
      → best_from last_used best (last_used best) (id ∷ ids)
        ≡ best_from last_used best (last_used best) ids
  unfolding best_from
  keeps best id ids h = rw h refl

  changes :
      (best id : Text) (ids : List Text)
      → ltb (last_used best) (last_used id) ≡ true
      → best_from last_used best (last_used best) (id ∷ ids)
        ≡ best_from last_used id (last_used id) ids
  unfolding best_from
  changes best id ids h = rw h refl

  best_from-IsMostRecent :
      (best : Text) (ids : List Text)
      → IsMostRecent (best ∷ ids) (best_from last_used best (last_used best) ids)
  unfolding best_from
  best_from-IsMostRecent best [] = record {
    before = [];
    after = [];
    split = refl;
    earlier = tt;
    not_later = tt;
  }
  best_from-IsMostRecent best (id ∷ ids) = elim (Bool-cases (ltb (last_used best) (last_used id))) [
    | inl more ↦
        let rest = best_from-IsMostRecent id ids in
        let r = best_from last_used id (last_used id) ids in
        let le = head-le id r ids rest.before rest.after rest.split rest.earlier in
        let lt = ltb→lt (last_used best) (last_used id) more in
        rw (changes best id ids more) (record {
          before = best ∷ rest.before;
          after = rest.after;
          split = ap (λ (t : List Text). best ∷ t) rest.split;
          earlier = ((omega arith), rest.earlier);
          not_later = rest.not_later;
        })
    | inr less ↦
        let rest = best_from-IsMostRecent best ids in
        rw (keeps best id ids less) (
          IsMostRecent-insert best id (best_from last_used best (last_used best) ids) ids
            rest.before rest.after (ground arith) rest.split rest.earlier rest.not_later)
  ]

  select_known-IsMostRecent :
      (a : Text) (accounts : List Text)
      → (id : Text) × (((select_known last_used (a ∷ accounts)).contract_id ≡ some id)
          × IsMostRecent (a ∷ accounts) id)
  unfolding select_known best_from
  select_known-IsMostRecent a [] = (a, (refl, best_from-IsMostRecent a []))
  select_known-IsMostRecent a (b ∷ accounts) = (
    best_from last_used a (last_used a) (b ∷ accounts),
    (ap some (keeps a a (b ∷ accounts) (ground arith)), best_from-IsMostRecent a (b ∷ accounts)),
  )

module _ (upper : Text → Text) (last_used : Text → ℕ) where
  -- When an account is known, one is chosen. It is the parameter in capitals, and then a contract id,
  -- or else the first of the accounts used most recently.
  pub select_claimer-IsMostRecent :
      (param : Option Text) (a : Text) (accounts : List Text)
      → (id : Text) × (((select_claimer upper last_used param (a ∷ accounts)).contract_id ≡ some id)
          × (((p : Text) × ((param ≡ some p) × ((id ≡ upper p) × (is_contract_id id ≡ true))))
              ⊎ IsMostRecent last_used (a ∷ accounts) id))
  unfolding select_claimer
  select_claimer-IsMostRecent none a accounts =
      let (id, (chosen, best)) = select_known-IsMostRecent last_used a accounts in
      (id, (chosen, inr best))
  select_claimer-IsMostRecent (some p) a accounts =
      elim (Bool-cases (truthy (some p) && is_contract_id (upper p))) [
        | inl given ↦
            (upper p, (rw (given, select_claimer) refl, inl (p, (refl, (refl, ground arith)))))
        | inr other ↦
            let (id, (chosen, best)) = select_known-IsMostRecent last_used a accounts in
            (id, (rw (other, select_claimer) chosen, inr best))
      ]
