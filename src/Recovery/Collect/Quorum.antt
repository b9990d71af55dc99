-- ===== src/Recovery/Collect/Quorum.antt =====
-- Whose replies a recovery collects (packages/frontend/src/lib/recoveryActions.ts): those of distinct
-- friends of the rule, each of which covers every staged transaction.
use nido.Base.{
  Result-cases, ℕ, List, [], ◌∷◌, ◌++◌, Option, some, ok, err, ◌≡◌, ◌≢◌, refl, sym, All, Elem, ◌==◌,
  length, inl, inr, Option-cases, Bool-cases, arith,
}
use mathlib.Core.Path.{subst}
use nido.Base.Decimal.{Text}
use nido.Base.Texts.{has, has-Elem, same_text-cases}
use nido.Base.Dict.{Dict, insert, values, All-values-insert}
use nido.Recovery.{FriendSignature, RotationStaging}
use nido.Recovery.Collect.{
  not_a_friend, wrong_cover, bad_blob, add_signature, add_friend_signature, collect_from_relay,
}

-- A reply of one of `friends` that covers `count` transactions.
pub record IsReply (friends : List Text) (count : ℕ) (fs : FriendSignature) : Type 0 where
  pub listed : Elem fs.friend_account friends
  pub covers : length fs.entries ≡ count

-- Every value is stored under its own account, and no account is there twice.
unfoldable pub Keyed : Dict FriendSignature → Type 0
Keyed [] = Unit
Keyed ((k, fs) ∷ d) =
    (k ≡ fs.friend_account) × All (λ other. other.friend_account ≢ k) (values d) × Keyed d

pub record IsCollected (staging : RotationStaging) : Type 0 where
  pub replies : All (IsReply staging.friends (length staging.txs)) (values staging.collected)
  pub keyed : Keyed staging.collected

Keyed-insert :
    (fs : FriendSignature) (d : Dict FriendSignature)
    → Keyed d
    → Keyed (insert fs.friend_account fs d)
unfolding Keyed insert values
Keyed-insert fs [] h = (refl, tt, tt)
Keyed-insert fs ((k, w) ∷ d) (own, apart, h) = elim (same_text-cases k fs.friend_account) [
  | inl (same, e) ↦ rw (insert, same) (e, apart, h)
  | inr (other, n) ↦
      rw (insert, other)
        (
          own,
          All-values-insert (λ o. o.friend_account ≢ k) fs.friend_account fs d (λ e. n (sym e))
              apart,
          Keyed-insert fs d h,
        )
]

module _ (decode : Text → Option FriendSignature) where
  add_signature-IsCollected :
      (staging after : RotationStaging) (fs : FriendSignature)
      → IsCollected staging
      → add_signature decode staging fs ≡ ok after
      → IsCollected after
  unfolding add_signature
  add_signature-IsCollected staging after fs h e =
      elim (Bool-cases (has staging.friends fs.friend_account)) [
        | inr stranger ↦ absurd (
            let clash : err (not_a_friend fs.friend_account) ≡ ok after =
              rw (add_signature, stranger) at e in
            cc)
        | inl listed ↦ elim (Bool-cases (length fs.entries == length staging.txs)) [
          | inr short ↦ absurd (
              let clash : err (wrong_cover (length fs.entries) (length staging.txs)) ≡ ok after =
                rw (add_signature, listed, short) at e in
              cc)
          | inl whole ↦
              let kept : record staging {
                collected = insert fs.friend_account fs staging.collected;
              }
                  ≡ after =
                let e' : ok
                      (record staging { collected = insert fs.friend_account fs staging.collected })
                    ≡ ok after =
                  rw (add_signature, listed, whole) at e in
                cc in
              let reply : IsReply staging.friends (length staging.txs) fs = record {
                listed = has-Elem staging.friends fs.friend_account listed;
                covers = ground arith;
              } in
              subst IsCollected kept (record {
                replies =
                    All-values-insert (IsReply staging.friends (length staging.txs))
                      fs.friend_account fs staging.collected reply h.replies;
                keyed = Keyed-insert fs staging.collected h.keyed;
              })
        ]
      ]

  add_friend_signature-IsCollected :
      (staging after : RotationStaging) (blob : Text)
      → IsCollected staging
      → add_friend_signature decode (some staging) blob ≡ ok after
      → IsCollected after
  unfolding add_friend_signature
  add_friend_signature-IsCollected staging after blob h e = elim (Option-cases (decode blob)) [
    | inl n ↦ absurd (let clash : err bad_blob ≡ ok after = rw (add_friend_signature, n) at e in cc)
    | inr (fs, n) ↦ add_signature-IsCollected staging after fs h (rw (add_friend_signature, n) at e)
  ]

  -- Whatever the relay lists, `collectFromRelay` leaves a staging whose replies are those of distinct
  -- friends of the rule, each covering every staged transaction, when it found one.
  pub collect_from_relay-IsCollected :
      (known : List Text) (listed : List (Text × Text)) (staging : RotationStaging)
      (added : List Text)
      → IsCollected staging
      → (after : RotationStaging) × ((collect_from_relay decode known listed (some staging) added).0
          ≡ some after)
        × IsCollected after
  unfolding collect_from_relay
  collect_from_relay-IsCollected known [] staging added h = (staging, refl, h)
  collect_from_relay-IsCollected known ((friend, blob) ∷ listed) staging added h =
      elim (Bool-cases (has known friend)) [
        | inl old ↦
            rw (collect_from_relay, old)
              (collect_from_relay-IsCollected known listed staging added h)
        | inr new ↦ elim (Result-cases (add_friend_signature decode (some staging) blob)) [
          | inr (error, e) ↦
              rw (collect_from_relay, new, e)
                (collect_from_relay-IsCollected known listed staging added h)
          | inl (after, e) ↦
              rw (collect_from_relay, new, e)
                (collect_from_relay-IsCollected known listed after (added ++ friend ∷ [])
                  (add_friend_signature-IsCollected staging after blob h e))
        ]
      ]
