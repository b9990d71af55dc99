-- ===== src/Accounts/Activation.antt =====
-- storage.ts: what an activation does to the two lists.
use nido.Base.{
  ◌≡◌, ◌≢◌, ◌⊎◌, ◌↔◌, inl, inr, refl, List, [], ◌∷◌, true, Bool-cases, Elem, Elem-append,
}
use nido.Base.Decimal.{Text}
use nido.Base.Texts.{same_text, same_text-eq, same_text_refl, has, has-Elem}
use nido.Accounts.{
  PendingAccount, Accounts, save_account, without, remove_pending_account, activate_account,
}

Elem-without :
    (p : PendingAccount) (id : Text) (pending : List PendingAccount)
    → Elem p (without id pending) ↔ (Elem p pending × (p.contract_id ≢ id))
unfolding without
Elem-without p id [] = ((λ m. absurd m), λ h. h.0)
Elem-without p id (q ∷ pending) =
    let (to, from) = Elem-without p id pending in
    elim (Bool-cases (same_text q.contract_id id)) [
      | inl same ↦
          let eq = same_text-eq q.contract_id id same in
          rw same (
            (λ m. let (old, other) = to m in (inr old, other)),
            λ (m, other). elim m [
              | inl here ↦ absurd (other (rw here eq))
              | inr there ↦ from (there, other)
            ],
          )
      | inr differs ↦ rw differs (
        (λ m. elim m [
          | inl here ↦ (
            inl here,
            λ e.
                let clash : same_text q.contract_id id ≡ true =
                  rw (← here, e) (same_text_refl id) in
                cc,
          )
          | inr there ↦ let (old, other) = to there in (inr old, other)
        ]),
        λ (m, other). elim m [ inl here ↦ inl here | inr there ↦ inr (from (there, other)) ],
      )
    ]

Elem-save_account :
    (a id : Text) (s : Accounts)
    → Elem a ((save_account id s).accounts) ↔ (Elem a s.accounts ⊎ (a ≡ id))
unfolding save_account
Elem-save_account a id s = elim (Bool-cases (has s.accounts id)) [
  | inl known ↦
      rw known (inl, λ h. elim h [ inl m ↦ m | inr e ↦ rw e (has-Elem s.accounts id known) ])
  | inr new ↦
      let (to, from) = Elem-append a s.accounts (id ∷ []) in
      rw new (
        (λ m. elim (to m) [
          | inl old ↦ inl old
          | inr last ↦ elim last [ inl e ↦ inr e | inr no_more ↦ absurd no_more ]
        ]),
        λ h. from (elim h [ inl m ↦ inl m | inr e ↦ inr (inl e) ]),
      )
]

save_account-pending : (id : Text) (s : Accounts) → (save_account id s).pending ≡ s.pending
unfolding save_account
save_account-pending id s = elim (Bool-cases (has s.accounts id)) [
  | inl known ↦ rw known refl
  | inr new ↦ rw new refl
]

-- Activation makes the account known and removes every pending record of it, and changes nothing
-- else: exactly the accounts of before and this one are known, and exactly the pending records of
-- the others are left.
pub activate_account-Elem :
    (id : Text) (s : Accounts)
    → ((a : Text) → Elem a ((activate_account id s).accounts) ↔ (Elem a s.accounts ⊎ (a ≡ id)))
      × ((p : PendingAccount)
          → Elem p ((activate_account id s).pending) ↔ (Elem p s.pending × (p.contract_id ≢ id)))
unfolding activate_account remove_pending_account
activate_account-Elem id s = (
  (λ a. Elem-save_account a id (remove_pending_account id s)),
  (λ p. rw (save_account-pending id (remove_pending_account id s)) (Elem-without p id s.pending)),
)
