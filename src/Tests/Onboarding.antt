-- ===== src/Tests/Onboarding.antt =====
-- The accounts of a browser.
use nido.Base.{◌≡◌, refl, [], ◌∷◌}
use nido.Base.Texts.{codes}
use nido.Accounts.{
  Accounts, save_account, save_pending_account, put_pending, without, remove_pending_account,
  activate_account,
}

abbrev begun : Accounts
begun = record {
  accounts = codes "CA" ∷ [];
  pending = record { contract_id = codes "CB"; setup_key = codes "k" } ∷ [];
}

restarts : save_pending_account (codes "CB") (codes "n") begun ≡ record {
  accounts = codes "CA" ∷ [];
  pending = record { contract_id = codes "CB"; setup_key = codes "n" } ∷ [];
}
unfolding save_pending_account put_pending
restarts = refl

activates :
    activate_account (codes "CB") begun
    ≡ record { accounts = codes "CA" ∷ codes "CB" ∷ []; pending = [] }
unfolding activate_account remove_pending_account without save_account
activates = refl
