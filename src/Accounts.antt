-- ===== src/Accounts.antt =====
-- packages/passkey-sdk/src/storage.ts: the accounts of a browser. The two lists are what
-- "nido:accounts" and "nido:pending" parse to, empty when nothing is stored; credentials, names and
-- labels under keys of their own are left out.
pub mod Activation
use nido.Base.{List, [], ◌∷◌, ◌++◌, Option, none, some, Bool, true, false, ◌||◌, not, if◌then◌else◌}
use nido.Base.Decimal.{Text}
use nido.Base.Texts.{same_text, has}

pub record PendingAccount : Type 0 where
  pub contract_id : Text
  pub setup_key : Text

pub record Accounts : Type 0 where
  pub accounts : List Text
  pub pending : List PendingAccount

unfoldable pub save_account : Text → Accounts → Accounts
save_account contract_id s =
    if has s.accounts contract_id
    then s
    else record { accounts = s.accounts ++ contract_id ∷ []; pending = s.pending }

-- `find` and the change of what it found, or `push` at the end.
unfoldable pub put_pending : Text → Text → List PendingAccount → List PendingAccount
put_pending contract_id setup_key [] =
    record { contract_id = contract_id; setup_key = setup_key } ∷ []
put_pending contract_id setup_key (p ∷ pending) =
    let rest = put_pending contract_id setup_key pending in
    if same_text p.contract_id contract_id
    then record { contract_id = p.contract_id; setup_key = setup_key } ∷ pending
    else p ∷ rest

unfoldable pub save_pending_account : Text → Text → Accounts → Accounts
save_pending_account contract_id setup_key s = record {
  accounts = s.accounts;
  pending = put_pending contract_id setup_key s.pending;
}

unfoldable pub without : Text → List PendingAccount → List PendingAccount
without contract_id [] = []
without contract_id (p ∷ pending) =
    let rest = without contract_id pending in
    if not (same_text p.contract_id contract_id) then p ∷ rest else rest

unfoldable pub remove_pending_account : Text → Accounts → Accounts
remove_pending_account contract_id s = record {
  accounts = s.accounts;
  pending = without contract_id s.pending;
}

unfoldable pub activate_account : Text → Accounts → Accounts
activate_account contract_id s = save_account contract_id (remove_pending_account contract_id s)
