-- ===== src/Relayer/Gate/Allowed.antt =====
-- allowlist.ts and index.ts: what passes the gate.
use nido.Base.{◌≡◌, Option, none, some, Elem}
use nido.Base.Decimal.{Text}
use nido.Relayer.Gate.{
  allowed_functions, HostFunction, invoke_contract, Envelope, Params,
  extract_func_xdr_from_transaction_xdr,
}

module _ (from_xdr : Text → Option HostFunction) (envelope : Text → Option Envelope) where
  -- The text decodes to the invocation of a contract function of the list.
  abbrev pub IsListedCall : Text → Type 0
  IsListedCall func =
      (name : Text) × ((from_xdr func ≡ some (invoke_contract name)) × Elem name allowed_functions)

  -- The host function that a request submits: as such, or as the only operation of a transaction.
  abbrev pub submitted : Params → Option Text
  submitted params = elim (params.func) [
    | some func ↦ some func
    | none ↦ elim (params.xdr) [
      | none ↦ none
      | some xdr ↦ extract_func_xdr_from_transaction_xdr envelope xdr
    ]
  ]
