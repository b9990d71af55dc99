-- ===== src/Relayer/Gate.antt =====
-- infra/relayer/plugins/channels/allowlist.ts and index.ts: which requests reach the relayer. The
-- decoders of the Stellar SDK are parameters: `from_xdr` decodes a host function, and `envelope` a
-- transaction, none when they throw. The upstream handler is a parameter too.
pub mod Allowed
use nido.Base.{
  List, [], ◌∷◌, Option, none, some, Bool, true, false, ◌||◌, Result, ok, err, ◌>>=◌, ◌>>◌,
}
use nido.Base.Decimal.{Text}
use nido.Base.Texts.{codes, has}

unfoldable pub allowed_functions : List Text
allowed_functions =
    codes "create_account"
    ∷ codes "create_account_v2"
    ∷ codes "insert_for"
    ∷ codes "initiate_recovery"
    ∷ codes "cancel_recovery"
    ∷ codes "burn_nullifier"
    ∷ codes "enroll_zk_recovery"
    ∷ codes "add_context_rule"
    ∷ codes "remove_context_rule"
    ∷ codes "add_signer"
    ∷ codes "remove_signer"
    ∷ codes "execute"
    ∷ codes "register"
    ∷ []

pub data HostFunction : Type 0 where
  invoke_contract : (function_name : Text) → HostFunction
  other_function : HostFunction

-- An operation of a transaction: the invocation of a host function by its XDR, or another.
pub data OperationBody : Type 0 where
  invoke_host_function : (host_function : Text) → OperationBody
  other_operation : OperationBody

pub data Envelope : Type 0 where
  fee_bump v1 : (operations : List OperationBody) → Envelope
  other_envelope : Envelope

pub data GateError : Type 0 where
  function_not_allowed : (function : Option Text) → GateError

-- The parameters of a request: the fields that are strings.
pub record Params : Type 0 where
  pub func : Option Text
  pub xdr : Option Text

module _ (from_xdr : Text → Option HostFunction) where
  unfoldable pub invoked_function_name : Text → Option Text
  invoked_function_name func = elim (from_xdr func) [
    | none ↦ none
    | some f ↦ elim f [ invoke_contract name ↦ some name | other_function ↦ none ]
  ]

  unfoldable pub is_allowed : Text → Bool
  is_allowed func = elim (invoked_function_name func) [
    | none ↦ false
    | some name ↦ has allowed_functions name
  ]

  unfoldable pub assert_allowed_or_reject : Text → Result GateError (Unit {0})
  assert_allowed_or_reject func = elim (invoked_function_name func) [
    | none ↦ err (function_not_allowed none)
    | some name ↦ elim (has allowed_functions name) [
      | true ↦ ok tt
      | false ↦ err (function_not_allowed (some name))
    ]
  ]

module _ (envelope : Text → Option Envelope) where
  abbrev pub only_operation : List OperationBody → Option Text
  only_operation [] = none
  only_operation (invoke_host_function f ∷ []) = some f
  only_operation (other_operation ∷ []) = none
  only_operation (op ∷ op' ∷ ops) = none

  unfoldable pub extract_func_xdr_from_transaction_xdr : Text → Option Text
  extract_func_xdr_from_transaction_xdr xdr = elim (envelope xdr) [
    | none ↦ none
    | some e ↦ elim e [
      | fee_bump ops ↦ only_operation ops
      | v1 ops ↦ only_operation ops
      | other_envelope ↦ none
    ]
  ]

module _ (from_xdr : Text → Option HostFunction) (envelope : Text → Option Envelope) where
  -- `gateRequest`: none when the parameters are no object.
  unfoldable pub gate_request : Option Params → Result GateError (Unit {0})
  gate_request none = ok tt
  gate_request (some params) = elim (params.func) [
    | some func ↦ assert_allowed_or_reject from_xdr func
    | none ↦ elim (params.xdr) [
      | none ↦ ok tt
      | some xdr ↦ elim (extract_func_xdr_from_transaction_xdr envelope xdr) [
        | none ↦ ok tt
        | some extracted ↦ assert_allowed_or_reject from_xdr extracted
      ]
    ]
  ]

  unfoldable pub handler :
      {A : Type 0} → (Option Params → Result GateError A) → Option Params → Result GateError A
  handler channels_handler params = gate_request params >> channels_handler params
