-- ===== src/Tests/Relaying.antt =====
-- The relayer's client and its gate.
use nido.Base.{ℕ, ◌≡◌, refl, [], ◌∷◌, Option, none, some, Result, ok, err, if◌then◌else◌, leb}
use nido.Base.Decimal.{Text}
use nido.Relayer.Wait.{
  Poll, throws, responds, with_onchain_code, otherwise, rethrown, confirmed, submitted, done,
  lost_contact, wait_from, wait_for_confirmation,
}
use nido.Base.Texts.{codes}
use nido.Relayer.Gate.{
  HostFunction, invoke_contract, Envelope, v1, invoke_host_function, GateError,
  function_not_allowed, Params, allowed_functions, invoked_function_name, assert_allowed_or_reject,
  extract_func_xdr_from_transaction_xdr, gate_request, handler,
}

-- A failed poll, a response of which `onPoll` throws, a submitted transaction, then a confirmed one.
abbrev polls : ℕ → Poll ℕ
polls i =
    if leb i 0
    then throws otherwise
    else responds (record { body = i; status = some (if leb i 2 then submitted else confirmed) })
        (if leb i 1 then some otherwise else none)

confirms : wait_for_confirmation polls 55 ≡ done (record { body = 3; status = some confirmed })
unfolding wait_for_confirmation wait_from
confirms = refl

gives_up : wait_for_confirmation {Body = ℕ} (λ i. throws otherwise) 55 ≡ lost_contact none
unfolding wait_for_confirmation wait_from
gives_up = refl

-- A relayer whose error names the code of a failure on chain.
stops : wait_for_confirmation {Body = ℕ} (λ i. throws with_onchain_code) 55 ≡ rethrown
unfolding wait_for_confirmation wait_from
stops = refl

abbrev toy_from_xdr : Text → Option HostFunction
toy_from_xdr text = some (invoke_contract text)

abbrev toy_envelope : Text → Option Envelope
toy_envelope text = some (v1 (invoke_host_function text ∷ []))

abbrev toy_handler : Option Params → Result GateError ℕ
toy_handler params = ok 200

abbrev transfer : Params
transfer = record { func = none; xdr = some (codes "execute") }

refused :
    handler toy_from_xdr toy_envelope toy_handler
      (some (record { func = some (codes "drain"); xdr = none }))
    ≡ err (function_not_allowed (some (codes "drain")))
unfolding handler gate_request extract_func_xdr_from_transaction_xdr assert_allowed_or_reject
    invoked_function_name allowed_functions
refused = refl
