-- ===== src/Tests/Signatures.antt =====
-- Signatures: the compact form, and a call that a passkey signs, in the world of ZkRun.
use nido.Base.{
  ℕ, zero, suc, ◌+◌, ◌*◌, ◌^◌, ◌<◌, ◌≡◌, ◌⊎◌, [], ◌∷◌, ◌++◌, some, ok, length, take, drop,
  replicate, arith,
}
use nido.Base.Texts.{codes}
use nido.ZkRecovery.Field.{Bytes, IsBytes, bytes_to_big_int_be}
use nido.Signing.Der.{der_to_compact}
use nido.Signing.Entry.{external}
use nido.Signing.Der.{p256_n}
use nido.Signing.Der.Compact.{der_of, der_to_compact-low}
use nido.Signing.Owner.{Signed}
use nido.ZkActions.Build.{ContractCall, insert_for}
use nido.Tests.ZkRun.{account, sim_entry}

-- A byte of zero before the first integer, and a second one above half of the order.
abbrev r_raw : Bytes
r_raw = 0 ∷ replicate 32 200

abbrev s_raw : Bytes
s_raw = replicate 32 200

der_to_compact-low_example :
    (sig : Bytes) × (low : ℕ) × (der_to_compact (der_of 70 r_raw s_raw []) ≡ ok sig)
    × (length sig ≡ 64)
    × (bytes_to_big_int_be (take 32 sig) ≡ bytes_to_big_int_be r_raw)
    × (bytes_to_big_int_be (drop 32 sig) ≡ low)
    × ((low ≡ bytes_to_big_int_be s_raw) ⊎ (low + bytes_to_big_int_be s_raw ≡ p256_n))
    × (2 * low < p256_n)
der_to_compact-low_example =
    der_to_compact-low 70 r_raw s_raw [] bytes_r bytes_s (omega arith) (omega arith) fits_r fits_s
  where
    many : (k : ℕ) → IsBytes (replicate k 200)
    many zero = tt
    many (suc k) = (omega arith, many k)

    bytes_r : IsBytes r_raw
    bytes_r = (omega arith, many 32)

    bytes_s : IsBytes s_raw
    bytes_s = many 32

    fits_r : bytes_to_big_int_be r_raw < 2 ^ 256
    fits_r = unfold bytes_to_big_int_be in omega arith

    fits_s : bytes_to_big_int_be s_raw < p256_n
    fits_s = unfold bytes_to_big_int_be in omega arith

abbrev call : ContractCall
call = insert_for (codes "CPOOL") account (1 ∷ [])

-- The digest of the entry at ledger 10100, under rule 3, as the toy encoding gives it.
abbrev digest : Bytes
digest = 10100 ∷ codes "Test" ++ replicate 27 0

abbrev signed : Signed ContractCall
signed = record {
  transaction = record {
    call = call;
    auth =
        record sim_entry {
          signature_expiration_ledger = 10100;
          signature = some (record {
            context_rule_ids = 3 ∷ [];
            signers =
                external (codes "CVERIFIER") (0xab ∷ []) (record {
                  authenticator_data = 5 ∷ [];
                  client_data_json = digest;
                  signature = replicate 31 0 ++ 1 ∷ replicate 31 0 ++ 2 ∷ [];
                })
                ∷ [];
          });
        }
        ∷ [];
  };
  challenge = digest;
}
