-- ===== src/ZkRecovery/AuthHash/Preimage.antt =====
-- authHash.ts: the fifteen inputs of the hash, and what they determine.
use nido.Base.{
  ℕ, zero, suc, ◌^◌, ◌<◌, ◌≡◌, refl, List, [], ◌∷◌, ◌++◌, Option, none, some, ok, length, get_or,
  slice, take, drop, replicate, All, arith,
}
use nido.Base.Decimal.{Text}
use nido.ZkRecovery.Field.{Fr, Bytes, IsBytes, u256_from_u64, dom_auth}
use nido.ZkRecovery.Field.Split.{
  high, low, split16_lem, high-lt, low-lt, halves_injective, take-IsBytes, drop-IsBytes,
  length-take_of_le, length-drop_add, take_all, take-drop_injective,
}
use nido.ZkRecovery.AuthHash.{AuthHashParams, pubkey_inputs, auth_inputs}
use nido.ZkRecovery.Merkle.Binding.{IsCanonical}

-- The bytes of the key, zeros for none.
abbrev pub key_bytes : Option Bytes → Bytes
key_bytes none = replicate 65 0
key_bytes (some key) = key

pub get_or-IsBytes : (b : Bytes) (i : ℕ) → IsBytes b → get_or b i 0 < 256
get_or-IsBytes [] i h = omega arith
get_or-IsBytes (x ∷ b) zero (hx, h) = hx
get_or-IsBytes (x ∷ b) (suc i) (hx, h) = get_or-IsBytes b i h

pub u256_from_u64_lem : (x : ℕ) → x < 2 ^ 64 → u256_from_u64 x ≡ ok x
unfolding u256_from_u64
u256_from_u64_lem x h = ground arith

abbrev pub key_x : Bytes → Bytes
key_x key = slice key 1 33

abbrev pub key_y : Bytes → Bytes
key_y key = slice key 33 65

pub key_x-length : (key : Bytes) → length key ≡ 65 → length (key_x key) ≡ 32
key_x-length key h =
    length-take_of_le 32 (drop 1 key) (omega (arith, length-drop_add 1 key (omega arith)))

pub key_y-length : (key : Bytes) → length key ≡ 65 → length (key_y key) ≡ 32
key_y-length key h =
    length-take_of_le 32 (drop 33 key) (omega (arith, length-drop_add 33 key (omega arith)))

pub slice-IsBytes : (i n : ℕ) (b : Bytes) → IsBytes b → IsBytes (take n (drop i b))
slice-IsBytes i n b h = take-IsBytes n (drop i b) (drop-IsBytes i b h)

-- A key is its first byte and its two coordinates.
pub key_injective :
    (b c : Bytes)
    → length b ≡ 65
    → length c ≡ 65
    → get_or b 0 0 ≡ get_or c 0 0
    → key_x b ≡ key_x c
    → key_y b ≡ key_y c
    → b ≡ c
key_injective [] c hb hc e ex ey = absurd (omega arith)
key_injective (d ∷ b) [] hb hc e ex ey = absurd (omega arith)
key_injective (d ∷ b) (f ∷ c) hb hc e ex ey =
    let rest_b : take 32 (drop 32 b) ≡ drop 32 b =
      take_all 32 (drop 32 b) (omega (arith, length-drop_add 32 b (omega arith))) in
    let rest_c : take 32 (drop 32 c) ≡ drop 32 c =
      take_all 32 (drop 32 c) (omega (arith, length-drop_add 32 c (omega arith))) in
    let same : b ≡ c = take-drop_injective 32 b c ex (cc) in cc

abbrev pub key_inputs : Bytes → List Fr
key_inputs key =
    get_or key 0 0 ∷ high (key_x key) ∷ low (key_x key) ∷ high (key_y key) ∷ low (key_y key) ∷ []

pub pubkey_inputs_lem :
    (key : Option Bytes)
    → IsBytes (key_bytes key)
    → length (key_bytes key) ≡ 65
    → pubkey_inputs key ≡ ok (key_inputs (key_bytes key))
unfolding pubkey_inputs
pubkey_inputs_lem none b h = refl
pubkey_inputs_lem (some key) b h =
    rw
      (
        h,
        u256_from_u64_lem (get_or key 0 0) (omega (arith, get_or-IsBytes key 0 b)),
        split16_lem (key_x key) (key_x-length key h),
        split16_lem (key_y key) (key_y-length key h),
      )
      refl

module _ (sha256 : Bytes → Bytes) (encode : Text → Bytes) where
  abbrev pub npass : AuthHashParams → Bytes
  npass p = sha256 (encode p.network_passphrase)

  -- Byte arrays of the lengths that their types promise, and numbers of 64 bits.
  pub record IsCall (p : AuthHashParams) : Type 0 where
    pub action-lt : p.action < 2 ^ 64
    pub account-IsBytes : IsBytes p.account_id32
    pub account-length : length p.account_id32 ≡ 32
    pub npass-IsBytes : IsBytes (npass p)
    pub npass-length : length (npass p) ≡ 32
    pub controller-IsBytes : IsBytes p.controller_id32
    pub controller-length : length p.controller_id32 ≡ 32
    pub key-IsBytes : IsBytes (key_bytes p.new_pubkey65)
    pub key-length : length (key_bytes p.new_pubkey65) ≡ 65
    pub nonce-lt : p.nonce < 2 ^ 64
    pub timelock-lt : p.timelock_secs < 2 ^ 64

  abbrev pub preimage : AuthHashParams → List Fr
  preimage p =
      dom_auth
        ∷ p.action
        ∷ high p.account_id32
        ∷ low p.account_id32
        ∷ high (npass p)
        ∷ low (npass p)
        ∷ high p.controller_id32
        ∷ low p.controller_id32
        ∷ key_inputs (key_bytes p.new_pubkey65)
      ++ p.nonce ∷ p.timelock_secs ∷ []

  pub auth_inputs_lem :
      (p : AuthHashParams) → IsCall p → auth_inputs sha256 encode p ≡ ok (preimage p)
  unfolding auth_inputs
  auth_inputs_lem p h =
      rw
        (
          u256_from_u64_lem p.action h.action-lt,
          split16_lem p.account_id32 h.account-length,
          split16_lem (npass p) h.npass-length,
          split16_lem p.controller_id32 h.controller-length,
          pubkey_inputs_lem p.new_pubkey65 h.key-IsBytes h.key-length,
          u256_from_u64_lem p.nonce h.nonce-lt,
          u256_from_u64_lem p.timelock_secs h.timelock-lt,
        )
        refl

  -- Every input is below the order of the field, so that the hash does not reduce it.
  pub preimage-IsCanonical : (p : AuthHashParams) → IsCall p → All IsCanonical (preimage p)
  preimage-IsCanonical p h =
      let key = key_bytes p.new_pubkey65 in
      let x-IsBytes : IsBytes (key_x key) = slice-IsBytes 1 32 key h.key-IsBytes in
      let y-IsBytes : IsBytes (key_y key) = slice-IsBytes 33 32 key h.key-IsBytes in
      omega (
        arith,
        h.action-lt,
        h.nonce-lt,
        h.timelock-lt,
        high-lt p.account_id32 h.account-IsBytes h.account-length,
        low-lt p.account_id32 h.account-IsBytes h.account-length,
        high-lt (npass p) h.npass-IsBytes h.npass-length,
        low-lt (npass p) h.npass-IsBytes h.npass-length,
        high-lt p.controller_id32 h.controller-IsBytes h.controller-length,
        low-lt p.controller_id32 h.controller-IsBytes h.controller-length,
        get_or-IsBytes key 0 h.key-IsBytes,
        high-lt (key_x key) x-IsBytes (key_x-length key h.key-length),
        low-lt (key_x key) x-IsBytes (key_x-length key h.key-length),
        high-lt (key_y key) y-IsBytes (key_y-length key h.key-length),
        low-lt (key_y key) y-IsBytes (key_y-length key h.key-length),
      )

  -- Two calls that agree on everything that the chain is asked to do.
  pub record IsSameCall (p q : AuthHashParams) : Type 0 where
    pub action : p.action ≡ q.action
    pub account : p.account_id32 ≡ q.account_id32
    pub network : npass p ≡ npass q
    pub controller : p.controller_id32 ≡ q.controller_id32
    pub key : key_bytes p.new_pubkey65 ≡ key_bytes q.new_pubkey65
    pub nonce : p.nonce ≡ q.nonce
    pub timelock : p.timelock_secs ≡ q.timelock_secs

  pub preimage-injective :
      (p q : AuthHashParams) → IsCall p → IsCall q → preimage p ≡ preimage q → IsSameCall p q
  preimage-injective p q h k e =
      let kp = key_bytes p.new_pubkey65 in
      let kq = key_bytes q.new_pubkey65 in
      let hx : high (key_x kp) ≡ high (key_x kq) = cc in
      let lx : low (key_x kp) ≡ low (key_x kq) = cc in
      let hy : high (key_y kp) ≡ high (key_y kq) = cc in
      let ly : low (key_y kp) ≡ low (key_y kq) = cc in
      record {
        action = cc;
        account =
            halves_injective p.account_id32 q.account_id32 h.account-IsBytes k.account-IsBytes
              h.account-length k.account-length (cc) (cc);
        network =
            halves_injective (npass p) (npass q) h.npass-IsBytes k.npass-IsBytes h.npass-length
              k.npass-length (cc) (cc);
        controller =
            halves_injective p.controller_id32 q.controller_id32 h.controller-IsBytes
              k.controller-IsBytes h.controller-length k.controller-length (cc) (cc);
        key =
            key_injective kp kq h.key-length k.key-length (cc)
              (halves_injective (key_x kp) (key_x kq) (slice-IsBytes 1 32 kp h.key-IsBytes)
                (slice-IsBytes 1 32 kq k.key-IsBytes) (key_x-length kp h.key-length)
                (key_x-length kq k.key-length) hx lx)
              (halves_injective (key_y kp) (key_y kq) (slice-IsBytes 33 32 kp h.key-IsBytes)
                (slice-IsBytes 33 32 kq k.key-IsBytes) (key_y-length kp h.key-length)
                (key_y-length kq k.key-length) hy ly);
        nonce = cc;
        timelock = cc;
      }
