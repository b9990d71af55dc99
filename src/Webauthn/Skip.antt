-- ===== src/Webauthn/Skip.antt =====
-- webauthn.ts: `skipValue` ends. Its nesting is bounded by the bytes that are left.
use nido.Base.{
  ℕ, zero, suc, ◌+◌, ◌-◌, ◌≤◌, ◌<◌, ◌≡◌, ◌≢◌, refl, [], ◌∷◌, Option, none, some, Bool, true, false,
  ◌||◌, Result, ok, err, ◌>>=◌, ◌==◌, ltb, if◌then◌else◌, inl, inr, Option-cases, length, get_elem?,
  arith,
}
use nido.ZkRecovery.Field.{Bytes}
use nido.Webauthn.{
  WebauthnError, out_of_fuel, out_of_range, Offset, plus, byte_at, bits_of, get_uint32, read_length,
  repeat, view_at, rounds, skip_item, skip_value, major, additional,
}

get_elem?-lt : (raw : Bytes) (i b : ℕ) → get_elem? raw i ≡ some b → i < length raw
get_elem?-lt [] i b h = cc
get_elem?-lt (x ∷ raw) zero b h = omega arith
get_elem?-lt (x ∷ raw) (suc i) b h = omega (arith, get_elem?-lt raw i b h)

module _ (raw : Bytes) where
  -- The bytes from an offset on.
  abbrev pub remaining : Offset → ℕ
  remaining none = 0
  remaining (some offset) = length raw - offset

  -- No fuel ran out, and what was returned is as `P` says.
  abbrev pub IsGood : {A : Type 0} → (A → Type 0) → Result WebauthnError A → Type 0
  IsGood P (ok a) = P a
  IsGood P (err e) = e ≢ out_of_fuel

  -- No more than `n` bytes are left.
  abbrev pub IsFine : ℕ → Result WebauthnError Offset → Type 0
  IsFine n = IsGood (λ offset. remaining offset ≤ n)

  abbrev pub IsRead : ℕ → Result WebauthnError (Option ℕ × Offset) → Type 0
  IsRead n = IsGood (λ read. remaining (read.1) ≤ n)

  pub IsGood-if :
      {A : Type 0} (P : A → Type 0) (b : Bool) (x y : Result WebauthnError A)
      → IsGood P x
      → IsGood P y
      → IsGood P (if b then x else y)
  IsGood-if P true x y hx hy = hx
  IsGood-if P false x y hx hy = hy

  pub IsGood->>= :
      {A B : Type 0} (P : A → Type 0) (Q : B → Type 0) (m : Result WebauthnError A)
      (f : A → Result WebauthnError B)
      → IsGood P m
      → ((a : A) → P a → IsGood Q (f a))
      → IsGood Q (m >>= f)
  IsGood->>= P Q (ok a) f h k = k a h
  IsGood->>= P Q (err e) f h k = h

  pub IsFine-mono : (m n : ℕ) (r : Result WebauthnError Offset) → m ≤ n → IsFine m r → IsFine n r
  IsFine-mono m n (ok o) le h = omega arith
  IsFine-mono m n (err e) le h = h

  repeat-IsFine :
      (n count : ℕ) (round : Offset → Result WebauthnError Offset) (offset : Offset)
      → ((o : Offset) → remaining o ≤ n → IsFine n (round o))
      → remaining offset ≤ n
      → IsFine n (repeat count round offset)
  unfolding repeat
  repeat-IsFine n zero round offset h le = le
  repeat-IsFine n (suc count) round offset h le =
      IsGood->>= (λ o. remaining o ≤ n) (λ o. remaining o ≤ n) (round offset) (repeat count round)
        (h offset le) (λ o le'. repeat-IsFine n count round o h le')

  pub remaining-plus : (offset len : Offset) → remaining (plus offset len) ≤ remaining offset
  remaining-plus none len = omega arith
  remaining-plus (some o) none = omega arith
  remaining-plus (some o) (some n) = omega arith

  get_uint32-IsGood : (offset : Offset) → IsGood (λ n. Unit {0}) (get_uint32 raw offset)
  unfolding get_uint32
  get_uint32-IsGood offset =
      IsGood-if (λ (n : ℕ). Unit {0}) (ltb (length raw) (view_at offset + 4)) (err out_of_range) _
        (λ e. cc) tt

  pub read_length-IsRead :
      (info : ℕ) (offset : Offset) → IsRead (remaining offset) (read_length raw info offset)
  unfolding read_length
  read_length-IsRead info offset =
      let P = λ (read : Option ℕ × Offset). remaining (read.1) ≤ remaining offset in
      IsGood-if P (ltb info 24) _ _ (omega arith) (
        IsGood-if P (info == 24) _ _ (remaining-plus offset (some 1)) (
          IsGood-if P (info == 25) _ _ (remaining-plus offset (some 2)) (
            IsGood-if P (info == 26) _ _
              (IsGood->>= (λ (n : ℕ). Unit {0}) P (get_uint32 raw offset) _
                (get_uint32-IsGood offset) (λ n u. remaining-plus offset (some 4)))
              (λ e. cc))))

  skip_item-IsFine :
      (n kind : ℕ) (item : Offset → Result WebauthnError Offset) (len : Option ℕ) (next : Offset)
      → remaining next ≤ n
      → ((o : Offset) → remaining o ≤ n → IsFine n (item o))
      → IsFine n (skip_item item kind len next)
  unfolding skip_item
  skip_item-IsFine n kind item len next h k =
      let P = λ (offset : Offset). remaining offset ≤ n in
      let twice = λ (o : Offset) (le : remaining o ≤ n). IsGood->>= P P (item o) item (k o le) k in
      IsGood-if P (kind == 0 || kind == 1 || kind == 7) _ _ h (
        IsGood-if P (kind == 2 || kind == 3) _ _ (omega (arith, remaining-plus next len)) (
          IsGood-if P (kind == 4) _ _ (repeat-IsFine n (rounds len) item next k h) (
            IsGood-if P (kind == 5) _ _
              (repeat-IsFine n (rounds len) (λ o. item o >>= item) next twice h) (λ e. cc))))

  -- Behind the end a value is one byte that is not there.
  skip_value_beyond :
      (fuel : ℕ) (offset : Offset)
      → byte_at raw offset ≡ none
      → skip_value (suc fuel) raw offset ≡ ok (plus offset (some 1))
  unfolding skip_value skip_item read_length
  skip_value_beyond fuel offset h = rw (h, skip_value) refl

  byte_at-lt :
      (offset : Offset) (b : ℕ)
      → byte_at raw offset ≡ some b
      → remaining (plus offset (some 1)) < remaining offset
  byte_at-lt none b h = cc
  byte_at-lt (some o) b h = omega (arith, get_elem?-lt raw o b h)

  -- With fuel for more than the bytes that are left, no fuel runs out, and no byte is unread.
  pub skip_value-IsFine :
      (fuel : ℕ) (offset : Offset)
      → remaining offset < fuel
      → IsFine (remaining offset) (skip_value fuel raw offset)
  unfolding skip_value
  skip_value-IsFine zero offset h = elim h [ ]
  skip_value-IsFine (suc fuel) offset h = elim (Option-cases (byte_at raw offset)) [
    | inl beyond ↦ rw (skip_value_beyond fuel offset beyond) (remaining-plus offset (some 1))
    | inr (b, here) ↦
        let after = plus offset (some 1) in
        let less = byte_at-lt offset b here in
        IsGood->>= (λ (read : Option ℕ × Offset). remaining (read.1) ≤ remaining after)
          (λ (o : Offset). remaining o ≤ remaining offset)
          (read_length raw (additional (bits_of (byte_at raw offset))) after) _
          (read_length-IsRead (additional (bits_of (byte_at raw offset))) after)
          (λ (len, next) le. IsFine-mono (remaining after) (remaining offset) _ (omega arith) (
            skip_item-IsFine (remaining after) (major (bits_of (byte_at raw offset)))
              (skip_value fuel raw) len next le
              (λ o le'.
                IsFine-mono (remaining o) (remaining after) (skip_value fuel raw o) le'
                  (skip_value-IsFine fuel o (omega arith)))))
  ]
