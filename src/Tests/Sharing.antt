-- ===== src/Tests/Sharing.antt =====
-- Two origins with one account each.
use nido.Base.{[], ◌∷◌, ◌++◌, none, some, ◌≡◌, refl, replicate}
use nido.Base.Decimal.{Text}
use nido.Base.Texts.{codes}
use nido.Claiming.{is_contract_id}
use nido.Sharing.{
  RawSnapshot, entry, NidoAccountSnapshot, merged_snapshot, normalize_snapshot, unique_contract_ids,
  unique_from, normalize_contract_id, normalize_pending, pending_from, merge_pending, present,
  setup_key_of,
}
use nido.Sharing.Clean.{IsClean, merged_snapshot-IsClean}

abbrev id_of : Text → Text
id_of digit = b'C' ∷ replicate 54 b'A' ++ digit

abbrev same : Text → Text
same s = s

abbrev here : NidoAccountSnapshot
here = record { accounts = id_of (codes "2") ∷ []; pending = []; names = [] }

-- The account that is active here is pending there.
abbrev there : RawSnapshot
there = record {
  accounts = some (id_of (codes "3")) ∷ none ∷ [];
  pending = entry (some (id_of (codes "2"))) none (some (codes "S")) ∷ [];
  names = [];
}

merged_ids : (merged_snapshot same here there).accounts ≡ id_of (codes "2") ∷ id_of (codes "3") ∷ []
unfolding merged_snapshot normalize_snapshot unique_contract_ids unique_from normalize_contract_id
    is_contract_id present
merged_ids = refl

no_pending : (merged_snapshot same here there).pending ≡ []
unfolding merged_snapshot normalize_snapshot unique_contract_ids unique_from normalize_contract_id
    is_contract_id present normalize_pending pending_from setup_key_of merge_pending
no_pending = refl

merged_snapshot-IsClean_example : IsClean (merged_snapshot same here there)
merged_snapshot-IsClean_example = merged_snapshot-IsClean same here there
