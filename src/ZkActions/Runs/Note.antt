-- ===== src/ZkActions/Runs/Note.antt =====
-- zkRecoveryActions.ts and overlay.ts: the note that an initiated recovery leaves in the browser.
use nido.Base.{◌≡◌, ◌≢◌, refl, sym, ◌∙◌, inl, inr, Option, none, some, true, false}
use nido.Base.Decimal.{Text}
use nido.Base.Dict.{Dict, lookup, insert, lookup-insert}
use nido.Base.Texts.{same_text, same_text_refl, same_text-cases}
use nido.ZkActions.Staged.{StagedRecovery, Storage, storage_key, stage_recovery, read_staged}

storage_key-injective : (a b : Text) → storage_key a ≡ storage_key b → a ≡ b
unfolding storage_key
storage_key-injective a b e = cc

same_key : (a b : Text) → a ≢ b → same_text (storage_key a) (storage_key b) ≡ false
same_key a b other = elim (same_text-cases (storage_key a) (storage_key b)) [
  | inl (same, e) ↦ absurd (other (storage_key-injective a b e))
  | inr (apart, n) ↦ apart
]

-- A storage that is there and takes writes and answers reads.
pub record IsUsable (storage : Storage) : Type 0 where
  pub held : Dict Text
  pub items : storage.items ≡ some held
  pub reads : storage.readable ≡ true
  pub writes : storage.writable ≡ true

module _ (stringify : StagedRecovery → Text) (parse : Text → Option StagedRecovery)
    (parsed : (staged : StagedRecovery) → parse (stringify staged) ≡ some staged) where
  read_staged-items :
      (storage : Storage) (account : Text) (d : Dict Text)
      → storage.items ≡ some d
      → storage.readable ≡ true
      → read_staged parse storage account
        ≡ elim (lookup (storage_key account) d) [ none ↦ none | some raw ↦ parse raw ]
  unfolding read_staged
  read_staged-items storage account d items reads = rw (items, reads) refl

  stage_recovery-items :
      (storage : Storage) (account : Text) (staged : StagedRecovery) (d : Dict Text)
      → storage.items ≡ some d
      → storage.writable ≡ true
      → ((stage_recovery stringify storage account staged).items
          ≡ some (insert (storage_key account) (stringify staged) d))
        × ((stage_recovery stringify storage account staged).readable ≡ storage.readable)
  unfolding stage_recovery
  stage_recovery-items storage account staged d items writes =
      rw (stage_recovery, items, writes) (refl, refl)

  -- The note is read back, and the notes of other accounts are as before.
  pub read_staged-stage_recovery :
      (storage : Storage) (account : Text) (staged : StagedRecovery)
      → IsUsable storage
      → (read_staged parse (stage_recovery stringify storage account staged) account ≡ some staged)
        × ((other : Text)
            → account ≢ other
            → read_staged parse (stage_recovery stringify storage account staged) other
              ≡ read_staged parse storage other)
  read_staged-stage_recovery storage account staged h =
      let (items, readable) = stage_recovery-items storage account staged h.held h.items h.writes in
      let stored = stage_recovery stringify storage account staged in
      let now = insert (storage_key account) (stringify staged) h.held in
      (
        read_staged-items stored account now items (readable ∙ h.reads)
            ∙ rw
                (
                  lookup-insert (storage_key account) (storage_key account) (stringify staged)
                      h.held,
                  same_text_refl (storage_key account),
                )
                (parsed staged),
        λ other apart.
            read_staged-items stored other now items (readable ∙ h.reads)
            ∙ rw
                (
                  lookup-insert (storage_key account) (storage_key other) (stringify staged) h.held,
                  same_key account other apart,
                )
                (sym (read_staged-items storage other h.held h.items h.reads)),
      )
