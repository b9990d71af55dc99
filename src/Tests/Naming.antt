-- ===== src/Tests/Naming.antt =====
-- The claim of a name.
use nido.Base.{ℕ, ◌≡◌, ◌⊎◌, refl, [], ◌∷◌, none, some, true, if◌then◌else◌}
use nido.Base.Decimal.{Text}
use nido.Base.Texts.{codes, same_text}
use nido.Claiming.{
  valid_name_re, taken, classify_name_state, best_from, select_known, select_claimer,
  is_contract_id, recent,
}
use nido.Claiming.Recent.{IsMostRecent, select_claimer-IsMostRecent}

abbrev last_used : Text → ℕ
last_used id = if same_text id (codes "CB") then 7 else 3

abbrev upper : Text → Text
upper text = text

takes : classify_name_state (codes "alice2") (some (codes "CA")) ≡ taken
unfolding classify_name_state valid_name_re
takes = refl

selects :
    select_claimer upper last_used none (codes "CA" ∷ codes "CB" ∷ codes "CC" ∷ [])
    ≡ record { contract_id = some (codes "CB"); source = recent }
unfolding select_claimer select_known best_from
selects = refl

select_claimer-IsMostRecent_example :
    (id : Text) × (((select_claimer upper last_used
          (some (codes "x"))
          (codes "CA" ∷ codes "CB" ∷ [])).contract_id
        ≡ some id)
      × (((p : Text) × ((some (codes "x") ≡ some p)
              × ((id ≡ upper p) × (is_contract_id id ≡ true))))
          ⊎ IsMostRecent last_used (codes "CA" ∷ codes "CB" ∷ []) id))
select_claimer-IsMostRecent_example =
    select_claimer-IsMostRecent upper last_used (some (codes "x")) (codes "CA") (codes "CB" ∷ [])
