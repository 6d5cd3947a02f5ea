-- ===== src/Upserts/Installations.antt =====
-- `upsert_installation` and `set_installation_lifecycle` of backend/app/upserts.py.
use flakehound.Base.{ℕ, String, Option, none, List, map, ◌==◌, coalesce, if◌then◌else◌}
use flakehound.Base.Upsert.{upsert}
use flakehound.Facts.{Installation}

unfoldable pub merge_installation : ℕ → Installation → Installation → Installation
merge_installation now new old = record old {
  account_id = coalesce new.account_id old.account_id;
  account_login = coalesce new.account_login old.account_login;
  account_type = coalesce new.account_type old.account_type;
  updated_at = now;
}

unfoldable pub upsert_installation :
    ℕ → ℕ → Option ℕ → Option String → Option String → List Installation → List Installation
unfolding merge_installation
upsert_installation now id account_id account_login account_type =
    let new : Installation = record {
      id = id;
      account_id = account_id;
      account_login = account_login;
      account_type = account_type;
      suspended_at = none;
      deleted_at = none;
      created_at = now;
      updated_at = now;
    } in
    upsert (λ i. i.id == id) (merge_installation now new) new

unfoldable pub set_installation_lifecycle :
    ℕ → ℕ → Option ℕ → Option ℕ → List Installation → List Installation
set_installation_lifecycle now id suspended_at deleted_at = map (λ i.
    if i.id == id
    then record i { suspended_at = suspended_at; deleted_at = deleted_at; updated_at = now }
    else i)
