-- ===== src/Upserts/Workflows.antt =====
-- `upsert_workflow` of backend/app/upserts.py, for the payload's columns.
use flakehound.Base.{ℕ, String, Option, List, ◌==◌, coalesce}
use flakehound.Base.Upsert.{upsert}
use flakehound.Facts.{Workflow}

unfoldable pub merge_workflow : ℕ → Workflow → Workflow → Workflow
merge_workflow now new old = record old {
  name = coalesce new.name old.name;
  path = coalesce new.path old.path;
  state = coalesce new.state old.state;
  updated_at = now;
}

unfoldable pub upsert_workflow :
    ℕ → ℕ → ℕ → Option String → Option String → Option String → List Workflow → List Workflow
unfolding merge_workflow
upsert_workflow now repo_id id name path state =
    let new : Workflow = record {
      id = id;
      repo_id = repo_id;
      name = name;
      path = path;
      state = state;
      created_at = now;
      updated_at = now;
    } in
    upsert (λ w. w.id == id) (merge_workflow now new) new
