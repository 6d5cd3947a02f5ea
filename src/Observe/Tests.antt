-- ===== src/Observe/Tests.antt =====
-- The theorem on backend/app/observe.py at an ordinary repository.
use flakehound.Base.{ℕ, String, Option, refl, ◌≡◌, true, false, some}
use flakehound.Observe.{assess}
use flakehound.Base.Result.{Returns}
use flakehound.Json.{Json, obj, arr, cons, nil, field, end, num, str, bool, get, get_or, truthy}
use flakehound.Backfill.Handler.{listed}
use flakehound.Observe.Payloads.{
  SomeItem, is_active_workflow, is_code_triggered, facts_from_payloads,
  facts_from_payloads-IsWatchable,
}

abbrev parse : String → Option ℕ
parse text = some 1700000000000000

abbrev answer : Json
answer = obj (
    field "id" (num 5) (
      field "full_name" (str "o/r")
        (field "private" (bool false) (field "pushed_at" (str "2023-11-14T22:13:20Z") end))))

abbrev workflows : Json
workflows = obj (field "workflows" (arr (cons (obj (field "state" (str "active") end)) nil)) end)

abbrev runs : Json
runs = obj (
    field "total_count" (num 80)
      (field "workflow_runs" (arr (cons (obj (field "event" (str "push") end)) nil)) end))

watched :
    Returns
      (λ f. (assess 1700000500000000 f).eligible ≡ true)
      (facts_from_payloads parse answer workflows runs)
unfolding facts_from_payloads assess
watched = refl

facts_from_payloads-IsWatchable_example :
    Returns
      (λ f.
        (assess 1700000500000000 f).eligible ≡ true
        → (truthy (get_or (bool true) "private" answer) ≡ false)
          × SomeItem is_active_workflow (listed (get "workflows" workflows))
          × SomeItem is_code_triggered (listed (get "workflow_runs" runs)))
      (facts_from_payloads parse answer workflows runs)
facts_from_payloads-IsWatchable_example =
    facts_from_payloads-IsWatchable parse 1700000500000000 answer workflows runs
