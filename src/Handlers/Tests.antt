-- ===== src/Handlers/Tests.antt =====
-- The theorem on backend/app/handlers.py at a job that completes, over empty tables.
use flakehound.Base.{ℕ, String, true, Option, none, []}
use flakehound.Base.Result.{Returns}
use flakehound.Json.{Json, obj, field, end, num, str}
use flakehound.Detection.{Settings}
use flakehound.Handlers.{Store, handle_event}
use flakehound.Handlers.Keeps.{IsSound, handle_event-IsSound}

abbrev settings : Settings
settings = record { timed_out_is_failure = true; exclude_infra_failures = true }

abbrev empty : Store
empty = record { installations = []; repos = []; workflows = []; runs = []; jobs = []; events = [] }

empty-IsSound : IsSound empty
empty-IsSound = record { owned = tt; one_per_group = tt }

abbrev parse : String → Option ℕ
parse text = none

abbrev job : Json
job = obj (
    field "id" (num 10) (
      field "run_id" (num 1) (
        field "head_sha" (str "abc") (
          field "name" (str "test")
            (field "status" (str "completed") (field "conclusion" (str "success") end))))))

abbrev payload : Json
payload = obj (
    field "workflow_job" job (
      field "installation" (obj (field "id" (num 9) end))
        (field "repository" (obj (field "id" (num 3) (field "full_name" (str "o/r") end))) end)))

handle_event-IsSound_example :
    Returns IsSound (handle_event parse settings 500 "workflow_job" payload empty)
handle_event-IsSound_example =
    handle_event-IsSound parse settings 500 "workflow_job" payload empty empty-IsSound
