-- ===== src/Reevaluate/Tests.antt =====
-- Queuing again the one webhook of a queue that has been queued again before.
use flakehound.Base.{◌≡◌, refl, none, some, List, [], ◌∷◌, ◌++◌, map, filter, length}
use flakehound.Json.{Json, num, obj, field, end, get, find, number}
use flakehound.Queue.{Row}
use flakehound.Queue.System.{new_row}
use flakehound.Reevaluate.{is_source, copy_all, enqueue_reevaluation}
use flakehound.Reevaluate.Again.{content, enqueue_reevaluation-again}

abbrev payload : Json
payload = obj (field "repository" (obj (field "id" (num 3) end)) end)

abbrev queue : List Row
unfolding new_row
queue =
    new_row 70 2 none "backfill_runs" none Json.null 1
    ∷ (new_row 60 1 (some "a") "webhook" (some "workflow_job") payload 0 ∷ [])

queued : (enqueue_reevaluation 90 (some 3) queue 3).1 ≡ (4, 1)
unfolding enqueue_reevaluation is_source get find number copy_all
queued = refl

queued_for_another : (enqueue_reevaluation 90 (some 4) queue 3).1 ≡ (3, 0)
unfolding enqueue_reevaluation is_source get find number copy_all
queued_for_another = refl

enqueue_reevaluation-again_example :
    (added : List Row) × (((enqueue_reevaluation 95
          (some 3)
          (enqueue_reevaluation 90 none queue 3).0
          (enqueue_reevaluation 90 none queue 3).1.0).0
        ≡ added ++ (enqueue_reevaluation 90 none queue 3).0)
      × ((map content added ≡ map content (filter (is_source (some 3)) queue))
          × ((enqueue_reevaluation 95
                (some 3)
                (enqueue_reevaluation 90 none queue 3).0
                (enqueue_reevaluation 90 none queue 3).1.0).1.1
              ≡ length (filter (is_source (some 3)) queue))))
enqueue_reevaluation-again_example = enqueue_reevaluation-again none (some 3) 90 95 3 queue
