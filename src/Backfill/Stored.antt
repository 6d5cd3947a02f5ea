-- ===== src/Backfill/Stored.antt =====
-- The jobs that `_record_job` of backend/app/backfill.py stores of a page of complete ones.
use flakehound.Base.{
  ℕ, ◌≡◌, refl, sym, ap, ◌∙◌, subst, String, true, Option, some, List, [], ◌∷◌, ◌==◌, ==_iff, In,
  inl, inr, Bool-cases,
}
use flakehound.Base.Result.{ok}
use flakehound.Base.Upsert.{upsert}
use flakehound.Json.{
  Json, Items, nil, cons, null, bool, str, arr, num, obj, Fields, get, number, as_num, as_str,
  list_of, are_objects, truthy,
}
use flakehound.Json as Json
use flakehound.Facts.{Job}
use flakehound.Upserts.Jobs.{upsert_job, job_values, write_job, merge_job, steps_of}
use flakehound.Upserts.Runs.{run_workflow_id}
use flakehound.Handlers.{Store, put_stub}
use flakehound.Backfill.Runs.{or_raise}
use flakehound.Backfill.Jobs.{set_field, record_job, record_jobs}

-- The steps of a job: none yet, or a list of objects.
abbrev pub HasSteps : Json → Type 0
HasSteps null = Unit
HasSteps (arr steps) = are_objects steps ≡ true
HasSteps _ = ⊥

-- A job of a listing has what GitHub documents of every job.
abbrev pub IsComplete : Json → Type 0
IsComplete (obj fs) =
    ((id : ℕ) × (number (Json.find "id" fs) ≡ some id))
    × (((run_id : ℕ) × (number (Json.find "run_id" fs) ≡ some run_id))
        × (((name : String) × (as_str (Json.find "name" fs) ≡ some name))
            × (((sha : String) × (as_str (Json.find "head_sha" fs) ≡ some sha))
                × HasSteps (Json.find "steps" fs))))
IsComplete _ = ⊥

abbrev pub AreComplete : Items → Type 0
AreComplete nil = Unit
AreComplete (cons job rest) = IsComplete job × AreComplete rest

steps_read : (v : Json) → HasSteps v → (steps : Items) × (steps_of v ≡ some steps)
unfolding steps_of list_of are_objects truthy
steps_read null h = (nil, refl)
steps_read (bool b) h = absurd h
steps_read (num n) h = absurd h
steps_read (str t) h = absurd h
steps_read (arr xs) h = (xs, rw h refl)
steps_read (obj fs) h = absurd h

-- A job run of this id is stored.
abbrev pub HasId : ℕ → List Job → Type 0
HasId id rows = (r : Job) × In r rows × (r.id ≡ id)

-- Every job of a page is stored.
abbrev pub AreStored : Items → List Job → Type 0
AreStored nil rows = Unit
AreStored (cons job rest) rows =
    ((id : ℕ) × (number (get "id" job) ≡ some id) × HasId id rows) × AreStored rest rows

-- No job run is lost.
abbrev pub Grows : List Job → List Job → Type 0
Grows a b = (id : ℕ) → HasId id a → HasId id b

pub AreStored-Grows :
    (items : Items) (a b : List Job) → Grows a b → AreStored items a → AreStored items b
AreStored-Grows nil a b g h = tt
AreStored-Grows (cons job rest) a b g ((id, e, h), k) =
    ((id, e, g id h), AreStored-Grows rest a b g k)

write_job-HasId : (now : ℕ) (new : Job) (rows : List Job) → HasId new.id (write_job now new rows)
unfolding write_job upsert merge_job
write_job-HasId now new [] = (new, inl refl, refl)
write_job-HasId now new (x ∷ rows) = elim (Bool-cases (x.id == new.id)) [
  | inl e ↦ rw e (merge_job now new x, inl refl, (==_iff x.id new.id).0 e)
  | inr e ↦ let (r, i, q) = write_job-HasId now new rows in rw e (r, inr i, q)
]

write_job-Grows : (now : ℕ) (new : Job) (rows : List Job) → Grows rows (write_job now new rows)
unfolding write_job upsert merge_job
write_job-Grows now new [] id (r, i, q) = absurd i
write_job-Grows now new (x ∷ rows) id (r, inl p, q) = elim (Bool-cases (x.id == new.id)) [
  | inl e ↦ rw e (merge_job now new x, inl refl, sym (ap (λ (j : Job). j.id) p) ∙ q)
  | inr e ↦ rw e (r, inl p, q)
]
write_job-Grows now new (x ∷ rows) id (r, inr i, q) = elim (Bool-cases (x.id == new.id)) [
  | inl e ↦ rw e (r, inr i, q)
  | inr e ↦ let (t, j, k) = write_job-Grows now new rows id (r, i, q) in rw e (t, inr j, k)
]

-- The row of a payload that has what the row needs.
job_values-some :
    (parse : String → Option ℕ) (now repo_id : ℕ) (job : Json) (sha : String) (w : Option ℕ)
    (id run_id : ℕ) (name : String) (steps : Items)
    → number (get "id" job) ≡ some id
    → number (get "run_id" job) ≡ some run_id
    → as_str (get "name" job) ≡ some name
    → steps_of (get "steps" job) ≡ some steps
    → (new : Job) × (job_values parse now repo_id job sha w ≡ some new) × (new.id ≡ id)
unfolding job_values
job_values-some parse now repo_id job sha w id run_id name steps p q r t =
    rw (p, job_values)
      (rw (q, job_values) (rw (r, job_values) (rw (t, job_values) (_, refl, refl))))

upsert_job-writes :
    (parse : String → Option ℕ) (now repo_id : ℕ) (job : Json) (sha : String) (w : Option ℕ)
    (jobs : List Job) (new : Job)
    → job_values parse now repo_id job sha w ≡ some new
    → upsert_job parse now repo_id job sha w jobs ≡ some (write_job now new jobs)
unfolding upsert_job
upsert_job-writes parse now repo_id job sha w jobs new e = rw (e, upsert_job) refl

record_job-stores :
    (parse : String → Option ℕ) (now repo_id run_attempt : ℕ) (fs : Fields) (s : Store)
    (h : IsComplete (obj fs))
    → (t : Store) × (record_job parse now repo_id run_attempt (obj fs) s ≡ ok t)
      × Grows s.jobs t.jobs
      × HasId h.0.0 t.jobs
unfolding record_job or_raise set_field get Json.find put_stub
record_job-stores parse now repo_id run_attempt fs s
      ((id, p), ((run_id, q), ((name, r), ((sha, t), st)))) =
    let stubbed = put_stub now repo_id run_id run_attempt sha (obj fs) s in
    let (steps, z) = steps_read (Json.find "steps" fs) st in
    let payload = set_field "run_attempt" (num run_attempt) (obj fs) in
    let w = run_workflow_id run_id stubbed.runs in
    let (new, v, e) =
      job_values-some parse now repo_id payload sha w id run_id name steps p q r z in
    let u = upsert_job-writes parse now repo_id payload sha w stubbed.jobs new v in
    (
      record stubbed { jobs = write_job now new s.jobs },
      rw t (rw q (rw u refl)),
      write_job-Grows now new s.jobs,
      subst (λ i. HasId i (write_job now new s.jobs)) e (write_job-HasId now new s.jobs),
    )

pub record_jobs-stores :
    (parse : String → Option ℕ) (now repo_id run_attempt : ℕ) (jobs : Items) (names : List String)
    (s : Store)
    → AreComplete jobs
    → (r : List String × Store) × (record_jobs parse now repo_id run_attempt jobs names s ≡ ok r)
      × Grows s.jobs r.1.jobs
      × AreStored jobs r.1.jobs
unfolding record_jobs get or_raise
record_jobs-stores parse now repo_id run_attempt nil names s h = ((names, s), refl, (λ id k. k), tt)
record_jobs-stores parse now repo_id run_attempt (cons null rest) names s h = absurd h.0
record_jobs-stores parse now repo_id run_attempt (cons (bool b) rest) names s h = absurd h.0
record_jobs-stores parse now repo_id run_attempt (cons (num n) rest) names s h = absurd h.0
record_jobs-stores parse now repo_id run_attempt (cons (str t) rest) names s h = absurd h.0
record_jobs-stores parse now repo_id run_attempt (cons (arr xs) rest) names s h = absurd h.0
record_jobs-stores parse now repo_id run_attempt (cons (obj fs) rest) names s h =
    let (s', e, g, k) = record_job-stores parse now repo_id run_attempt fs s h.0 in
    let (_, (_, ((name, r), _))) = h.0 in
    let (t, f, g', all) =
      record_jobs-stores parse now repo_id run_attempt rest (name ∷ names) s' h.1 in
    (t, rw e (rw r f), (λ id m. g' id (g id m)), ((h.0.0.0, h.0.0.1, g' h.0.0.0 k), all))
