-- ===== src/Observe/Payloads.antt =====
-- `facts_from_payloads` of backend/app/observe.py. An id or a count that GitHub's answers write as
-- a text is not modelled.
use flakehound.Base.{
  ◌≤◌, ◌⊎◌, inl, inr, arith, subst, Bool-cases, ℕ, ◌+◌, ◌≡◌, Bool, true, false, ◌||◌, Option, none,
  some, String, same, if◌then◌else◌,
}
use flakehound.Base.Result.{Result, ok, ◌>>=◌, Returns}
use flakehound.Json.{Json, Items, bool, nil, cons, get, get_or, number, as_num, as_str, truthy}
use flakehound.Upserts.Progress.{parse_timestamp}
use flakehound.Backfill.Runs.{Error, key_error, or_raise}
use flakehound.Backfill.Handler.{listed, or_zero}
use flakehound.Backfill.Wake.{Returns-or_raise}
use flakehound.Observe.{CandidateFacts, assess}
use flakehound.Observe.Criteria.{assess_iff}

-- sum(1 for item in items if test(item))
unfoldable pub count_items : (Json → Bool) → Items → ℕ
count_items test nil = 0
count_items test (cons item rest) =
    if test item then count_items test rest + 1 else count_items test rest

abbrev pub text_is : Option String → String → Bool
text_is none text = false
text_is (some s) text = same s text

abbrev pub is_active_workflow : Json → Bool
is_active_workflow workflow = text_is (as_str (get "state" workflow)) "active"

-- run.get("event") in CODE_EVENTS
abbrev pub is_code_triggered : Json → Bool
is_code_triggered run =
    text_is (as_str (get "event" run)) "push" || text_is (as_str (get "event" run)) "pull_request"

unfoldable pub facts_from_payloads :
    (String → Option ℕ) → (repository workflows runs : Json) → Result Error CandidateFacts
unfolding get get_or number as_num as_str truthy or_raise parse_timestamp count_items
facts_from_payloads parse repository workflows runs = do
  repo_id ← or_raise key_error (number (get "id" repository))
  full_name ← or_raise key_error (as_str (get "full_name" repository))
  ok (record {
    repo_id = repo_id;
    full_name = full_name;
    is_private = truthy (get_or (bool true) "private" repository);
    archived = truthy (get_or (bool false) "archived" repository);
    disabled = truthy (get_or (bool false) "disabled" repository);
    is_fork = truthy (get_or (bool false) "fork" repository);
    is_template = truthy (get_or (bool false) "is_template" repository);
    pushed_at = parse_timestamp parse (get "pushed_at" repository);
    default_branch = as_str (get "default_branch" repository);
    stargazers_count = or_zero (as_num (get "stargazers_count" repository));
    active_workflows = count_items is_active_workflow (listed (get "workflows" workflows));
    completed_runs = or_zero (as_num (get "total_count" runs));
    code_triggered_runs = count_items is_code_triggered (listed (get "workflow_runs" runs));
  })

-- Some item passes the test.
abbrev pub SomeItem : (Json → Bool) → Items → Type 0
SomeItem test nil = ⊥
SomeItem test (cons item rest) = (test item ≡ true) ⊎ SomeItem test rest

counted_item :
    (test : Json → Bool) (items : Items) → 1 ≤ count_items test items → SomeItem test items
unfolding count_items
counted_item test nil h = absurd (omega (arith, h))
counted_item test (cons item rest) h = elim (Bool-cases (test item)) [
  | inl e ↦ inl e
  | inr e ↦ inr (
      counted_item test rest
        (subst (λ b. 1 ≤ (if b then count_items test rest + 1 else count_items test rest)) e h))
]

-- A repository whose answers make facts, and whose facts are found eligible, says that it is not
-- private, lists an active workflow, and lists a run of a push or of a pull request.
pub facts_from_payloads-IsWatchable :
    (parse : String → Option ℕ) (now : ℕ) (repository workflows runs : Json)
    → Returns
        (λ f.
          (assess now f).eligible ≡ true
          → (truthy (get_or (bool true) "private" repository) ≡ false)
            × SomeItem is_active_workflow (listed (get "workflows" workflows))
            × SomeItem is_code_triggered (listed (get "workflow_runs" runs)))
        (facts_from_payloads parse repository workflows runs)
unfolding facts_from_payloads
facts_from_payloads-IsWatchable parse now repository workflows runs =
    Returns-or_raise _ _ (number (get "id" repository)) _ λ repo_id.
      Returns-or_raise _ _ (as_str (get "full_name" repository)) _ λ full_name h.
        let w = (assess_iff now _).0 h in
        (
          w.0,
          counted_item is_active_workflow (listed (get "workflows" workflows)) w.1.1.1.1.1.1.0,
          counted_item is_code_triggered (listed (get "workflow_runs" runs)) w.1.1.1.1.1.1.1.1,
        )
