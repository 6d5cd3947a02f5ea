-- ===== src/Upserts/Repositories.antt =====
-- `upsert_repository`, `set_repositories_active` and `set_installation_repositories_active` of
-- backend/app/upserts.py. A payload's names are texts, as GitHub documents them.
use flakehound.Base.{
  ℕ, String, Bool, true, false, ◌&&◌, not, Option, none, some, List, [], ◌∷◌, map, filter, any,
  ◌==◌, leb, same, coalesce, is_some, if◌then◌else◌, before_slash, after_last_slash,
}
use flakehound.Base.Sort.{sort}
use flakehound.Base.Upsert.{upsert}
use flakehound.Base.Result.{Result, ok, err}
use flakehound.Json.{Json, bool, get, get_or, truthy, text_or_empty, number, as_str}
use flakehound.Facts.{Repository, Source, BackfillStatus}

-- The ValueErrors and the KeyError, in order.
pub data Error : Type 0 where
  observed_with_installation observed_private installed_without_installation no_id : Error

abbrev pub is_private_payload : Json → Bool
is_private_payload repository = truthy (get_or (bool true) "private" repository)

-- The guards in front of the statement.
unfoldable pub refusal : Source → Option ℕ → Json → Option Error
unfolding get_or truthy
refusal Source.observed installation_id repository =
    if is_some installation_id
    then some observed_with_installation
    else if is_private_payload repository
    then some observed_private
    else none
refusal Source.installed installation_id repository =
    if is_some installation_id then none else some installed_without_installation

abbrev text_or : String → Json → String
text_or fallback j = let text = text_or_empty j in if same text "" then fallback else text

abbrev or_true : Option Bool → Bool
or_true none = true
or_true (some b) = b

unfoldable pub repository_values : ℕ → Option ℕ → ℕ → Json → Option Bool → Source → Repository
unfolding get text_or_empty as_str before_slash after_last_slash
repository_values now installation_id id repository active source =
    let full_name = text_or_empty (get "full_name" repository) in
    record {
      id = id;
      installation_id = installation_id;
      source = source;
      owner = text_or (before_slash full_name) (get "login" (get "owner" repository));
      name = text_or (after_last_slash full_name) (get "name" repository);
      full_name = full_name;
      is_private = is_private_payload repository;
      active = or_true active;
      default_branch = as_str (get "default_branch" repository);
      backfill_status = BackfillStatus.pending;
      backfill_window_start = none;
      backfill_window_end = none;
      backfill_page = none;
      backfill_completed_at = none;
      created_at = now;
      updated_at = now;
    }

-- What an installed write claims, and an observed one leaves alone.
unfoldable pub claimed_source : Source → Repository → Repository → Source
claimed_source Source.installed new old = new.source
claimed_source Source.observed new old = old.source

unfoldable pub claimed_installation : Source → Repository → Repository → Option ℕ
claimed_installation Source.installed new old = new.installation_id
claimed_installation Source.observed new old = old.installation_id

unfoldable pub merge_repository : ℕ → Source → Option Bool → Repository → Repository → Repository
unfolding claimed_source claimed_installation
merge_repository now source active new old = record old {
  source = claimed_source source new old;
  installation_id = claimed_installation source new old;
  owner = new.owner;
  name = new.name;
  full_name = new.full_name;
  is_private = new.is_private;
  active = elim active [ none ↦ old.active | some a ↦ new.active ];
  default_branch = coalesce new.default_branch old.default_branch;
  updated_at = now;
}

unfoldable pub write_repository :
    ℕ → Option ℕ → ℕ → Json → Option Bool → Source → List Repository → List Repository
unfolding repository_values merge_repository
write_repository now installation_id id repository active source =
    let new = repository_values now installation_id id repository active source in
    upsert (λ r. r.id == id) (merge_repository now source active new) new

-- The repository's id, and the table after.
unfoldable pub upsert_repository :
    ℕ
    → Option ℕ
    → Json
    → Option Bool
    → Source
    → List Repository
    → Result Error (ℕ × List Repository)
unfolding get number refusal write_repository
upsert_repository now installation_id repository active source repos =
    elim (refusal source installation_id repository) [
      | some e ↦ err e
      | none ↦ elim (number (get "id" repository)) [
        | none ↦ err no_id
        | some id ↦ ok (id, write_repository now installation_id id repository active source repos)
      ]
    ]

abbrev agrees : Bool → Bool → Bool
agrees true b = b
agrees false b = not b

abbrev pub changes : (Repository → Bool) → Bool → Repository → Bool
changes test active r = test r && not (agrees active r.active)

unfoldable pub set_row : ℕ → (Repository → Bool) → Bool → Repository → Repository
set_row now test active r =
    if changes test active r then record r { active = active; updated_at = now } else r

-- UPDATE … WHERE test AND active IS NOT value RETURNING id
unfoldable pub set_active :
    ℕ → (Repository → Bool) → Bool → List Repository → List ℕ × List Repository
unfolding set_row
set_active now test active repos = (
  sort leb (map (λ r. r.id) (filter (changes test active) repos)),
  map (set_row now test active) repos,
)

-- An empty list of ids writes nothing; it would select no row either.
unfoldable pub set_repositories_active :
    ℕ → List ℕ → Bool → List Repository → List ℕ × List Repository
unfolding set_active
set_repositories_active now [] active repos = ([], repos)
set_repositories_active now (i ∷ ids) active repos =
    set_active now (λ r. any (λ j. j == r.id) (i ∷ ids)) active repos

abbrev pub is_of : ℕ → Option ℕ → Bool
is_of i none = false
is_of i (some j) = j == i

unfoldable pub set_installation_repositories_active :
    ℕ → ℕ → Bool → List Repository → List ℕ × List Repository
unfolding set_active
set_installation_repositories_active now installation_id =
    set_active now (λ r. is_of installation_id r.installation_id)
