-- ===== src/Upserts/Ownership.antt =====
-- The check constraint `source_installation` of backend/app/models.py, and who owns a repository
-- under the writes of backend/app/upserts.py.
use flakehound.Base.{
  ℕ, ◌≡◌, refl, Bool, true, false, Option, none, some, List, [], ◌∷◌, All, map, any, ◌==◌,
  Bool-cases, inl, inr, is_some, arith, Option-cases, subst,
}
use flakehound.Base.Result.{Returns}
use flakehound.Base.Upsert.{upsert, find}
use flakehound.Json.{Json, get, number}
use flakehound.Facts.{Repository, Source}
use flakehound.Upserts.Repositories.{
  refusal, repository_values, merge_repository, write_repository, upsert_repository,
  is_private_payload, set_row, set_active, set_repositories_active,
}

-- An installed repository has an installation; an observed one has none and is public.
abbrev pub Owned : Source → Option ℕ → Bool → Type 0
Owned Source.installed installation_id is_private = is_some installation_id ≡ true
Owned Source.observed installation_id is_private = (installation_id ≡ none) × (is_private ≡ false)

abbrev pub IsOwned : Repository → Type 0
IsOwned r = Owned r.source r.installation_id r.is_private

module _ {A : Type 0} (P : A → Type 0) where
  All-upsert :
      (same : A → Bool) (merge : A → A) (new : A) (rows : List A)
      → P new
      → ((r : A) → P r → P (merge r))
      → All P rows
      → All P (upsert same merge new rows)
  unfolding upsert
  All-upsert same merge new [] p f h = (p, tt)
  All-upsert same merge new (r ∷ rs) p f h = elim (Bool-cases (same r)) [
    | inl e ↦ rw e (f r h.0, h.1)
    | inr e ↦ rw e (h.0, All-upsert same merge new rs p f h.1)
  ]

-- The guards leave only what the constraint allows.
of_refusal :
    (source : Source) (installation_id : Option ℕ) (repository : Json)
    → refusal source installation_id repository ≡ none
    → Owned source installation_id (is_private_payload repository)
unfolding refusal
of_refusal Source.installed (some i) repository h = refl
of_refusal Source.installed none repository h = cc
of_refusal Source.observed (some i) repository h = cc
of_refusal Source.observed none repository h = (refl, ground arith)

new-IsOwned :
    (now : ℕ) (installation_id : Option ℕ) (id : ℕ) (repository : Json) (active : Option Bool)
    → (source : Source) → Owned source installation_id (is_private_payload repository)
    → IsOwned (repository_values now installation_id id repository active source)
unfolding repository_values
new-IsOwned now installation_id id repository active source h = h

-- An installed write claims the row, and an observed one changes at most whether it is private.
merged-IsOwned :
    (now : ℕ) (source : Source) (active : Option Bool) (new old : Repository)
    → new.source ≡ source
    → IsOwned new
    → IsOwned old
    → IsOwned (merge_repository now source active new old)
unfolding merge_repository
merged-IsOwned now Source.installed active new old e h k = h
merged-IsOwned now Source.observed active new old e h k =
    public old.source old.installation_id old.is_private
      (subst (λ s. Owned s new.installation_id new.is_private) e h).1 k
  where
    public :
        (s : Source) (i : Option ℕ) (p : Bool)
        → new.is_private ≡ false
        → Owned s i p
        → Owned s i new.is_private
    public Source.installed i p q o = o
    public Source.observed i p q o = (o.0, q)

write-IsOwned :
    (now : ℕ) (installation_id : Option ℕ) (id : ℕ) (repository : Json) (active : Option Bool)
    → (source : Source) (repos : List Repository)
    → Owned source installation_id (is_private_payload repository)
    → All IsOwned repos
    → All IsOwned (write_repository now installation_id id repository active source repos)
unfolding write_repository repository_values
write-IsOwned now installation_id id repository active source repos o h =
    let new = repository_values now installation_id id repository active source in
    let n = new-IsOwned now installation_id id repository active source o in
    All-upsert IsOwned (λ r. r.id == id) (merge_repository now source active new) new repos n
      (λ r k. merged-IsOwned now source active new r refl n k) h

-- A write of a repository that returns, whatever its payload and its source, keeps the check
-- constraint: an installed repository has an installation, an observed one has none and is public.
pub upsert_repository-IsOwned :
    (now : ℕ) (installation_id : Option ℕ) (repository : Json) (active : Option Bool)
    → (source : Source) (repos : List Repository) → All IsOwned repos
    → Returns
        (λ r. All IsOwned r.1)
        (upsert_repository now installation_id repository active source repos)
unfolding upsert_repository
upsert_repository-IsOwned now installation_id repository active source repos h =
    elim (Option-cases (refusal source installation_id repository)) [
      | inr (x, e) ↦ rw (e, upsert_repository) tt
      | inl e ↦ elim (Option-cases (number (get "id" repository))) [
        | inl f ↦ rw (e, upsert_repository) (rw (f) tt)
        | inr (id, f) ↦
            rw (e, upsert_repository)
              (rw (f) (
                write-IsOwned now installation_id id repository active source repos
                  (of_refusal source installation_id repository e) h))
      ]
    ]

-- The row that a reader finds under an id.
abbrev pub repository_at : ℕ → List Repository → Option Repository
repository_at i = find (λ r. r.id == i)

abbrev pub IsInactive : Option Repository → Type 0
IsInactive none = ⊥
IsInactive (some r) = r.active ≡ false

set_row-id :
    (now : ℕ) (test : Repository → Bool) (r : Repository) → (set_row now test false r).id ≡ r.id
unfolding set_row
set_row-id now test r = ground arith

set_row-active :
    (now : ℕ) (test : Repository → Bool) (r : Repository)
    → test r ≡ true
    → (set_row now test false r).active ≡ false
unfolding set_row
set_row-active now test r h = ground arith

find-set_active :
    (now i : ℕ) (test : Repository → Bool) (repos : List Repository)
    → ((r : Repository) → (r.id == i) ≡ true → test r ≡ true)
    → is_some (repository_at i repos) ≡ true
    → IsInactive (repository_at i (map (set_row now test false) repos))
unfolding find
find-set_active now i test [] t h = cc
find-set_active now i test (r ∷ rs) t h = elim (Bool-cases (r.id == i)) [
  | inl e ↦ rw (set_row-id now test r, e) (set_row-active now test r (t r e))
  | inr e ↦ rw (set_row-id now test r, e) (find-set_active now i test rs t (rw e at h))
]

-- A merge that does not say whether the repository is active leaves the flag.
write-IsInactive :
    (now i id : ℕ) (source : Source) (new : Repository) (repos : List Repository)
    → IsInactive (repository_at i repos)
    → IsInactive (
        repository_at i (upsert (λ r. r.id == id) (merge_repository now source none new) new repos))
unfolding upsert find merge_repository
write-IsInactive now i id source new [] h = absurd h
write-IsInactive now i id source new (r ∷ rs) h = elim (Bool-cases (r.id == id)) [
  | inl e ↦ elim (Bool-cases (r.id == i)) [
    | inl f ↦ rw (e, f) (rw f at h)
    | inr f ↦ rw (e, f) (rw f at h)
  ]
  | inr e ↦ elim (Bool-cases (r.id == i)) [
    | inl f ↦ rw (e, f) (rw f at h)
    | inr f ↦ rw (e, f) (write-IsInactive now i id source new rs (rw f at h))
  ]
]

-- A known repository that was removed from its installation stays inactive when a later write of
-- it or of another repository returns that does not say whether it is active.
pub upsert_repository-IsInactive :
    (now later i : ℕ) (installation_id : Option ℕ) (repository : Json) (source : Source)
    → (repos : List Repository) → is_some (repository_at i repos) ≡ true
    → Returns
        (λ r. IsInactive (repository_at i r.1))
        (upsert_repository later installation_id repository none source
          (set_repositories_active now (i ∷ []) false repos).1)
unfolding set_repositories_active set_active upsert_repository write_repository repository_values
upsert_repository-IsInactive now later i installation_id repository source repos h =
    let removed = (set_repositories_active now (i ∷ []) false repos).1 in
    let off =
      find-set_active now i (λ r. any (λ j. j == r.id) (i ∷ [])) repos (λ r e. ground (arith, e))
        h in
    elim (Option-cases (refusal source installation_id repository)) [
      | inr (x, e) ↦ rw (e, upsert_repository) tt
      | inl e ↦ elim (Option-cases (number (get "id" repository))) [
        | inl f ↦ rw (e, upsert_repository) (rw (f) tt)
        | inr (id, f) ↦
            rw (e, upsert_repository)
              (rw (f) (
                write-IsInactive later i id source
                  (repository_values later installation_id id repository none source) removed off))
      ]
    ]
