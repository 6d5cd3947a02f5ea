-- ===== src/Stats/Visible.antt =====
-- What the public board shows: whose rows, and on what proof.
use mathlib.Core.Option.{some-injective}
use flakehound.Base.{
  ℕ, ◌≤◌, ◌<◌, ◌≡◌, refl, ◌∙◌, ap, sym, inl, inr, String, Bool, true, false, not, ◌&&◌, ◌||◌,
  Option, none, some, List, [], ◌∷◌, ◌++◌, map, leb, ◌==◌, ==_iff, any, filter, same, if◌then◌else◌,
  All, All-take, In, Bool-cases, of_In-filter, ltb→lt, leb→le,
}
use flakehound.Base.Groups.{groups, distinct, All-distinct}
use flakehound.Base.Counting.{any-append}
use flakehound.Base.Sort.{sort, All-sort, of_In-sort}
use flakehound.Base.Sql.{is_true, sql_test}
use flakehound.Base.Upsert.{find}
use flakehound.Facts.{Job, Repository, Workflow}
use flakehound.Detection.Signals.{FlakeEvent, evidence_job_ids}
use flakehound.Rollup.{JobStatsDaily, Table}
use flakehound.Rollup.Keys.{and_iff}
use flakehound.Stats.{Floats, ranked}
use flakehound.Stats.Public.{
  FlakeProof, PublicJobFlakiness, BoardKey, same_board, is_visible, joined_row, joined,
  board_job_ids, newest_le, to_proof, first_proof, proves, board_proof, with_proof, published,
  is_published, board_rows, public_flaky_jobs,
}

visible : (r : Repository) → is_visible r ≡ true → (r.is_private ≡ false) × (r.active ≡ true)
visible r h = let (p, q) = (and_iff (not r.is_private) r.active).0 h in (not_true r.is_private p, q)
  where
    not_true : (b : Bool) → not b ≡ true → b ≡ false
    not_true true e = sym e
    not_true false e = refl

-- The repository is one that the board may show: public and active.
abbrev pub IsListed : List Repository → (repo_id : ℕ) → (full_name : String) → Type 0
IsListed repositories repo_id full_name =
    (r : Repository) × (In r repositories
      × (((r.is_private ≡ false) × (r.active ≡ true))
          × ((r.id ≡ repo_id) × (r.full_name ≡ full_name))))

-- The proof of a row: a failing run of its job, which an event names.
abbrev pub IsProof :
    {F : Type 0} → List Job → List FlakeEvent → PublicJobFlakiness F → Option FlakeProof → Type 0
IsProof jobs events b none = Unit
IsProof jobs events b (some p) =
    (j : Job) × (In j jobs
      × ((to_proof j ≡ p)
          × ((j.repo_id ≡ b.repo_id)
              × ((same j.name b.job.job_name ≡ true)
                  × ((is_true (sql_test (λ c. not (same c "success")) j.conclusion) ≡ true)
                      × ((e : FlakeEvent) × (In e events
                            × (any (λ i. i == j.id) (evidence_job_ids e.evidence) ≡ true))))))))

abbrev pub IsShown : {F : Type 0} → ℕ → List Repository → PublicJobFlakiness F → Type 0
IsShown min_flakes repositories b =
    IsListed repositories b.repo_id b.repo_full_name
    × ((0 < b.job.opportunities) × (min_flakes ≤ b.job.flakes))

of_find :
    {A : Type 0} (p : A → Bool) (xs : List A) (a : A) → find p xs ≡ some a → In a xs × (p a ≡ true)
unfolding find
of_find p [] a e = absurd (cc e)
of_find p (x ∷ xs) a e = elim (Bool-cases (p x)) [
  | inl q ↦ let same = some-injective x a (rw q at e) in (inl (sym same), rw (← same) q)
  | inr q ↦ let (i, k) = of_find p xs a (rw q at e) in (inr i, k)
]

joined-IsListed :
    {S : Type 0} (cutoff : ℕ) (repositories : List Repository) (workflows : List Workflow)
    (rows : List (JobStatsDaily S))
    → All
        (λ x. IsListed repositories x.0.repo_id x.0.full_name)
        (joined cutoff repositories workflows rows)
unfolding joined
joined-IsListed cutoff repositories workflows [] = tt
joined-IsListed {S} cutoff repositories workflows (row ∷ rows) =
    listed (find (λ r. r.id == row.stats.key.repo_id) repositories) refl
      (joined-IsListed cutoff repositories workflows rows)
  where
    rest : List (BoardKey × JobStatsDaily S)
    rest = joined cutoff repositories workflows rows

    listed :
        (o : Option Repository)
        → find (λ r. r.id == row.stats.key.repo_id) repositories ≡ o
        → All (λ x. IsListed repositories x.0.repo_id x.0.full_name) rest
        → All
            (λ x. IsListed repositories x.0.repo_id x.0.full_name)
            (joined_row cutoff workflows row o rest)
    listed none e h = h
    listed (some r) e h = elim (Bool-cases (is_visible r && leb cutoff row.stats.key.day)) [
      | inl q ↦ rw q (
        (r, ((of_find _ repositories r e).0, (visible r (((and_iff _ _).0 q).0), (refl, refl)))),
        h,
      )
      | inr q ↦ rw q h
    ]

module _ {F S : Type 0} (f : Floats F) where
  board_rows-IsShown :
      (min_flakes cutoff : ℕ) (repositories : List Repository) (workflows : List Workflow)
      (rows : List (JobStatsDaily S))
      → All
          (IsShown min_flakes repositories)
          (board_rows f min_flakes cutoff repositories workflows rows)
  unfolding board_rows groups published
  board_rows-IsShown min_flakes cutoff repositories workflows rows =
      shown (distinct same_board (map (λ r. r.0) found)) (
        All-distinct same_board P _
          (keys found (joined-IsListed cutoff repositories workflows rows)))
    where
      P : BoardKey → Type 0
      P k = IsListed repositories k.repo_id k.full_name

      found : List (BoardKey × JobStatsDaily S)
      found = joined cutoff repositories workflows rows

      keys :
          (xs : List (BoardKey × JobStatsDaily S)) → All (λ x. P x.0) xs → All P (map (λ r. r.0) xs)
      keys [] h = tt
      keys (x ∷ xs) h = (h.0, keys xs h.1)

      mk : BoardKey → BoardKey × List (BoardKey × JobStatsDaily S)
      mk k = (k, filter (λ a. same_board k a.0) found)

      shown :
          (ks : List BoardKey)
          → All P ks
          → All
              (IsShown min_flakes repositories)
              (map (published f) (filter (is_published f min_flakes) (map mk ks)))
      shown [] h = tt
      shown (k ∷ ks) h = elim (Bool-cases (is_published f min_flakes (mk k))) [
        | inl q ↦
            let (some_opp, enough) = (and_iff _ _).0 q in
            rw q ((h.0, (ltb→lt _ _ some_opp, leb→le _ _ enough)), shown ks h.1)
        | inr q ↦ rw q (shown ks h.1)
      ]

  -- Every row of the public board is of a repository that is public and active, under that
  -- repository's name, has at least one opportunity and has the flakes that were asked for.
  pub public_flaky_jobs-IsShown :
      (window_days limit min_flakes now : ℕ) (repositories : List Repository)
      (workflows : List Workflow) (jobs : List Job) (events : List FlakeEvent) (t : Table S)
      → All (IsShown min_flakes repositories) (
          public_flaky_jobs f window_days limit min_flakes now repositories workflows jobs events t)
  unfolding public_flaky_jobs ranked with_proof
  public_flaky_jobs-IsShown window_days limit min_flakes now repositories workflows jobs events t =
      proofs_added _ _ (
        All-take _ limit _ (
          All-sort _ _ _
            (All-sort _ _ _ (board_rows-IsShown min_flakes _ repositories workflows t.rows))))
    where
      proofs_added :
          (g : List (PublicJobFlakiness F)) (xs : List (PublicJobFlakiness F))
          → All (IsShown min_flakes repositories) xs
          → All (IsShown min_flakes repositories) (map (with_proof g jobs events) xs)
      proofs_added g [] h = tt
      proofs_added g (x ∷ xs) h = (h.0, proofs_added g xs h.1)

of_board_job_ids :
    {F : Type 0} (board : List (PublicJobFlakiness F)) (events : List FlakeEvent) (p : ℕ → Bool)
    → any p (board_job_ids board events) ≡ true
    → (e : FlakeEvent) × (In e events × (any p (evidence_job_ids e.evidence) ≡ true))
unfolding board_job_ids
of_board_job_ids board [] p h = absurd (cc h)
of_board_job_ids board (e ∷ events) p h =
    of_either (of_board_job_ids board events p)
      (any (λ b. b.repo_id == e.repo_id) board && any (λ b. same b.job.job_name e.job_name) board) h
  where
    later :
        (any p (board_job_ids board events) ≡ true
          → (x : FlakeEvent) × (In x events × (any p (evidence_job_ids x.evidence) ≡ true)))
        → any p (board_job_ids board events) ≡ true
        → (x : FlakeEvent) × (In x (e ∷ events) × (any p (evidence_job_ids x.evidence) ≡ true))
    later ih k = let (x, (i, q)) = ih k in (x, (inr i, q))

    of_either :
        (any p (board_job_ids board events) ≡ true
          → (x : FlakeEvent) × (In x events × (any p (evidence_job_ids x.evidence) ≡ true)))
        → (b : Bool)
        → any p (
            if b
            then evidence_job_ids e.evidence ++ board_job_ids board events
            else board_job_ids board events)
          ≡ true
        → (x : FlakeEvent) × (In x (e ∷ events) × (any p (evidence_job_ids x.evidence) ≡ true))
    of_either ih true k = elim (Bool-cases (any p (evidence_job_ids e.evidence))) [
      | inl q ↦ (e, (inl refl, q))
      | inr q ↦
          later ih (
            ap (λ b. b || any p (board_job_ids board events)) (sym q)
            ∙ (sym (any-append p _ _) ∙ k))
    ]
    of_either ih false k = later ih k

-- Every proof on the public board is a job run of the table that failed, of the row's repository and
-- job name, and one that a recorded flake event names.
pub public_flaky_jobs-IsProof :
    {F S : Type 0} (f : Floats F) (window_days limit min_flakes now : ℕ)
    (repositories : List Repository) (workflows : List Workflow) (jobs : List Job)
    (events : List FlakeEvent) (t : Table S)
    → All
        (λ b. IsProof jobs events b b.proof)
        (public_flaky_jobs f window_days limit min_flakes now repositories workflows jobs events t)
unfolding public_flaky_jobs with_proof board_proof proves
public_flaky_jobs-IsProof f window_days limit min_flakes now repositories workflows jobs events t =
    each _ _
  where
    first :
        {F : Type 0} (board : List (PublicJobFlakiness F)) (b : PublicJobFlakiness F)
        (js : List Job)
        → ((j : Job) → In j js → In j (filter (proves (board_job_ids board events) b) jobs))
        → IsProof jobs events b (first_proof js)
    first board b [] h = tt
    first board b (j ∷ js) h =
        let (i, k) = of_In-filter _ j jobs (h j (inl refl)) in
        let (k1, failed) = (and_iff _ _).0 k in
        let (k2, named) = (and_iff _ _).0 k1 in
        let (k3, same_name) = (and_iff _ _).0 k2 in
        let (same_repo, _) = (and_iff _ _).0 k3 in
        (
          j,
          (
            i,
            (
              refl,
              (
                (==_iff _ _).0 same_repo,
                (same_name, (failed, of_board_job_ids board events _ named)),
              ),
            ),
          ),
        )

    each :
        {F : Type 0} (board xs : List (PublicJobFlakiness F))
        → All (λ b. IsProof jobs events b b.proof) (map (with_proof board jobs events) xs)
    each board [] = tt
    each board (b ∷ xs) = (
      first board (with_proof board jobs events b)
          (sort newest_le (filter (proves (board_job_ids board events) b) jobs))
          (λ j i. of_In-sort newest_le j _ i),
      each board xs,
    )
