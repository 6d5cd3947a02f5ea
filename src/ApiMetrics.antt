-- ===== src/ApiMetrics.antt =====
-- backend/app/apimetrics.py: the reservoir and the counters that the API process keeps in memory
-- between two drains. The samples' type is a parameter, and so is what `random.randrange` returns.
mod Tests
pub mod Bounds
use flakehound.Base.{
  ℕ, zero, suc, ◌+◌, String, Option, none, some, List, [], ◌∷◌, ◌++◌, length, ltb, same,
  if◌then◌else◌,
}

pub record Reservoir (A : Type 0) : Type 0 where
  pub limit : ℕ
  pub seen : ℕ
  pub samples : List A

-- samples[index] = value
unfoldable pub set_at : {A : Type 0} → ℕ → A → List A → List A
set_at i a [] = []
set_at zero a (x ∷ xs) = a ∷ xs
set_at (suc i) a (x ∷ xs) = x ∷ set_at i a xs

-- `index` is random.randrange(self.seen).
unfoldable pub add : {A : Type 0} → (index : ℕ) → A → Reservoir A → Reservoir A
unfolding set_at
add index value r =
    if ltb (length r.samples) r.limit
    then (record r { seen = r.seen + 1; samples = r.samples ++ (value ∷ []) })
    else (if ltb index r.limit
        then (record r { seen = r.seen + 1; samples = set_at index value r.samples })
        else (record r { seen = r.seen + 1 }))

-- The dictionaries are association lists.
pub record Recorder (A : Type 0) : Type 0 where
  pub sample_limit : ℕ
  pub latency : List (String × Reservoir A)
  pub counters : List (String × ℕ)

-- What the constructor makes, and what a drain leaves.
abbrev pub fresh : {A : Type 0} → ℕ → Recorder A
fresh limit = record { sample_limit = limit; latency = []; counters = [] }

unfoldable pub add_to :
    {A : Type 0}
    → (limit : ℕ) → String
    → (index : ℕ) → A
    → List (String × Reservoir A)
    → List (String × Reservoir A)
unfolding add
add_to limit endpoint index value [] =
    (endpoint, add index value (record { limit = limit; seen = 0; samples = [] })) ∷ []
add_to limit endpoint index value ((name, r) ∷ rest) =
    if same name endpoint
    then (name, add index value r) ∷ rest
    else (name, r) ∷ add_to limit endpoint index value rest

unfoldable pub observe_request : {A : Type 0} → String → (index : ℕ) → A → Recorder A → Recorder A
unfolding add_to
observe_request endpoint index seconds r = record r {
  latency = add_to r.sample_limit endpoint index seconds r.latency;
}

unfoldable pub count_in : String → ℕ → List (String × ℕ) → List (String × ℕ)
count_in name amount [] = (name, amount) ∷ []
count_in name amount ((key, n) ∷ rest) =
    if same key name then (key, n + amount) ∷ rest else (key, n) ∷ count_in name amount rest

unfoldable pub count : {A : Type 0} → String → ℕ → Recorder A → Recorder A
unfolding count_in
count name amount r = record r { counters = count_in name amount r.counters }
