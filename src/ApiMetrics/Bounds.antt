-- ===== src/ApiMetrics/Bounds.antt =====
-- What the recorder of backend/app/apimetrics.py holds, after any sequence of its operations.
use Prim.Native.Nat.{min}
use flakehound.Base.{
  ℕ, zero, suc, ◌+◌, ◌≡◌, refl, sym, subst, ap, String, List, [], ◌∷◌, inl, inr, arith, length, ltb,
  same, length-append, Bool-cases, All,
}
use flakehound.ApiMetrics.{fresh, Reservoir, set_at, add, Recorder, add_to, observe_request, count}

-- A call between two drains.
pub data Call (A : Type 0) : Type 0 where
  request : String → ℕ → A → Call A
  counted : String → ℕ → Call A

abbrev pub called : {A : Type 0} → Call A → Recorder A → Recorder A
called (request endpoint index seconds) r = observe_request endpoint index seconds r
called (counted name amount) r = count name amount r

-- The state after some calls, the last of them first.
abbrev pub after : {A : Type 0} → List (Call A) → Recorder A → Recorder A
after [] r = r
after (c ∷ calls) r = called c (after calls r)

abbrev pub requests : {A : Type 0} → List (Call A) → ℕ
requests [] = 0
requests (request endpoint index seconds ∷ calls) = requests calls + 1
requests (counted name amount ∷ calls) = requests calls

-- sum(r.seen for r in latency.values())
abbrev pub seen_of : {A : Type 0} → List (String × Reservoir A) → ℕ
seen_of [] = 0
seen_of ((name, r) ∷ rest) = r.seen + seen_of rest

-- A reservoir that holds every value seen, until it is full.
abbrev pub IsFilled : {A : Type 0} → ℕ → Reservoir A → Type 0
IsFilled limit r = (r.limit ≡ limit) × (length r.samples ≡ min limit r.seen)

length-set_at : {A : Type 0} (i : ℕ) (a : A) (xs : List A) → length (set_at i a xs) ≡ length xs
unfolding set_at
length-set_at i a [] = refl
length-set_at zero a (x ∷ xs) = refl
length-set_at (suc i) a (x ∷ xs) = ap suc (length-set_at i a xs)

add-IsFilled :
    {A : Type 0} (limit index : ℕ) (a : A) (r : Reservoir A)
    → IsFilled limit r
    → IsFilled limit (add index a r)
unfolding add
add-IsFilled limit index a r (e, h) = elim (Bool-cases (ltb (length r.samples) r.limit)) [
  | inl t ↦ rw t (e, ground (arith, length-append r.samples (a ∷ [])))
  | inr t ↦ rw t (elim (Bool-cases (ltb index r.limit)) [
    | inl u ↦ rw u (e, ground (arith, length-set_at index a r.samples))
    | inr u ↦ rw u (e, ground arith)
  ])
]

add-seen : {A : Type 0} (index : ℕ) (a : A) (r : Reservoir A) → (add index a r).seen ≡ r.seen + 1
unfolding add
add-seen index a r = elim (Bool-cases (ltb (length r.samples) r.limit)) [
  | inl t ↦ rw t refl
  | inr t ↦ rw t (elim (Bool-cases (ltb index r.limit)) [ inl u ↦ rw u refl | inr u ↦ rw u refl ])
]

-- What the latencies are after some requests.
pub record Holds {A : Type 0} (limit n : ℕ) (latency : List (String × Reservoir A)) : Type 0 where
  pub filled : All (λ p. IsFilled limit p.1) latency
  pub total : seen_of latency ≡ n

add_to-Holds :
    {A : Type 0} (limit n : ℕ) (endpoint : String) (index : ℕ) (a : A)
    (latency : List (String × Reservoir A))
    → Holds limit n latency
    → Holds limit (n + 1) (add_to limit endpoint index a latency)
unfolding add_to
add_to-Holds limit n endpoint index a [] h = record {
  filled = (
    add-IsFilled limit index a (record { limit = limit; seen = 0; samples = [] })
        (refl, ground arith),
    tt,
  );
  total =
      omega (arith, add-seen index a (record { limit = limit; seen = 0; samples = [] }), h.total);
}
add_to-Holds limit n endpoint index a ((name, r) ∷ rest) h =
    elim (Bool-cases (same name endpoint)) [
      | inl e ↦ rw e (record {
        filled = (add-IsFilled limit index a r h.filled.0, h.filled.1);
        total = omega (arith, add-seen index a r, h.total);
      })
      | inr e ↦
          let k =
            add_to-Holds limit (seen_of rest) endpoint index a rest
              (record { filled = h.filled.1; total = refl }) in
          rw e (record { filled = (h.filled.0, k.filled); total = omega (arith, k.total, h.total) })
    ]

held :
    {A : Type 0} (limit : ℕ) (calls : List (Call A))
    → ((after calls (fresh limit)).sample_limit ≡ limit)
      × Holds limit (requests calls) (after calls (fresh limit)).latency
unfolding observe_request count
held limit [] = (refl, record { filled = tt; total = refl })
held limit (request endpoint index seconds ∷ calls) =
    let (e, h) = held limit calls in
    let s = after calls (fresh limit) in
    (
      e,
      subst (λ l. Holds limit (requests calls + 1) (add_to l endpoint index seconds s.latency))
          (sym e) (add_to-Holds limit (requests calls) endpoint index seconds s.latency h),
    )
held limit (counted name amount ∷ calls) = held limit calls

-- After any calls on a fresh recorder, every endpoint's reservoir holds as many samples as requests
-- were seen for it, but `limit` at most, and all requests are seen at one endpoint or another.
pub after-Holds :
    {A : Type 0} (limit : ℕ) (calls : List (Call A))
    → Holds limit (requests calls) (after calls (fresh limit)).latency
after-Holds limit calls = (held limit calls).1
