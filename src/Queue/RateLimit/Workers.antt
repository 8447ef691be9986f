-- ===== src/Queue/RateLimit/Workers.antt =====
-- Workers that process jobs under the rate limiter of internal/queue/ratelimit.go, as the handlers
-- of internal/queue/handler.go use it: acquire first, release on the way out. A worker that dies, or
-- whose call of Release fails, keeps its slot.
use agentic_demo.Prelude.{
  ℕ, ◌+◌, ◌-◌, ◌≤◌, ◌<◌, max, ◌≡◌, refl, sym, ap, ◌∙◌, inl, inr, true, Option, none, some, List, [],
  ◌∷◌, ◌++◌, Text, lit, text_eq, text_eq_refl, eq_of_text_eq, if◌then◌else◌, arith, Bool-cases,
  length, length-append,
}
use agentic_demo.Queue.RateLimit.{
  Counters, job_key, value_or_zero, granted, exceeded, at_limit, acquire, release,
}

-- The number of jobs of a tenant in a list of tenants.
unfoldable pub jobs_of : Text → List Text → ℕ
jobs_of tenant [] = 0
jobs_of tenant (t ∷ ts) = (if text_eq tenant t then 1 else 0) + jobs_of tenant ts

-- `running` holds the tenant of each job being processed, `lost` that of each slot never released.
pub record System : Type 0 where
  pub counters : Counters
  pub running : List Text
  pub lost : List Text

abbrev pub idle : System
idle = record { counters = λ k. none; running = []; lost = [] }

pub data Step (limit : ℕ) (s : System) (u : System) : Type 0 where
  start :
      (tenant : Text)
      → (acquire limit true s.counters tenant).1 ≡ granted
      → u ≡ record s {
        counters = (acquire limit true s.counters tenant).0;
        running = tenant ∷ s.running;
      }
      → Step limit s u
  finish :
      (before : List Text) (tenant : Text) (after : List Text)
      → s.running ≡ before ++ tenant ∷ after
      → u ≡ record s { counters = release true s.counters tenant; running = before ++ after }
      → Step limit s u
  crash :
      (before : List Text) (tenant : Text) (after : List Text)
      → s.running ≡ before ++ tenant ∷ after
      → u ≡ record s { running = before ++ after; lost = tenant ∷ s.lost }
      → Step limit s u

pub data Reach (limit : ℕ) (s : System) : System → Type 0 where
  here : Reach limit s s
  next : {t u : System} → Reach limit s t → Step limit t u → Reach limit s u

-- Two tenants never share a key.
cancel_left : (p s t : Text) → p ++ s ≡ p ++ t → s ≡ t
cancel_left [] s t h = h
cancel_left (c ∷ p) s t h = cancel_left p s t (ground arith)

cancel_right : (s t p : Text) → s ++ p ≡ t ++ p → s ≡ t
cancel_right [] [] p h = refl
cancel_right [] (b ∷ t) p h = absurd (omega (arith, ap length h, length-append t p))
cancel_right (a ∷ s) [] p h = absurd (omega (arith, ap length h, length-append s p))
cancel_right (a ∷ s) (b ∷ t) p h = ground (arith, cancel_right s t p)

job_key_injective : (s t : Text) → job_key s ≡ job_key t → s ≡ t
unfolding job_key
job_key_injective s t h = cancel_right s t _ (cancel_left (lit "tenant:") _ _ h)

text_eq-job_key : (s t : Text) → text_eq (job_key s) (job_key t) ≡ text_eq s t
text_eq-job_key s t = elim (Bool-cases (text_eq s t)) [
  | inl e ↦ rw (eq_of_text_eq s t e) (text_eq_refl (job_key t) ∙ sym (text_eq_refl t))
  | inr e ↦ elim (Bool-cases (text_eq (job_key s) (job_key t))) [
    | inl k ↦ absurd (cc (text_eq_refl t, job_key_injective s t (eq_of_text_eq _ _ k)))
    | inr k ↦ k ∙ sym e
  ]
]

-- The jobs that the counter of a tenant shows.
abbrev pub shown : Counters → Text → ℕ
shown store tenant = value_or_zero (store (job_key tenant))

shown-acquire :
    (limit : ℕ) (store : Counters) (tenant t : Text)
    → (acquire limit true store tenant).1 ≡ granted
    → shown (acquire limit true store tenant).0 t
      ≡ (if text_eq t tenant then 1 else 0) + shown store t
unfolding acquire
shown-acquire limit store tenant t h =
    ground (arith, text_eq-job_key t tenant, eq_of_text_eq t tenant)

shown-lt-limit :
    (limit : ℕ) (store : Counters) (tenant : Text)
    → (acquire limit true store tenant).1 ≡ granted
    → shown store tenant < max limit 1
unfolding acquire
shown-lt-limit limit store tenant h = ground arith

shown-release :
    (store : Counters) (tenant t : Text)
    → shown (release true store tenant) t ≡ shown store t - (if text_eq t tenant then 1 else 0)
unfolding release
shown-release store tenant t = ground (arith, text_eq-job_key t tenant, eq_of_text_eq t tenant)

jobs_of-remove :
    (t tenant : Text) (before after : List Text)
    → jobs_of t (before ++ tenant ∷ after)
      ≡ (if text_eq t tenant then 1 else 0) + jobs_of t (before ++ after)
unfolding jobs_of
jobs_of-remove t tenant [] after = refl
jobs_of-remove t tenant (x ∷ before) after = omega (arith, jobs_of-remove t tenant before after)

-- The counter of each tenant shows its running jobs and its lost slots, and respects the limit.
pub record Inv (limit : ℕ) (s : System) : Type 0 where
  pub counted : (t : Text) → shown s.counters t ≡ jobs_of t s.running + jobs_of t s.lost
  pub bounded : (t : Text) → shown s.counters t ≤ max limit 1

idle-Inv : (limit : ℕ) → Inv limit idle
unfolding jobs_of
idle-Inv limit = record { counted = λ t. refl; bounded = λ t. omega arith }

start-Inv :
    (limit : ℕ) (s : System) (tenant : Text)
    → Inv limit s
    → (acquire limit true s.counters tenant).1 ≡ granted
    → Inv limit (record s {
      counters = (acquire limit true s.counters tenant).0;
      running = tenant ∷ s.running;
    })
unfolding jobs_of
start-Inv limit s tenant v g = record {
  counted = λ t. omega (arith, v.counted t, shown-acquire limit s.counters tenant t g);
  bounded = λ t. ground (
    arith,
    v.bounded t,
    shown-acquire limit s.counters tenant t g,
    shown-lt-limit limit s.counters tenant g,
    eq_of_text_eq t tenant,
  );
}

finish-Inv :
    (limit : ℕ) (s : System) (before : List Text) (tenant : Text) (after : List Text)
    → Inv limit s
    → s.running ≡ before ++ tenant ∷ after
    → Inv limit (record s { counters = release true s.counters tenant; running = before ++ after })
finish-Inv limit s before tenant after v e = record {
  counted = λ t. omega (
    arith,
    v.counted t,
    shown-release s.counters tenant t,
    ap (jobs_of t) e,
    jobs_of-remove t tenant before after,
  );
  bounded = λ t. omega (arith, v.bounded t, shown-release s.counters tenant t);
}

crash-Inv :
    (limit : ℕ) (s : System) (before : List Text) (tenant : Text) (after : List Text)
    → Inv limit s
    → s.running ≡ before ++ tenant ∷ after
    → Inv limit (record s { running = before ++ after; lost = tenant ∷ s.lost })
unfolding jobs_of
crash-Inv limit s before tenant after v e = record {
  counted = λ t. omega (arith, v.counted t, ap (jobs_of t) e, jobs_of-remove t tenant before after);
  bounded = v.bounded;
}

Step-Inv : (limit : ℕ) {s u : System} → Step limit s u → Inv limit s → Inv limit u
Step-Inv limit {s} (start tenant g e) v = rw e (start-Inv limit s tenant v g)
Step-Inv limit {s} (finish before tenant after r e) v =
    rw e (finish-Inv limit s before tenant after v r)
Step-Inv limit {s} (crash before tenant after r e) v =
    rw e (crash-Inv limit s before tenant after v r)

Reach-Inv : (limit : ℕ) {s u : System} → Reach limit s u → Inv limit s → Inv limit u
Reach-Inv limit here v = v
Reach-Inv limit (next r st) v = Step-Inv limit st (Reach-Inv limit r v)

-- Whatever the workers do, in any order, each tenant's counter shows exactly its running jobs and
-- its lost slots, and a tenant never runs more jobs at once than the limit, or than one if the
-- limit is 0.
pub Reach-limit :
    (limit : ℕ) {s : System} (t : Text)
    → Reach limit idle s
    → (shown s.counters t ≡ jobs_of t s.running + jobs_of t s.lost)
      × (jobs_of t s.running ≤ max limit 1)
Reach-limit limit t r =
    let v = Reach-Inv limit r (idle-Inv limit) in
    (v.counted t, omega (arith, v.counted t, v.bounded t))

lost_mono :
    (limit : ℕ) {s u : System} (t : Text) → Step limit s u → jobs_of t s.lost ≤ jobs_of t u.lost
unfolding jobs_of
lost_mono limit t (start tenant g e) = ground arith
lost_mono limit t (finish before tenant after r e) = ground arith
lost_mono limit t (crash before tenant after r e) = ground arith

lost-Reach :
    (limit : ℕ) {s u : System} (t : Text) → Reach limit s u → jobs_of t s.lost ≤ jobs_of t u.lost
lost-Reach limit t here = omega arith
lost-Reach limit t (next r st) = omega (arith, lost-Reach limit t r, lost_mono limit t st)

refused : (limit : ℕ) (o : Option ℕ) → 0 < limit → limit ≤ value_or_zero o → at_limit limit o ≡ true
unfolding at_limit
refused limit none p h = absurd (omega arith)
refused limit (some k) p h = ground arith

-- Once a tenant has lost as many slots as a positive limit allows, every later Acquire for it that
-- reaches Redis is refused, and no job of it is running, whatever the workers do in between.
pub lost_slots_block :
    (limit : ℕ) {s u : System} (t : Text)
    → 0 < limit
    → Reach limit idle s
    → limit ≤ jobs_of t s.lost
    → Reach limit s u
    → (acquire limit true u.counters t ≡ (u.counters, exceeded)) × (jobs_of t u.running ≡ 0)
unfolding acquire
lost_slots_block limit {s} {u} t p r h r' =
    let v = Reach-Inv limit r' (Reach-Inv limit r (idle-Inv limit)) in
    let most = lost-Reach limit t r' in
    (
      rw (refused limit (u.counters (job_key t)) p (omega (arith, v.counted t))),
      omega (arith, v.counted t, v.bounded t),
    )
