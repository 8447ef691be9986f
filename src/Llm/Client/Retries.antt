-- ===== src/Llm/Client/Retries.antt =====
-- What Complete of internal/llm/client.go promises.
use native.Mathlib.Nat.{add-zero}
use agentic_demo.Prelude.{
  ℕ, zero, suc, ◌+◌, ◌^◌, ◌≤◌, ◌≡◌, refl, inl, inr, false, Option, none, some, List, [], ◌∷◌, Text,
  Result, ok, err, Result-cases, Option-cases, Bool-cases, arith, ◌⊎◌, sym, subst,
}
use agentic_demo.Llm.Client.{
  LlmError, Chat, Context, Run, retry_from, call_with_retry, Client, Options, budget_stop,
  Completed, complete, try_fallback, after_primary,
}

module _ {A : Type 0} where
  -- An attempt makes a call, and each retry at most one more; a result is an answer of the provider.
  retry_from-calls :
      (chat : Chat A) (ctx : Context) (left attempt : ℕ)
      → ((retry_from chat ctx left attempt).calls ≤ left + 1)
        × ((a : A)
            → (retry_from chat ctx left attempt).result ≡ ok a
            → (n : ℕ) × (chat n ≡ ok a) × (attempt ≤ n) × (n ≤ attempt + left))
  unfolding retry_from
  retry_from-calls chat ctx zero attempt = elim (Result-cases (chat attempt)) [
    | inl (a, e) ↦
        rw (e, retry_from) (omega arith, λ b h. (attempt, ground arith, omega arith, omega arith))
    | inr (x, e) ↦ elim (Bool-cases (ctx.ended_after attempt)) [
      | inl c ↦ rw (e, retry_from, c) (omega arith, λ b h. absurd (cc))
      | inr c ↦ rw (e, retry_from, c) (omega arith, λ b h. absurd (cc))
    ]
  ]
  retry_from-calls chat ctx (suc left) attempt = elim (Result-cases (chat attempt)) [
    | inl (a, e) ↦
        rw (e, retry_from) (omega arith, λ b h. (attempt, ground arith, omega arith, omega arith))
    | inr (x, e) ↦ elim (Bool-cases (ctx.ended_after attempt)) [
      | inl c ↦ rw (e, retry_from, c) (omega arith, λ b h. absurd (cc))
      | inr c ↦ elim (Bool-cases (ctx.ended_waiting attempt)) [
        | inl w ↦ rw (e, retry_from, c, w) (omega arith, λ b h. absurd (cc))
        | inr w ↦
            let (few, answer) = retry_from-calls chat ctx left (suc attempt) in
            rw (e, retry_from, c, w)
              (
                omega (arith, few),
                λ b h. let (n, p, q, r) = answer b h in (n, p, omega (arith, q), omega (arith, r)),
              )
      ]
    ]
  ]

module _ {A : Type 0} (c : Client A) (ctx later : Context) (msgs : List Text) (opts : Options) where
  -- A request that the budget check refuses, or that it cannot answer, reaches no provider: the error
  -- is returned, and neither the primary nor the fallback is called.
  pub budget_stop-complete :
      (e : LlmError)
      → budget_stop c msgs opts ≡ some e
      → complete c ctx later msgs opts
        ≡ record { outcome = err e; primary_calls = 0; fallback_calls = 0 }
  unfolding complete
  budget_stop-complete e h = rw (h, complete)

-- The attempts before one fail, and the context is still open after each and after its wait.
abbrev pub FailsUntil : {A : Type 0} → Chat A → Context → ℕ → ℕ → Type 0
FailsUntil chat ctx attempt zero = Unit
FailsUntil chat ctx attempt (suc k) =
    ((e : ℕ) × (chat attempt ≡ err e))
    × (ctx.ended_after attempt ≡ false)
    × (ctx.ended_waiting attempt ≡ false)
    × FailsUntil chat ctx (suc attempt) k

-- The waits 2^a, 2^(a + 1), … of a number of retries.
abbrev pub backoffs : ℕ → ℕ → List ℕ
backoffs attempt zero = []
backoffs attempt (suc k) = (2 ^ attempt) ∷ backoffs (suc attempt) k

module _ {A : Type 0} where
  retry_from-recovers :
      (chat : Chat A) (ctx : Context) (left attempt k : ℕ) (a : A)
      → k ≤ left
      → FailsUntil chat ctx attempt k
      → chat (attempt + k) ≡ ok a
      → retry_from chat ctx left attempt
        ≡ record { result = ok a; calls = k + 1; waits = backoffs attempt k }
  unfolding retry_from
  retry_from-recovers chat ctx zero attempt zero a h f e = rw (rw add-zero at e, retry_from)
  retry_from-recovers chat ctx zero attempt (suc k) a h f e = absurd (omega arith)
  retry_from-recovers chat ctx (suc left) attempt zero a h f e = rw (rw add-zero at e, retry_from)
  retry_from-recovers chat ctx (suc left) attempt (suc k) a h ((x, e), c, w, f) g =
      rw
        (
          e,
          retry_from,
          c,
          w,
          retry_from-recovers chat ctx left (suc attempt) k a (omega arith) f
              (subst (λ n. chat n ≡ ok a) (omega arith) g),
        )
        (ground arith)

  -- If the provider fails some attempts and then answers, within the retries and with the context
  -- still open, the answer is returned, after one call for each failure and one more, and after
  -- waits of 1, 2, 4, … seconds.
  call_with_retry-recovers :
      (max_retries : ℕ) (chat : Chat A) (ctx : Context) (k : ℕ) (a : A)
      → k ≤ max_retries
      → FailsUntil chat ctx 0 k
      → chat k ≡ ok a
      → call_with_retry max_retries chat ctx
        ≡ record { result = ok a; calls = k + 1; waits = backoffs 0 k }
  unfolding call_with_retry
  call_with_retry-recovers max_retries chat ctx k a h f e =
      retry_from-recovers chat ctx max_retries 0 k a h f
        (subst (λ n. chat n ≡ ok a) (omega arith) e)

-- An answer of a provider, among its first attempts.
abbrev pub Answers : {A : Type 0} → Chat A → ℕ → A → Type 0
Answers chat max_retries a = (n : ℕ) × (chat n ≡ ok a) × (n ≤ max_retries)

abbrev pub FallbackAnswers : {A : Type 0} → Option (Chat A) → ℕ → A → Type 0
FallbackAnswers none max_retries a = ⊥
FallbackAnswers (some chat) max_retries a = Answers chat max_retries a

module _ {A : Type 0} where
  -- What holds of a run of `Complete`, with its retries and its providers.
  abbrev Bounded : Client A → Completed A → Type 0
  Bounded c r =
      (r.primary_calls ≤ c.max_retries + 1)
      × (r.fallback_calls ≤ c.max_retries + 1)
      × ((a : A)
          → r.outcome ≡ ok a
          → Answers c.primary c.max_retries a ⊎ FallbackAnswers c.fallback c.max_retries a)

  Bounded-fallback :
      (c : Client A) (ctx : Context) (fallback : Option (Chat A)) (calls : ℕ) (e : LlmError)
      → c.fallback ≡ fallback
      → calls ≤ c.max_retries + 1
      → Bounded c (try_fallback c.max_retries ctx fallback calls e)
  unfolding call_with_retry
  Bounded-fallback c ctx none calls e p h = (h, omega arith, λ a k. absurd (cc))
  Bounded-fallback c ctx (some chat) calls e p h =
      let run = retry_from chat ctx c.max_retries 0 in
      let (few, answer) = retry_from-calls chat ctx c.max_retries 0 in
      (
        h,
        few,
        λ a k. elim (Result-cases run.result) [
          | inl (b, q) ↦
              let (n, u, v, w) = answer a (ground arith) in
              inr (subst (λ o. FallbackAnswers o c.max_retries a) (sym p) (n, u, omega (arith, w)))
          | inr (f, q) ↦ absurd (ground arith)
        ],
      )

  Bounded-primary :
      (c : Client A) (later : Context) (run : Run A)
      → run.calls ≤ c.max_retries + 1
      → ((a : A) → run.result ≡ ok a → Answers c.primary c.max_retries a)
      → Bounded c (after_primary c later run)
  Bounded-primary c later run h answer = elim (Result-cases run.result) [
    | inl (b, q) ↦ rw (q, after_primary) (h, omega arith, λ a k. inl (answer a (ground arith)))
    | inr (e, q) ↦ rw (q, after_primary) (Bounded-fallback c later c.fallback run.calls e refl h)
  ]

  complete-run :
      (c : Client A) (ctx later : Context) (msgs : List Text) (opts : Options)
      → Bounded c (complete c ctx later msgs opts)
  unfolding complete
  complete-run c ctx later msgs opts = elim (Option-cases (budget_stop c msgs opts)) [
    | inr (e, h) ↦ rw (h, complete) (omega arith, omega arith, λ a k. absurd (cc))
    | inl h ↦
        let (few, answer) = retry_from-calls c.primary ctx c.max_retries 0 in
        rw (h, complete)
          (unfold call_with_retry in
            Bounded-primary c later (retry_from c.primary ctx c.max_retries 0) few
              λ a k. let (n, u, v, w) = answer a k in (n, u, omega (arith, w)))
  ]

  -- A completion that is returned is an answer of one of the providers.
  abbrev pub Given : Client A → Result LlmError A → Type 0
  Given c (ok a) = Answers c.primary c.max_retries a ⊎ FallbackAnswers c.fallback c.max_retries a
  Given c (err e) = Unit

  Given-of :
      (c : Client A) (r : Result LlmError A)
      → ((a : A)
          → r ≡ ok a
          → Answers c.primary c.max_retries a ⊎ FallbackAnswers c.fallback c.max_retries a)
      → Given c r
  Given-of c (ok a) h = h a refl
  Given-of c (err e) h = tt

  -- `Complete` calls neither provider more often than once and once for each retry, and a completion
  -- that it returns is one that the primary or the fallback gave in one of those attempts.
  pub complete-Given :
      (c : Client A) (ctx later : Context) (msgs : List Text) (opts : Options)
      → ((complete c ctx later msgs opts).primary_calls ≤ c.max_retries + 1)
        × ((complete c ctx later msgs opts).fallback_calls ≤ c.max_retries + 1)
        × Given c (complete c ctx later msgs opts).outcome
  complete-Given c ctx later msgs opts =
      let (few, least, given) = complete-run c ctx later msgs opts in
      (few, least, Given-of c (complete c ctx later msgs opts).outcome given)
