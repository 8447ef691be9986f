-- ===== src/Usage/Collector/Rollup.antt =====
-- What `rollup` of internal/usage/collector.go makes of the table usage_daily.
use agentic_demo.Prelude.{
  ℕ, zero, suc, ◌+◌, ◌*◌, ◌≡◌, refl, sym, ap, ◌∙◌, inl, inr, Bool, true, false, some, List, [], ◌∷◌,
  ◌++◌, Text, text_eq, text_eq_refl, eq_of_text_eq, arith, Bool-cases, Option-cases,
}
use agentic_demo.Usage.Key.{redis_key, parse_usage_key}
use agentic_demo.Usage.Key.RoundTrip.{parse_usage_key_iff}
use agentic_demo.Usage.Dates.{parse_date}
use agentic_demo.Usage.Emitter.{Fields, Hash, Redis, live}
use agentic_demo.Usage.Reader.MonthToDate.{Without}
use agentic_demo.Usage.Collector.{
  Daily, row_or_zero, summed, upsert_daily, daily_row, rollup_row, rollup_key, rollup,
}

upsert_daily-other :
    (daily : Daily) (t d m : Text) (row : Fields) (tenant date model : Text)
    → (t ≡ tenant → d ≡ date → m ≡ model → ⊥)
    → upsert_daily daily t d m row tenant date model ≡ daily tenant date model
unfolding upsert_daily
upsert_daily-other daily t d m row tenant date model h = elim (Bool-cases (text_eq tenant t)) [
  | inr a ↦ rw a
  | inl a ↦ elim (Bool-cases (text_eq date d)) [
    | inr b ↦ rw (a, b)
    | inl b ↦ elim (Bool-cases (text_eq model m)) [
      | inr c ↦ rw (a, b, c)
      | inl c ↦
          absurd
            (h (sym (eq_of_text_eq _ _ a)) (sym (eq_of_text_eq _ _ b)) (sym (eq_of_text_eq _ _ c)))
    ]
  ]
]

upsert_daily-own :
    (daily : Daily) (t d m : Text) (row : Fields)
    → upsert_daily daily t d m row t d m ≡ some (summed (daily t d m) row)
unfolding upsert_daily
upsert_daily-own daily t d m row = rw (text_eq_refl t, text_eq_refl d, text_eq_refl m)

module _ (column : ℕ → ℕ) (now : ℕ) (r : Redis) where
  rollup_row-key :
      (key tenant date model : Text) (row : Fields)
      → rollup_row column now r key ≡ some (tenant, date, model, row)
      → key ≡ redis_key tenant date model
  unfolding rollup_row
  rollup_row-key key tenant date model row h = elim (Option-cases (parse_usage_key key)) [
    | inl p ↦ absurd (let k = rw (p, rollup_row) at h in cc)
    | inr ((t, d, m), p) ↦ elim (Option-cases (live now (r.hashes key))) [
      | inl q ↦ absurd (let k = rw (p, rollup_row, q, rollup_row) at h in cc)
      | inr (x, q) ↦ elim (Option-cases (parse_date d)) [
        | inl u ↦ absurd (let k = rw (p, rollup_row, q, rollup_row, u, rollup_row) at h in cc)
        | inr (y, u) ↦
            let k = rw (p, rollup_row, q, rollup_row, u, rollup_row) at h in
            let e = ((parse_usage_key_iff key t d m).0 p).0 in cc
      ]
    ]
  ]

  -- A key leaves the rows of other keys alone.
  rollup_key-other :
      (upsert_ok : Text → Bool) (daily : Daily) (key tenant date model : Text)
      → text_eq key (redis_key tenant date model) ≡ false
      → rollup_key column upsert_ok now r daily key tenant date model ≡ daily tenant date model
  unfolding rollup_key
  rollup_key-other upsert_ok daily key tenant date model h =
      elim (Option-cases (rollup_row column now r key)) [
        | inl e ↦ rw (e, rollup_key)
        | inr ((t, d, m, row), e) ↦ elim (Bool-cases (upsert_ok key)) [
          | inr f ↦ rw (e, rollup_key, f)
          | inl f ↦
              rw (e, rollup_key, f)
                (upsert_daily-other daily t d m row tenant date model λ a b c.
                  cc (rollup_row-key key t d m row e, text_eq_refl (redis_key tenant date model)))
        ]
      ]

  rollup-other :
      (upsert_ok : Text → Bool) (daily : Daily) (keys : List Text) (tenant date model : Text)
      → Without (redis_key tenant date model) keys
      → rollup column upsert_ok now r daily keys tenant date model ≡ daily tenant date model
  unfolding rollup
  rollup-other upsert_ok daily [] tenant date model h = refl
  rollup-other upsert_ok daily (k ∷ keys) tenant date model h =
      rollup-other upsert_ok (rollup_key column upsert_ok now r daily k) keys tenant date model h.1
      ∙ rollup_key-other upsert_ok daily k tenant date model h.0

  rollup-append :
      (upsert_ok : Text → Bool) (daily : Daily) (ks ls : List Text)
      → rollup column upsert_ok now r daily (ks ++ ls)
        ≡ rollup column upsert_ok now r (rollup column upsert_ok now r daily ks) ls
  unfolding rollup
  rollup-append upsert_ok daily [] ls = refl
  rollup-append upsert_ok daily (k ∷ ks) ls =
      rollup-append upsert_ok (rollup_key column upsert_ok now r daily k) ks ls

  rollup_row-own :
      (tenant date model : Text) (hash : Hash) {d : ℕ}
      → parse_usage_key (redis_key tenant date model) ≡ some (tenant, date, model)
      → parse_date date ≡ some d
      → live now (r.hashes (redis_key tenant date model)) ≡ some hash
      → rollup_row column now r (redis_key tenant date model)
        ≡ some (tenant, date, model, daily_row column hash.fields)
  unfolding rollup_row
  rollup_row-own tenant date model hash p q l = rw (p, rollup_row, l, rollup_row, q)

  -- The row that a live key of a valid date is rolled up into.
  rollup_key-own :
      (upsert_ok : Text → Bool) (daily : Daily) (tenant date model : Text) (hash : Hash) {d : ℕ}
      → parse_usage_key (redis_key tenant date model) ≡ some (tenant, date, model)
      → parse_date date ≡ some d
      → live now (r.hashes (redis_key tenant date model)) ≡ some hash
      → upsert_ok (redis_key tenant date model) ≡ true
      → rollup_key column upsert_ok now r daily (redis_key tenant date model) tenant date model
        ≡ some (summed (daily tenant date model) (daily_row column hash.fields))
  unfolding rollup_key
  rollup_key-own upsert_ok daily tenant date model hash p q l ok =
      rw (rollup_row-own tenant date model hash p q l, rollup_key, ok)
        (upsert_daily-own daily tenant date model (daily_row column hash.fields))

-- One roll-up adds the counters of a live key of a valid date to the row of its tenant, date and
-- model, once, if the scan returns the key once and its statement succeeds.
pub rollup-adds :
    (column : ℕ → ℕ) (upsert_ok : Text → Bool) (now : ℕ) (r : Redis) (daily : Daily)
    (before after : List Text) (tenant date model : Text) (hash : Hash) {d : ℕ}
    → parse_usage_key (redis_key tenant date model) ≡ some (tenant, date, model)
    → parse_date date ≡ some d
    → live now (r.hashes (redis_key tenant date model)) ≡ some hash
    → upsert_ok (redis_key tenant date model) ≡ true
    → Without (redis_key tenant date model) before
    → Without (redis_key tenant date model) after
    → rollup column upsert_ok now r daily
        (before ++ (redis_key tenant date model ∷ after))
        tenant
        date
        model
      ≡ some (summed (daily tenant date model) (daily_row column hash.fields))
unfolding rollup
rollup-adds column upsert_ok now r daily before after tenant date model hash p q l ok hb ha =
    let key = redis_key tenant date model in
    let start = rollup column upsert_ok now r daily before in
    rw (rollup-append column now r upsert_ok daily before (key ∷ after)) (
      rollup-other column now r upsert_ok (rollup_key column upsert_ok now r start key) after tenant
        date model ha
      ∙ rollup_key-own column now r upsert_ok start tenant date model hash p q l ok
      ∙ ap (λ old. some (summed old (daily_row column hash.fields)))
          (rollup-other column now r upsert_ok daily before tenant date model hb))

-- The hourly roll-up, run `rounds` times over the same counters.
abbrev pub rollups : (ℕ → ℕ) → ℕ → Redis → ℕ → Daily → List Text → Daily
rollups column now r zero daily keys = daily
rollups column now r (suc rounds) daily keys =
    rollups column now r rounds (rollup column (λ k. true) now r daily keys) keys

-- The counters are never reset, so each further round adds them again: after `rounds` roll-ups of a
-- day whose counters did not change, the row holds the counted cost and tokens `rounds` times over.
pub rollups-multiply :
    (column : ℕ → ℕ) (now : ℕ) (r : Redis) (rounds : ℕ) (daily : Daily) (before after : List Text)
    (tenant date model : Text) (hash : Hash) {d : ℕ}
    → parse_usage_key (redis_key tenant date model) ≡ some (tenant, date, model)
    → parse_date date ≡ some d
    → live now (r.hashes (redis_key tenant date model)) ≡ some hash
    → Without (redis_key tenant date model) before
    → Without (redis_key tenant date model) after
    → let row = row_or_zero (
        rollups column now r rounds daily
          (before ++ (redis_key tenant date model ∷ after))
          tenant
          date
          model) in
      let old = row_or_zero (daily tenant date model) in
      (row.cost ≡ old.cost + rounds * column hash.fields.cost)
      × (row.input_tokens ≡ old.input_tokens + rounds * hash.fields.input_tokens)
      × (row.output_tokens ≡ old.output_tokens + rounds * hash.fields.output_tokens)
unfolding summed daily_row
rollups-multiply column now r zero daily before after tenant date model hash p q l hb ha =
    omega arith
rollups-multiply column now r (suc rounds) daily before after tenant date model hash p q l hb ha =
    let keys = before ++ (redis_key tenant date model ∷ after) in
    let daily' = rollup column (λ k. true) now r daily keys in
    let once =
      rollup-adds column (λ k. true) now r daily before after tenant date model hash p q l refl hb
        ha in
    let again =
      rollups-multiply column now r rounds daily' before after tenant date model hash p q l hb ha in
    let more = rw once at again in
    (omega (arith, more.0), omega (arith, more.1), omega (arith, more.2))
