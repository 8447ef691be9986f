-- ===== src/Webui/Cron/Described.antt =====
-- What DescribeCron of internal/webui/mapper.go says of the schedules that the form can make.
use agentic_demo.Prelude.{
  ℕ, zero, suc, ◌+◌, ◌*◌, ◌/◌, ◌%◌, ◌<◌, ◌≡◌, refl, ap, ◌∙◌, inl, inr, true, false, Option, none,
  some, List, [], ◌∷◌, ◌++◌, Text, lit, any_of, text_eq, eq_of_text_eq, length, Bool, ◌&&◌, ltb,
  Result, ok, err, ◌>>=◌, pos, decimal, decimal-small, decimal-two, atoi, atoi-digit, atoi-digits,
  arith, Bool-cases,
}
use agentic_demo.Webui.Cron.{
  CronError, parse_clock, or_default_day, five, star, day_fields, build_cron_expr, is_star,
  described, describe_cron, cron_time, day_text, is_every, weekday_name, ordinal, ordinal_of,
  suffix,
}
use agentic_demo.Webui.Cron.RoundTrip.{
  IsWord, fields-five, decimal-IsWord, decimal-is_star, star-IsWord, pad2-decimal, OnClock,
  clock_text,
}

cron_time-clock :
    (c : ℕ × ℕ) → OnClock c → cron_time (decimal c.0) (decimal c.1) ≡ lit " at " ++ clock_text c
unfolding cron_time clock_text
cron_time-clock c h = rw (
  decimal-is_star c.0 (omega arith),
  decimal-is_star c.1 (omega arith),
  pad2-decimal c.0 (omega arith),
  pad2-decimal c.1 (omega arith),
)

is_every-fixed : (f : Text) (fs : List Text) → is_star f ≡ false → is_every (f ∷ fs) ≡ false
unfolding is_every
is_every-fixed f fs h = rw h

described-fixed :
    (expr minute hour dom dow : Text)
    → is_star minute ≡ false
    → described expr (minute ∷ hour ∷ dom ∷ star ∷ dow ∷ [])
      ≡ day_text dom star dow (cron_time hour minute)
unfolding described
described-fixed expr minute hour dom dow h =
    rw (is_every-fixed minute (hour ∷ dom ∷ star ∷ dow ∷ []) h)

describe_cron-five :
    (c : ℕ × ℕ) (dom dow : Text)
    → OnClock c
    → IsWord dom
    → IsWord dow
    → describe_cron (five (decimal c.1) (decimal c.0) dom star dow)
      ≡ day_text dom star dow (lit " at " ++ clock_text c)
unfolding describe_cron
describe_cron-five c dom dow h k l =
    let expr = five (decimal c.1) (decimal c.0) dom star dow in
    ap (described expr) (
      fields-five (decimal c.1) (decimal c.0) dom star dow (decimal-IsWord c.1 (omega arith))
        (decimal-IsWord c.0 (omega arith)) k star-IsWord l)
    ∙ described-fixed expr (decimal c.1) (decimal c.0) dom dow (decimal-is_star c.1 (omega arith))
    ∙ ap (day_text dom star dow) (cron_time-clock c h)

-- The names of the days from Sunday on.
abbrev pub weekday : ℕ → Text
weekday zero = lit "Sunday"
weekday (suc zero) = lit "Monday"
weekday (suc (suc zero)) = lit "Tuesday"
weekday (suc (suc (suc zero))) = lit "Wednesday"
weekday (suc (suc (suc (suc zero)))) = lit "Thursday"
weekday (suc (suc (suc (suc (suc zero))))) = lit "Friday"
weekday _ = lit "Saturday"

weekday_name-decimal : (n : ℕ) → n < 7 → weekday_name (decimal n) ≡ some (weekday n)
unfolding weekday_name decimal any_of text_eq
weekday_name-decimal zero h = refl
weekday_name-decimal (suc zero) h = refl
weekday_name-decimal (suc (suc zero)) h = refl
weekday_name-decimal (suc (suc (suc zero))) h = refl
weekday_name-decimal (suc (suc (suc (suc zero)))) h = refl
weekday_name-decimal (suc (suc (suc (suc (suc zero))))) h = refl
weekday_name-decimal (suc (suc (suc (suc (suc (suc zero)))))) h = refl
weekday_name-decimal (suc (suc (suc (suc (suc (suc (suc n))))))) h = absurd (omega arith)

atoi-decimal : (n : ℕ) → n < 100 → atoi (decimal n) ≡ some (pos n)
atoi-decimal n h = elim (Bool-cases (ltb n 10)) [
  | inl e ↦ rw (decimal-small n (ground arith)) (atoi-digit n (ground arith))
  | inr e ↦
      let q : n / 10 * 10 + n % 10 ≡ n = omega arith in
      rw (decimal-two n (ground arith) h)
        (atoi-digits (n / 10) (n % 10) (omega arith) (omega arith) ∙ ap (λ x. some (pos x)) q)
]

ordinal-decimal :
    (n : ℕ) → n < 100 → ordinal (decimal n) ≡ lit " on the " ++ (decimal n ++ suffix n)
unfolding ordinal ordinal_of
ordinal-decimal n h = ap ordinal_of (atoi-decimal n h)

or_default_word : (d e : Text) → IsWord d → or_default_day d e ≡ d
unfolding or_default_day
or_default_word [] e h = absurd h
or_default_word (c ∷ d) e h = refl

star-is_star : is_star star ≡ true
unfolding is_star text_eq
star-is_star = refl

day_text-named :
    (d day time : Text)
    → is_star d ≡ false
    → weekday_name d ≡ some day
    → day_text star star d time ≡ lit "Every " ++ (day ++ time)
unfolding day_text
day_text-named d day time h k = rw (h, k)

day_text-ordinal :
    (d time : Text)
    → is_star d ≡ false
    → day_text d star star time ≡ lit "Monthly" ++ (ordinal d ++ time)
unfolding day_text
day_text-ordinal d time h = rw (star-is_star, h)

day_text-daily : (time : Text) → day_text star star star time ≡ lit "Every day" ++ time
unfolding day_text
day_text-daily time = refl

-- The ordinals from 0 on.
abbrev ordinals : List Text
ordinals =
    lit "0th"
    ∷ lit "1st"
    ∷ lit "2nd"
    ∷ lit "3rd"
    ∷ lit "4th"
    ∷ lit "5th"
    ∷ lit "6th"
    ∷ lit "7th"
    ∷ lit "8th"
    ∷ lit "9th"
    ∷ lit "10th"
    ∷ lit "11th"
    ∷ lit "12th"
    ∷ lit "13th"
    ∷ lit "14th"
    ∷ lit "15th"
    ∷ lit "16th"
    ∷ lit "17th"
    ∷ lit "18th"
    ∷ lit "19th"
    ∷ lit "20th"
    ∷ lit "21st"
    ∷ lit "22nd"
    ∷ lit "23rd"
    ∷ lit "24th"
    ∷ lit "25th"
    ∷ lit "26th"
    ∷ lit "27th"
    ∷ lit "28th"
    ∷ lit "29th"
    ∷ lit "30th"
    ∷ lit "31st"
    ∷ []

abbrev nth : ℕ → List Text → Text
nth n [] = []
nth zero (x ∷ xs) = x
nth (suc n) (x ∷ xs) = nth n xs

-- The day of a month as an ordinal.
unfoldable pub day_ordinal : ℕ → Text
day_ordinal n = nth n ordinals

agree : ℕ → List Text → Bool
agree k [] = true
agree k (x ∷ xs) = text_eq (decimal k ++ suffix k) x && agree (suc k) xs

nth-agree :
    (n k : ℕ) (xs : List Text)
    → n < length xs
    → agree k xs ≡ true
    → decimal (k + n) ++ suffix (k + n) ≡ nth n xs
unfolding agree
nth-agree n k [] l h = absurd (omega arith)
nth-agree zero k (x ∷ xs) l h = elim (Bool-cases (text_eq (decimal k ++ suffix k) x)) [
  | inl e ↦ let q : k + 0 ≡ k = omega arith in rw q (eq_of_text_eq _ x e)
  | inr e ↦ absurd (let g = rw e at h in cc)
]
nth-agree (suc n) k (x ∷ xs) l h = elim (Bool-cases (text_eq (decimal k ++ suffix k) x)) [
  | inl e ↦
      let q : k + suc n ≡ suc k + n = omega arith in
      let g : agree (suc k) xs ≡ true = rw e at h in rw q (nth-agree n (suc k) xs (omega arith) g)
  | inr e ↦ absurd (let g = rw e at h in cc)
]

all-agree : agree 0 ordinals ≡ true
unfolding agree text_eq decimal
all-agree = refl

suffix-day_ordinal : (n : ℕ) → n < 32 → decimal n ++ suffix n ≡ day_ordinal n
unfolding day_ordinal
suffix-day_ordinal n h =
    let q : 0 + n ≡ n = omega arith in let e = nth-agree n 0 ordinals h all-agree in rw q at e

abbrev pub describe : Result CronError Text → Option Text
describe (ok expr) = some (describe_cron expr)
describe (err e) = none

module _ (parse : Text → Option (ℕ × ℕ)) (time : Text) (c : ℕ × ℕ)
    (parsed : parse_clock parse time ≡ ok c) (k : OnClock c) where
  describe-daily :
      (dow dom : Text)
      → describe (build_cron_expr parse (lit "daily") time dow dom)
        ≡ some (lit "Every day at " ++ clock_text c)
  unfolding build_cron_expr day_fields
  describe-daily dow dom =
      rw (parsed, ◌>>=◌)
        (ap some (
          describe_cron-five c star star k star-IsWord star-IsWord
          ∙ day_text-daily (lit " at " ++ clock_text c)))

  describe-weekly :
      (day : ℕ) (dom : Text)
      → day < 7
      → describe (build_cron_expr parse (lit "weekly") time (decimal day) dom)
        ≡ some (lit "Every " ++ (weekday day ++ (lit " at " ++ clock_text c)))
  unfolding build_cron_expr day_fields
  describe-weekly day dom l =
      let w = decimal-IsWord day (omega arith) in
      rw (parsed, ◌>>=◌, or_default_word (decimal day) (lit "1") w)
        (ap some (
          describe_cron-five c star (decimal day) k star-IsWord w
          ∙ day_text-named (decimal day) (weekday day) (lit " at " ++ clock_text c)
              (decimal-is_star day (omega arith)) (weekday_name-decimal day l)))

  describe-monthly :
      (day : ℕ) (dow : Text)
      → day < 32
      → describe (build_cron_expr parse (lit "monthly") time dow (decimal day))
        ≡ some
            (lit "Monthly" ++ ((lit " on the " ++ day_ordinal day) ++ (lit " at " ++ clock_text c)))
  unfolding build_cron_expr day_fields
  describe-monthly day dow l =
      let w = decimal-IsWord day (omega arith) in
      rw (parsed, ◌>>=◌, or_default_word (decimal day) (lit "1") w)
        (ap some (
          describe_cron-five c (decimal day) star k w star-IsWord
          ∙ day_text-ordinal (decimal day) (lit " at " ++ clock_text c)
              (decimal-is_star day (omega arith))
          ∙ ap (λ o. lit "Monthly" ++ (o ++ (lit " at " ++ clock_text c)))
              (ordinal-decimal day (omega arith)
                ∙ ap (λ o. lit " on the " ++ o) (suffix-day_ordinal day l))))

-- The page describes what the form composes in words: a daily schedule as "Every day at HH:MM", a weekly
-- one with the name of its day, counted from Sunday, and a monthly one with the ordinal of its
-- day, such as 1st, 11th or 22nd. The time parses to a time of a day.
pub describe_cron-build_cron_expr :
    (parse : Text → Option (ℕ × ℕ)) (time : Text) (c : ℕ × ℕ)
    → parse_clock parse time ≡ ok c
    → OnClock c
    → (week_day day : ℕ) → week_day < 7
    → day < 32
    → (other : Text)
    → (describe (build_cron_expr parse (lit "daily") time other other)
        ≡ some (lit "Every day at " ++ clock_text c))
      × (describe (build_cron_expr parse (lit "weekly") time (decimal week_day) other)
          ≡ some (lit "Every " ++ (weekday week_day ++ (lit " at " ++ clock_text c))))
      × (describe (build_cron_expr parse (lit "monthly") time other (decimal day))
          ≡ some (
              lit "Monthly"
              ++ ((lit " on the " ++ day_ordinal day) ++ (lit " at " ++ clock_text c))))
describe_cron-build_cron_expr parse time c parsed k week_day day h l other = (
  describe-daily parse time c parsed k other other,
  describe-weekly parse time c parsed k week_day other h,
  describe-monthly parse time c parsed k day other l,
)
