-- ===== src/Webui/Cron/RoundTrip.antt =====
-- What CronParts and DescribeCron of internal/webui/mapper.go make of an expression that BuildCronExpr
-- has composed.
use agentic_demo.Prelude.{
  ℕ, ◌+◌, ◌*◌, ◌/◌, ◌%◌, ◌<◌, ◌≡◌, refl, sym, ap, ◌∙◌, inl, inr, false, Option, none, some, [], ◌∷◌,
  ◌++◌, append-nil, Text, lit, text_eq, is_empty, trim_space, is_space, ltb, Result, ok, err, ◌>>=◌,
  decimal, decimal-small, decimal-two, atoi, atoi-digit, atoi-digits, fields, fields_from,
  fields_from-word, NoSpace, arith, Bool-cases, if◌then◌else◌,
}
use agentic_demo.Webui.Cron.{
  CronError, parse_clock, or_default_day, five, star, day_fields, build_cron_expr, padded, pad2,
  cron_parts, is_star,
}

-- A word: not empty and without white space.
abbrev pub IsWord : Text → Type 0
IsWord [] = ⊥
IsWord (c ∷ w) = NoSpace (c ∷ w)

fields_from-blank :
    (c : ℕ) (w rest : Text) → fields_from (c ∷ w) (32 ∷ rest) ≡ (c ∷ w) ∷ fields_from [] rest
unfolding fields_from is_space
fields_from-blank c w rest = refl

fields_from-next :
    (w rest : Text) → IsWord w → fields_from [] (w ++ (32 ∷ rest)) ≡ w ∷ fields_from [] rest
fields_from-next [] rest h = absurd h
fields_from-next (c ∷ w) rest h =
    fields_from-word [] (c ∷ w) (32 ∷ rest) h ∙ fields_from-blank c w rest

fields_from-last : (w : Text) → IsWord w → fields_from [] w ≡ w ∷ []
unfolding fields_from
fields_from-last [] h = absurd h
fields_from-last (c ∷ w) h =
    ap (fields_from []) (sym (append-nil (c ∷ w))) ∙ fields_from-word [] (c ∷ w) [] h

pub fields-five :
    (a b c d e : Text)
    → IsWord a
    → IsWord b
    → IsWord c
    → IsWord d
    → IsWord e
    → fields (five a b c d e) ≡ a ∷ b ∷ c ∷ d ∷ e ∷ []
unfolding fields
fields-five a b c d e ha hb hc hd he = rw (
  fields_from-next a _ ha,
  fields_from-next b _ hb,
  fields_from-next c _ hc,
  fields_from-next d _ hd,
  fields_from-last e he,
)

pub not-space : (n : ℕ) → n < 10 → is_space (b'0' + n) ≡ false
unfolding is_space
not-space n h = ground arith

pub decimal-IsWord : (n : ℕ) → n < 100 → IsWord (decimal n)
decimal-IsWord n h = elim (Bool-cases (ltb n 10)) [
  | inl e ↦ rw (decimal-small n (ground arith)) (not-space n (ground arith), tt)
  | inr e ↦
      rw (decimal-two n (ground arith) h)
        (not-space (n / 10) (omega arith), (not-space (n % 10) (omega arith), tt))
]

-- The two digits of a number below 100.
unfoldable pub two_digits : ℕ → Text
two_digits n = (b'0' + n / 10) ∷ (b'0' + n % 10) ∷ []

pub pad2-decimal : (n : ℕ) → n < 100 → pad2 (decimal n) ≡ two_digits n
unfolding pad2 padded two_digits atoi
pad2-decimal n h = elim (Bool-cases (ltb n 10)) [
  | inl e ↦
      rw (decimal-small n (ground arith), atoi-digit n (ground arith))
        (rw (e, decimal-small n (ground arith))
          (let a : n / 10 ≡ 0 = ground arith in let b : n % 10 ≡ n = ground arith in rw (a, b)))
  | inr e ↦
      rw (decimal-two n (ground arith) h, atoi-digits (n / 10) (n % 10) (omega arith) (omega arith))
        (let q : n / 10 * 10 + n % 10 ≡ n = omega arith in
          rw (q, e) (decimal-two n (ground arith) h))
]

pub decimal-is_star : (n : ℕ) → n < 100 → is_star (decimal n) ≡ false
unfolding is_star text_eq
decimal-is_star n h = elim (Bool-cases (ltb n 10)) [
  | inl e ↦ rw (decimal-small n (ground arith)) (ground arith)
  | inr e ↦ rw (decimal-two n (ground arith) h) (ground arith)
]

-- The clock of a form, `HH:MM`.
unfoldable pub clock_text : ℕ × ℕ → Text
unfolding two_digits
clock_text c = two_digits c.0 ++ (b':' ∷ two_digits c.1)

abbrev pub OnClock : ℕ × ℕ → Type 0
OnClock c = (c.0 < 24) × (c.1 < 60)

pub star-IsWord : IsWord star
unfolding is_space
star-IsWord = (refl, tt)

pub one-IsWord : IsWord (lit "1")
unfolding is_space
one-IsWord = (refl, tt)

cron_parts-five :
    (c : ℕ × ℕ) (dom dow : Text)
    → OnClock c
    → IsWord dom
    → IsWord dow
    → cron_parts (five (decimal c.1) (decimal c.0) dom star dow) ≡ (clock_text c, dow, dom)
unfolding cron_parts two_digits clock_text
cron_parts-five c dom dow h k l = rw (
  fields-five (decimal c.1) (decimal c.0) dom star dow (decimal-IsWord c.1 (omega arith))
      (decimal-IsWord c.0 (omega arith)) k star-IsWord l,
  pad2-decimal c.0 (omega arith),
  pad2-decimal c.1 (omega arith),
)

-- The types of a schedule that the form offers.
pub data Kind : Type 0 where
  daily weekly monthly : Kind

abbrev pub kind_text : Kind → Text
kind_text daily = lit "daily"
kind_text weekly = lit "weekly"
kind_text monthly = lit "monthly"

-- The day that is entered, and the first one if none is.
abbrev pub entered : Text → Text
entered day = if is_empty day then lit "1" else day

-- The day of the week and the day of the month that the form shows again: a star where the type asks
-- for no day.
abbrev pub shown_days : Kind → Text → Text → Text × Text
shown_days daily day_of_week day_of_month = (lit "*", lit "*")
shown_days weekly day_of_week day_of_month = (entered day_of_week, lit "*")
shown_days monthly day_of_week day_of_month = (lit "*", entered day_of_month)

abbrev pub parts_again : Result CronError Text → Option (Text × Text × Text)
parts_again (err e) = none
parts_again (ok expr) = some (cron_parts expr)

or_default-entered : (day : Text) → or_default_day day (lit "1") ≡ entered day
unfolding or_default_day is_empty
or_default-entered [] = refl
or_default-entered (c ∷ day) = refl

fields-kind :
    (k : Kind) (dow dom : Text)
    → day_fields (kind_text k) dow dom ≡ ok ((shown_days k dow dom).1, (shown_days k dow dom).0)
unfolding day_fields text_eq
fields-kind daily dow dom = refl
fields-kind weekly dow dom = rw (or_default-entered dow) refl
fields-kind monthly dow dom = rw (or_default-entered dom) refl

composed :
    (parse : Text → Option (ℕ × ℕ)) (schedule_type time dow dom : Text) (c : ℕ × ℕ)
    (days : Text × Text)
    → parse_clock parse time ≡ ok c
    → OnClock c
    → day_fields schedule_type dow dom ≡ ok (days.1, days.0)
    → IsWord days.0
    → IsWord days.1
    → parts_again (build_cron_expr parse schedule_type time dow dom)
      ≡ some (clock_text c, days.0, days.1)
unfolding build_cron_expr
composed parse schedule_type time dow dom c days parsed on fields_are w v =
    rw (parsed, fields_are, ◌>>=◌) (ap some (cron_parts-five c days.1 days.0 on v w))

entered-IsWord : (day : Text) → NoSpace day → IsWord (entered day)
unfolding is_empty
entered-IsWord [] h = one-IsWord
entered-IsWord (c ∷ day) h = h

shown-IsWord :
    (k : Kind) (dow dom : Text)
    → NoSpace dow
    → NoSpace dom
    → IsWord (shown_days k dow dom).0 × IsWord (shown_days k dow dom).1
shown-IsWord daily dow dom h l = (star-IsWord, star-IsWord)
shown-IsWord weekly dow dom h l = (entered-IsWord dow h, star-IsWord)
shown-IsWord monthly dow dom h l = (star-IsWord, entered-IsWord dom l)

-- Of the expression that the form composes, editing the schedule shows the time as HH:MM; for a weekly
-- schedule the day of the week and for a monthly one the day of the month that was entered, or the
-- first if none was; and a star for the days that the type asks for not. The time, without white
-- space around it, is not empty and parses to a time of a day, and the days hold no white space.
pub cron_parts-build_cron_expr :
    (parse : Text → Option (ℕ × ℕ)) (k : Kind) (time dow dom : Text) (c : ℕ × ℕ)
    → is_empty (trim_space time) ≡ false
    → parse (trim_space time) ≡ some c
    → OnClock c
    → NoSpace dow
    → NoSpace dom
    → parts_again (build_cron_expr parse (kind_text k) time dow dom)
      ≡ some (clock_text c, (shown_days k dow dom).0, (shown_days k dow dom).1)
unfolding parse_clock
cron_parts-build_cron_expr parse k time dow dom c full parsed on h l =
    let w = shown-IsWord k dow dom h l in
    composed parse (kind_text k) time dow dom c (shown_days k dow dom) (rw (full, parsed) refl) on
      (fields-kind k dow dom) w.0 w.1
