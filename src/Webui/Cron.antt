-- ===== src/Webui/Cron.antt =====
-- The cron expressions of internal/webui/mapper.go: composed from the fields of the form, taken apart
-- again, and described. `parse` is `time.Parse("15:04", s)`, which gives an hour and a minute.
pub mod RoundTrip
pub mod Described
use agentic_demo.Prelude.{
  ℕ, ◌%◌, Bool, true, false, ◌&&◌, ◌||◌, not, Option, none, some, List, [], ◌∷◌, ◌++◌, Text, lit,
  text_eq, is_empty, trim_space, any_of, ltb, ◌==◌, Result, ok, err, ◌>>=◌, ℤ, pos, negsuc, decimal,
  atoi, fields, if◌then◌else◌, ◌+◌,
}

pub data CronError : Type 0 where
  invalid_time invalid_schedule_type : CronError

abbrev pub or_invalid : Option (ℕ × ℕ) → Result CronError (ℕ × ℕ)
or_invalid none = err invalid_time
or_invalid (some c) = ok c

-- `parseClock`.
unfoldable pub parse_clock : (Text → Option (ℕ × ℕ)) → Text → Result CronError (ℕ × ℕ)
unfolding is_empty trim_space
parse_clock parse t =
    if is_empty (trim_space t) then err invalid_time else or_invalid (parse (trim_space t))

unfoldable pub or_default_day : Text → Text → Text
or_default_day [] d = d
or_default_day (c ∷ s) d = c ∷ s

-- Five fields with a space between each two.
abbrev pub five : Text → Text → Text → Text → Text → Text
five a b c d e = a ++ (32 ∷ (b ++ (32 ∷ (c ++ (32 ∷ (d ++ (32 ∷ e)))))))

abbrev pub star : Text
star = b'*' ∷ []

-- The fields for the day of the month and of the week.
unfoldable pub day_fields : Text → Text → Text → Result CronError (Text × Text)
unfolding or_default_day text_eq
day_fields schedule_type day_of_week day_of_month =
    if text_eq schedule_type (lit "daily")
    then ok (star, star)
    else if text_eq schedule_type (lit "weekly")
    then ok (star, or_default_day day_of_week (lit "1"))
    else if text_eq schedule_type (lit "monthly")
    then ok (or_default_day day_of_month (lit "1"), star)
    else err invalid_schedule_type

-- `BuildCronExpr`.
unfoldable pub build_cron_expr :
    (Text → Option (ℕ × ℕ)) → Text → Text → Text → Text → Result CronError Text
unfolding parse_clock day_fields
build_cron_expr parse schedule_type time_of_day day_of_week day_of_month = do
  clock ← parse_clock parse time_of_day
  days ← day_fields schedule_type day_of_week day_of_month
  ok (five (decimal clock.1) (decimal clock.0) days.0 star days.1)

-- `%02d`.
unfoldable pub padded : ℤ → Text
padded (pos n) = if ltb n 10 then b'0' ∷ decimal n else decimal n
padded (negsuc n) = b'-' ∷ decimal (n + 1)

abbrev pub padded_or : Text → Option ℤ → Text
unfolding padded
padded_or v none = v
padded_or v (some n) = padded n

-- `pad2`.
unfoldable pub pad2 : Text → Text
unfolding padded_or atoi
pad2 v = padded_or v (atoi v)

abbrev pub CronFields : Type 0
CronFields = Text × Text × Text

abbrev pub parts_of : List Text → CronFields
unfolding pad2
parts_of (minute ∷ hour ∷ dom ∷ month ∷ dow ∷ []) = (pad2 hour ++ (b':' ∷ pad2 minute), dow, dom)
parts_of _ = ([], [], [])

-- `CronParts`: the time of day, the day of the week and the day of the month.
unfoldable pub cron_parts : Text → CronFields
unfolding parts_of fields
cron_parts expr = parts_of (fields expr)

-- `isStar`.
unfoldable pub is_star : Text → Bool
unfolding text_eq
is_star f = text_eq f star

-- `isEvery`.
unfoldable pub is_every : List Text → Bool
unfolding is_star
is_every [] = true
is_every (f ∷ fs) = if not (is_star f) then false else is_every fs

-- `cronTime`.
unfoldable pub cron_time : Text → Text → Text
unfolding is_star pad2
cron_time hour minute =
    if is_star hour || is_star minute then [] else lit " at " ++ (pad2 hour ++ (b':' ∷ pad2 minute))

abbrev pub named_day : Text → Option Text
unfolding text_eq
named_day dow =
    if text_eq dow (lit "0") || text_eq dow (lit "7")
    then some (lit "Sunday")
    else if text_eq dow (lit "1")
    then some (lit "Monday")
    else if text_eq dow (lit "2")
    then some (lit "Tuesday")
    else if text_eq dow (lit "3")
    then some (lit "Wednesday")
    else if text_eq dow (lit "4")
    then some (lit "Thursday")
    else if text_eq dow (lit "5")
    then some (lit "Friday")
    else if text_eq dow (lit "6")
    then some (lit "Saturday")
    else none

-- `weekdayName`.
unfoldable pub weekday_name : Text → Option Text
unfolding named_day any_of
weekday_name dow =
    if any_of (λ c. (c == b'*') || (c == b'/') || (c == b',')) dow then none else named_day dow

abbrev pub suffix : ℕ → Text
suffix n =
    if (n % 100 == 11) || (n % 100 == 12) || (n % 100 == 13)
    then lit "th"
    else if n % 10 == 1
    then lit "st"
    else if n % 10 == 2
    then lit "nd"
    else if n % 10 == 3
    then lit "rd"
    else lit "th"

-- The remainders of a negative number are at most 0, so its suffix is "th".
abbrev pub ordinal_of : Option ℤ → Text
unfolding decimal
ordinal_of none = []
ordinal_of (some (pos n)) = lit " on the " ++ (decimal n ++ suffix n)
ordinal_of (some (negsuc n)) = lit " on the -" ++ (decimal (n + 1) ++ lit "th")

-- `ordinal`.
unfoldable pub ordinal : Text → Text
unfolding ordinal_of atoi
ordinal day = ordinal_of (atoi day)

-- A description by the weekday; without a name for the day, the schedule is a custom one.
abbrev pub weekly_text : Option Text → Text → Text
weekly_text none time = lit "Custom schedule" ++ time
weekly_text (some day) time = lit "Every " ++ (day ++ time)

abbrev pub day_text : Text → Text → Text → Text → Text
unfolding is_star weekday_name ordinal
day_text dom month dow time =
    if is_star dom && is_star month && is_star dow
    then lit "Every day" ++ time
    else if is_star dom && is_star month && not (is_star dow)
    then weekly_text (weekday_name dow) time
    else if not (is_star dom) && is_star month && is_star dow
    then lit "Monthly" ++ (ordinal dom ++ time)
    else lit "Custom schedule" ++ time

abbrev pub described : Text → List Text → Text
unfolding is_every day_text cron_time
described expr (minute ∷ hour ∷ dom ∷ month ∷ dow ∷ []) =
    if is_every (minute ∷ hour ∷ dom ∷ month ∷ dow ∷ [])
    then lit "Every minute"
    else day_text dom month dow (cron_time hour minute)
described expr _ = expr

-- `DescribeCron`.
unfoldable pub describe_cron : Text → Text
unfolding described fields
describe_cron expr = described expr (fields expr)
