-- ===== src/Scheduling/Service.antt =====
-- internal/scheduling/service.go over the table report_schedules. Identifiers are numbers, which the
-- database gives in turn; `is_cron` is the parser of the cron package. Times are left out.
pub mod Validity
use agentic_demo.Prelude.{
  ℕ, suc, Bool, true, false, not, Option, none, some, List, [], ◌∷◌, ◌++◌, keep_if, Text, lit,
  text_eq, is_empty, trim_space, Result, ok, err, ◌>>=◌, ◌==◌, if◌then◌else◌,
}

-- The text of a ScheduleType other than the three is kept.
pub data ScheduleType : Type 0 where
  daily weekly monthly : ScheduleType
  other_type : Text → ScheduleType

pub record ReportSchedule : Type 0 where
  pub id : ℕ
  pub tenant_id : Text
  pub type : ScheduleType
  pub cron_expr : Text
  pub focus : Option Text
  pub format : Text
  pub enabled : Bool

pub record CreateParams : Type 0 where
  pub tenant_id : Text
  pub type : ScheduleType
  pub cron_expr : Text
  pub focus : Text
  pub format : Text

pub record UpdateParams : Type 0 where
  pub id : ℕ
  pub type : ScheduleType
  pub cron_expr : Text
  pub focus : Text
  pub format : Text

pub data ScheduleError : Type 0 where
  schedule_not_found invalid_cron_expr invalid_schedule_type invalid_tenant_id unavailable :
      ScheduleError

pub record Table : Type 0 where
  pub rows : List ReportSchedule
  pub next_id : ℕ

-- `validateScheduleType`.
abbrev pub validate_type : ScheduleType → Result ScheduleError (Unit {0})
validate_type (other_type t) = err invalid_schedule_type
validate_type t = ok tt

-- `validateCronExpr`.
unfoldable pub validate_cron : (Text → Bool) → Text → Result ScheduleError (Unit {0})
unfolding is_empty trim_space
validate_cron is_cron expr =
    if is_empty (trim_space expr)
    then err invalid_cron_expr
    else if is_cron expr
    then ok tt
    else err invalid_cron_expr

-- `validateUpdateParams`, and the part of `validateCreateParams` behind the tenant.
unfoldable pub validate : (Text → Bool) → ScheduleType → Text → Result ScheduleError (Unit {0})
unfolding validate_cron
validate is_cron type expr = do u ← validate_type type; validate_cron is_cron expr

unfoldable pub schedule_format : Text → Text
unfolding is_empty
schedule_format f = if is_empty f then lit "standard" else f

-- `toPgText`.
unfoldable pub to_pg_text : Text → Option Text
unfolding is_empty
to_pg_text s = if is_empty s then none else some s

unfoldable pub new_row : Table → CreateParams → ReportSchedule
unfolding schedule_format to_pg_text
new_row t p = record {
  id = t.next_id;
  tenant_id = p.tenant_id;
  type = p.type;
  cron_expr = p.cron_expr;
  focus = to_pg_text p.focus;
  format = schedule_format p.format;
  enabled = true;
}

-- The statement that inserts a row; a new row is enabled.
abbrev pub inserted : Bool → Table → ReportSchedule → Result ScheduleError (Table × ReportSchedule)
inserted reachable t row =
    if reachable
    then ok (record { rows = t.rows ++ (row ∷ []); next_id = suc t.next_id }, row)
    else err unavailable

-- `Create`; `reachable` says whether the statement succeeds.
unfoldable pub create :
    (Text → Bool) → Bool → Table → CreateParams → Result ScheduleError (Table × ReportSchedule)
unfolding validate new_row is_empty trim_space
create is_cron reachable t p =
    if is_empty (trim_space p.tenant_id)
    then err invalid_tenant_id
    else validate is_cron p.type p.cron_expr >>= (λ u. inserted reachable t (new_row t p))

unfoldable pub find_row : ℕ → List ReportSchedule → Option ReportSchedule
find_row id [] = none
find_row id (r ∷ rs) = if r.id == id then some r else find_row id rs

-- `UPDATE … WHERE id = $1`.
unfoldable pub set_row :
    ℕ → (ReportSchedule → ReportSchedule) → List ReportSchedule → List ReportSchedule
set_row id f [] = []
set_row id f (r ∷ rs) = (if r.id == id then f r else r) ∷ set_row id f rs

-- `RETURNING`: the changed row, or the error of a row that is not there.
abbrev pub changed :
    Table
    → ℕ
    → (ReportSchedule → ReportSchedule)
    → Option ReportSchedule
    → Result ScheduleError (Table × ReportSchedule)
unfolding set_row
changed t id f none = err schedule_not_found
changed t id f (some r) = ok (record t { rows = set_row id f t.rows }, f r)

unfoldable pub updated : UpdateParams → ReportSchedule → ReportSchedule
unfolding to_pg_text schedule_format
updated p r = record r {
  type = p.type;
  cron_expr = p.cron_expr;
  focus = to_pg_text p.focus;
  format = schedule_format p.format;
}

-- `Update`; `reachable` is false when the request's context has ended.
unfoldable pub update :
    (Text → Bool) → Bool → Table → UpdateParams → Result ScheduleError (Table × ReportSchedule)
unfolding validate changed find_row updated
update is_cron reachable t p = validate is_cron p.type p.cron_expr >>= (λ u.
    if reachable then changed t p.id (updated p) (find_row p.id t.rows) else err unavailable)

unfoldable pub toggled : ReportSchedule → ReportSchedule
toggled r = record r { enabled = not r.enabled }

-- `Toggle`.
unfoldable pub toggle : Bool → Table → ℕ → Result ScheduleError (Table × ReportSchedule)
unfolding changed find_row toggled
toggle reachable t id =
    if reachable then changed t id toggled (find_row id t.rows) else err unavailable

-- `Delete`: a row that is not there is no error.
unfoldable pub delete : Bool → Table → ℕ → Result ScheduleError Table
unfolding keep_if
delete reachable t id =
    if reachable
    then ok (record t { rows = keep_if (λ r. not (r.id == id)) t.rows })
    else err unavailable

-- `ListAllEnabled`, which the scheduler reads.
unfoldable pub list_all_enabled : Table → List ReportSchedule
unfolding keep_if
list_all_enabled t = keep_if (λ r. r.enabled) t.rows
