-- ===== src/Scheduling/Service/Validity.antt =====
-- What holds of every schedule that internal/scheduling/service.go keeps.
use agentic_demo.Prelude.{
  ℕ, ◌≡◌, refl, inl, inr, Bool, true, false, not, Option, none, some, List, [], ◌∷◌, keep_if, All,
  All-append, Text, is_empty, trim_space, Result, ok, err, Result-cases, Bool-cases, ◌>>=◌, ◌==◌,
  if_both, if_split, if◌then◌else◌,
}
use agentic_demo.Scheduling.Service.{
  ScheduleType, ReportSchedule, CreateParams, UpdateParams, ScheduleError, Table, validate_type,
  validate_cron, validate, schedule_format, create, find_row, set_row, changed, updated, update,
  toggled, toggle, delete, inserted, new_row, unavailable,
}

-- The cron package accepts the expression, the type is one of the three, and there is a format.
abbrev pub IsValid : (Text → Bool) → ReportSchedule → Type 0
IsValid is_cron r =
    (is_cron r.cron_expr ≡ true) × (validate_type r.type ≡ ok tt) × (is_empty r.format ≡ false)

abbrev pub AllValid : (Text → Bool) → Table → Type 0
AllValid is_cron t = All (IsValid is_cron) t.rows

-- The operations, each with whether the database answers.
pub data Op : Type 0 where
  creating : Bool → CreateParams → Op
  updating : Bool → UpdateParams → Op
  toggling deleting : Bool → ℕ → Op

-- The table after an operation: one that fails leaves it as it is.
abbrev pub kept : Table → Result ScheduleError (Table × ReportSchedule) → Table
kept t (ok (t', r)) = t'
kept t (err e) = t

abbrev pub kept_table : Table → Result ScheduleError Table → Table
kept_table t (ok t') = t'
kept_table t (err e) = t

unfoldable pub apply : (Text → Bool) → Table → Op → Table
unfolding create update toggle delete
apply is_cron t (creating b p) = kept t (create is_cron b t p)
apply is_cron t (updating b p) = kept t (update is_cron b t p)
apply is_cron t (toggling b id) = kept t (toggle b t id)
apply is_cron t (deleting b id) = kept_table t (delete b t id)

unfoldable pub apply_all : (Text → Bool) → Table → List Op → Table
unfolding apply
apply_all is_cron t [] = t
apply_all is_cron t (o ∷ os) = apply_all is_cron (apply is_cron t o) os

module _ (is_cron : Text → Bool) where
  validate_cron-ok : (expr : Text) → validate_cron is_cron expr ≡ ok tt → is_cron expr ≡ true
  unfolding validate_cron
  validate_cron-ok expr h = elim (Bool-cases (is_empty (trim_space expr))) [
    | inl e ↦ absurd (let k = rw e at h in cc)
    | inr e ↦ elim (Bool-cases (is_cron expr)) [
      | inl c ↦ c
      | inr c ↦ absurd (let k = rw (e, c) at h in cc)
    ]
  ]

  validate-ok :
      (type : ScheduleType) (expr : Text)
      → validate is_cron type expr ≡ ok tt
      → (is_cron expr ≡ true) × (validate_type type ≡ ok tt)
  unfolding validate
  validate-ok type expr h = elim (Result-cases (validate_type type)) [
    | inr (e, v) ↦ absurd (let k = rw (v, ◌>>=◌) at h in cc)
    | inl (u, v) ↦ let k = rw (v, ◌>>=◌) at h in (validate_cron-ok expr k, v)
  ]

  schedule_format-filled : (f : Text) → is_empty (schedule_format f) ≡ false
  unfolding schedule_format is_empty
  schedule_format-filled f =
      if_split (λ (t : Text). is_empty t ≡ false) (is_empty f) (λ e. refl) (λ e. e)

  set_row-AllValid :
      (id : ℕ) (f : ReportSchedule → ReportSchedule) (rs : List ReportSchedule)
      → ((r : ReportSchedule) → IsValid is_cron r → IsValid is_cron (f r))
      → All (IsValid is_cron) rs
      → All (IsValid is_cron) (set_row id f rs)
  unfolding set_row
  set_row-AllValid id f [] h a = tt
  set_row-AllValid id f (r ∷ rs) h a =
      (if_both (IsValid is_cron) (r.id == id) (h r a.0) a.0, set_row-AllValid id f rs h a.1)

  keep_if-AllValid :
      (p : ReportSchedule → Bool) (rs : List ReportSchedule)
      → All (IsValid is_cron) rs
      → All (IsValid is_cron) (keep_if p rs)
  unfolding keep_if
  keep_if-AllValid p [] a = tt
  keep_if-AllValid p (r ∷ rs) a =
      if_both (All (IsValid is_cron)) (p r) (a.0, keep_if-AllValid p rs a.1)
        (keep_if-AllValid p rs a.1)

  changed-AllValid :
      (t : Table) (id : ℕ) (f : ReportSchedule → ReportSchedule) (found : Option ReportSchedule)
      → ((r : ReportSchedule) → IsValid is_cron r → IsValid is_cron (f r))
      → AllValid is_cron t
      → AllValid is_cron (kept t (changed t id f found))
  unfolding changed
  changed-AllValid t id f none h a = a
  changed-AllValid t id f (some r) h a = set_row-AllValid id f t.rows h a

  if_reachable :
      (reachable : Bool) (t : Table) (r : Result ScheduleError (Table × ReportSchedule))
      → AllValid is_cron t
      → AllValid is_cron (kept t r)
      → AllValid is_cron (kept t (if reachable then r else err unavailable))
  if_reachable true t r a h = h
  if_reachable false t r a h = a

  after_validation :
      (t : Table) (v : Result ScheduleError (Unit {0}))
      (r : Result ScheduleError (Table × ReportSchedule))
      → AllValid is_cron t
      → (v ≡ ok tt → AllValid is_cron (kept t r))
      → AllValid is_cron (kept t (v >>= (λ u. r)))
  after_validation t (ok u) r a h = h refl
  after_validation t (err e) r a h = a

  create-AllValid :
      (b : Bool) (t : Table) (p : CreateParams)
      → AllValid is_cron t
      → AllValid is_cron (kept t (create is_cron b t p))
  unfolding create new_row
  create-AllValid b t p a =
      if_both (λ r. AllValid is_cron (kept t r)) (is_empty (trim_space p.tenant_id)) a
        (after_validation t (validate is_cron p.type p.cron_expr) (inserted b t (new_row t p)) a
          (λ v. if_reachable b t _ a (
            All-append (IsValid is_cron) t.rows (new_row t p ∷ []) a (
              (
                (validate-ok p.type p.cron_expr v).0,
                (validate-ok p.type p.cron_expr v).1,
                schedule_format-filled p.format,
              ),
              tt,
            ))))

  update-AllValid :
      (b : Bool) (t : Table) (p : UpdateParams)
      → AllValid is_cron t
      → AllValid is_cron (kept t (update is_cron b t p))
  unfolding update updated
  update-AllValid b t p a = after_validation t (validate is_cron p.type p.cron_expr) _ a (λ v.
      if_reachable b t (changed t p.id (updated p) (find_row p.id t.rows)) a (
        changed-AllValid t p.id (updated p) (find_row p.id t.rows)
          (λ r h. (
            (validate-ok p.type p.cron_expr v).0,
            (validate-ok p.type p.cron_expr v).1,
            schedule_format-filled p.format,
          ))
          a))

  apply-AllValid : (t : Table) (o : Op) → AllValid is_cron t → AllValid is_cron (apply is_cron t o)
  unfolding apply toggle toggled delete
  apply-AllValid t (creating b p) a = create-AllValid b t p a
  apply-AllValid t (updating b p) a = update-AllValid b t p a
  apply-AllValid t (toggling b id) a =
      if_reachable b t (changed t id toggled (find_row id t.rows)) a
        (changed-AllValid t id toggled (find_row id t.rows) (λ r h. h) a)
  apply-AllValid t (deleting true id) a = keep_if-AllValid (λ r. not (r.id == id)) t.rows a
  apply-AllValid t (deleting false id) a = a

-- Whatever operations are applied, and whether or not the database answers, every schedule of a
-- table of valid schedules stays valid: the cron package accepts its expression, its type is daily,
-- weekly or monthly, and its format is not empty.
pub apply_all-AllValid :
    (is_cron : Text → Bool) (t : Table) (os : List Op)
    → AllValid is_cron t
    → AllValid is_cron (apply_all is_cron t os)
unfolding apply_all
apply_all-AllValid is_cron t [] a = a
apply_all-AllValid is_cron t (o ∷ os) a =
    apply_all-AllValid is_cron (apply is_cron t o) os (apply-AllValid is_cron t o a)
