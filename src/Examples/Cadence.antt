-- ===== src/Examples/Cadence.antt =====
-- Inputs for the schedules.
use agentic_demo.Prelude.{true, false, not, List, [], ◌∷◌, Text, lit, text_eq}
use agentic_demo.Scheduling.Service.{weekly, other_type, CreateParams, UpdateParams, Table}
use agentic_demo.Scheduling.Service.Validity.{
  Op, creating, updating, toggling, deleting, AllValid, apply_all, apply_all-AllValid,
}

abbrev no_schedules : Table
no_schedules = record { rows = []; next_id = 1 }

abbrev mondays : CreateParams
mondays = record {
  tenant_id = lit "acme";
  type = weekly;
  cron_expr = lit "0 8 * * 1";
  focus = [];
  format = [];
}

abbrev yearly : UpdateParams
yearly = record {
  id = 1;
  type = other_type (lit "yearly");
  cron_expr = lit "0 8 1 1 *";
  focus = [];
  format = [];
}

abbrev ops : List Op
ops =
    creating true mondays
    ∷ updating true yearly
    ∷ toggling true 1
    ∷ creating false mondays
    ∷ deleting true 2
    ∷ []

apply_all-AllValid_example :
    AllValid
      (λ (e : Text). not (text_eq e []))
      (apply_all (λ (e : Text). not (text_eq e [])) no_schedules ops)
apply_all-AllValid_example =
    apply_all-AllValid (λ (e : Text). not (text_eq e [])) no_schedules ops tt
