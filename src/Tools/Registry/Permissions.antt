-- ===== src/Tools/Registry/Permissions.antt =====
-- Who may call which tool under internal/tools/registry.go.
use agentic_demo.Prelude.{
  map, sym, ap, ◌∙◌, All, All-map, All-both, keep_if, keep_if-same, text_eq-ne, Result, ◌≡◌, refl,
  ◌≢◌, inl, inr, Bool, true, false, Option, some, List, [], ◌∷◌, Text, text_eq, text_eq_refl,
  eq_of_text_eq, ok, err, Bool-cases,
}
use agentic_demo.Tools.Registry.{
  Tool, ToolError, Registry, find_tool, permitted, listed, list_tools, invoke, run_tool,
  set_permission, allowed_before,
}

abbrev is_ok : Result ToolError Text → Bool
is_ok (ok r) = true
is_ok (err e) = false

-- Whether a call of a tool under a name is executed.
abbrev pub is_executed : Registry → Text → Text → Text → Bool
is_executed r tenant params name = is_ok (invoke r tenant name params)

-- The names of the map of tools are distinct.
abbrev pub DistinctNames : List (Text × Tool) → Type 0
DistinctNames [] = Unit
DistinctNames (p ∷ ps) = All (λ (q : Text × Tool). q.0 ≢ p.0) ps × DistinctNames ps

is_ok-run_tool :
    (allowed : Bool) (t : Tool) (params : Text) → is_ok (run_tool allowed (some t) params) ≡ allowed
is_ok-run_tool true t params = refl
is_ok-run_tool false t params = refl

-- The entries that come later in the map are found whatever comes before.
found_later :
    (n : Text) (t : Tool) (ts : List (Text × Tool))
    → All (λ (q : Text × Tool). q.0 ≢ n) ts
    → All (λ (q : Text × Tool). find_tool q.0 ((n, t) ∷ ts) ≡ find_tool q.0 ts) ts
unfolding find_tool
found_later n t ts h =
    All-map (λ (q : Text × Tool). q.0 ≢ n) _ ts (λ q d. rw (text_eq-ne n q.0 (λ e. d (sym e))) refl)
      h

-- Every entry is found under its name.
entries-found :
    (ts : List (Text × Tool))
    → DistinctNames ts
    → All (λ (q : Text × Tool). find_tool q.0 ts ≡ some q.1) ts
unfolding find_tool
entries-found [] d = tt
entries-found ((n, t) ∷ ts) d = (
  rw (text_eq_refl n) refl,
  All-map
      (λ (q : Text × Tool).
        (find_tool q.0 ((n, t) ∷ ts) ≡ find_tool q.0 ts) × (find_tool q.0 ts ≡ some q.1))
      _ ts (λ q p. p.0 ∙ p.1) (All-both _ _ ts (found_later n t ts d.0) (entries-found ts d.1)),
)

listed-keep_if :
    (allowed : Option (Text → Bool)) (ts : List (Text × Tool))
    → listed allowed ts
      ≡ map
          (λ (q : Text × Tool). q.1.schema)
          (keep_if (λ (q : Text × Tool). permitted allowed q.0) ts)
unfolding listed keep_if
listed-keep_if allowed [] = refl
listed-keep_if allowed ((n, t) ∷ ts) = elim (Bool-cases (permitted allowed n)) [
  | inl e ↦ rw e (ap (◌∷◌ t.schema) (listed-keep_if allowed ts))
  | inr e ↦ rw e (listed-keep_if allowed ts)
]

-- What is listed for a tenant are the schemas of exactly the tools whose calls, under the names that
-- they are registered with, are executed for it. The names in the registry are distinct.
pub list_tools-invoke :
    (r : Registry) (tenant params : Text)
    → DistinctNames r.tools
    → list_tools r tenant
      ≡ map
          (λ (q : Text × Tool). q.1.schema)
          (keep_if (λ (q : Text × Tool). is_executed r tenant params q.0) r.tools)
unfolding list_tools invoke
list_tools-invoke r tenant params d =
    listed-keep_if (r.permissions tenant) r.tools
    ∙ ap (map (λ (q : Text × Tool). q.1.schema)) (
        keep_if-same _ _ r.tools (
          All-map (λ (q : Text × Tool). find_tool q.0 r.tools ≡ some q.1) _ r.tools
            (λ q f. rw f (sym (is_ok-run_tool (permitted (r.permissions tenant) q.0) q.1 params)))
            (entries-found r.tools d)))

-- Setting a permission changes nothing for other tenants. For the tenant, it decides the tool it
-- names; and every other tool is from then on permitted only if the tenant had a permission for it
-- before, so that all are refused to a tenant that had no permissions at all.
pub set_permission-invoke :
    (r : Registry) (tenant name : Text) (allowed : Bool) (other tool params : Text)
    → other ≢ tenant
    → tool ≢ name
    → let r' = set_permission r tenant name allowed in
      (invoke r' other tool params ≡ invoke r other tool params)
      × (invoke r' tenant name params ≡ run_tool allowed (find_tool name r.tools) params)
      × (invoke r' tenant tool params
          ≡ run_tool (allowed_before (r.permissions tenant) tool) (find_tool tool r.tools) params)
unfolding set_permission invoke
set_permission-invoke r tenant name allowed other tool params h k = (
  elim (Bool-cases (text_eq other tenant)) [
    | inl e ↦ absurd (h (eq_of_text_eq _ _ e))
    | inr e ↦ rw e
  ],
  rw (text_eq_refl tenant, text_eq_refl name),
  elim (Bool-cases (text_eq tool name)) [
    | inl e ↦ absurd (k (eq_of_text_eq _ _ e))
    | inr e ↦ rw (text_eq_refl tenant, e)
  ],
)
