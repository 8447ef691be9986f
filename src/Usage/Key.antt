-- ===== src/Usage/Key.antt =====
-- The names of the usage counters: redisKey in internal/usage/redis_emitter.go and parseUsageKey,
-- splitN and indexOf in internal/usage/collector.go.
pub mod RoundTrip
use agentic_demo.Prelude.{
  ℕ, zero, suc, ◌+◌, ◌≡◌, Bool, true, false, Option, none, some, List, [], ◌∷◌, ◌++◌, Text, lit,
  length, take, drop, has_prefix, is_empty, if◌then◌else◌,
}
use mathlib.Core.Option

unfoldable pub redis_key : Text → Text → Text → Text
redis_key tenant date model = lit "usage:" ++ (tenant ++ (lit ":" ++ (date ++ (lit ":" ++ model))))

-- The first position of `substr`; `none` is the source's -1.
unfoldable pub index_of : Text → Text → Option ℕ
unfolding has_prefix
index_of [] substr = if has_prefix [] substr then some 0 else none
index_of (c ∷ s) substr =
    let rest = index_of s substr in
    if has_prefix (c ∷ s) substr then some 0 else Option.map suc rest

-- The loop of `splitN` with `rounds` rounds left.
unfoldable pub split_n_from : ℕ → Text → Text → List Text → List Text
unfolding index_of is_empty
split_n_from zero s sep result = if is_empty s then result else result ++ (s ∷ [])
split_n_from (suc rounds) s sep result = elim (index_of s sep) [
  | none ↦ result ++ (s ∷ [])
  | some idx ↦ split_n_from rounds (drop (idx + length sep) s) sep (result ++ (take idx s ∷ []))
]

-- `splitN` with one round fewer than parts.
unfoldable pub split_n : Text → Text → ℕ → List Text
unfolding split_n_from
split_n s sep zero = if is_empty s then [] else s ∷ []
split_n s sep (suc rounds) = split_n_from rounds s sep []

unfoldable pub three_parts : List Text → Option (Text × Text × Text)
three_parts (tenant ∷ date ∷ model ∷ []) = some (tenant, date, model)
three_parts _ = none

unfoldable pub parse_usage_key : Text → Option (Text × Text × Text)
unfolding three_parts split_n has_prefix
parse_usage_key key =
    if has_prefix key (lit "usage:")
    then (if is_empty (drop 6 key) then none else three_parts (split_n (drop 6 key) (lit ":") 3))
    else none
