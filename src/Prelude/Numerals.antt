-- ===== src/Prelude/Numerals.antt =====
-- Decimal numerals as `strconv` and `fmt` write and read them, and `strings.Fields`.
use Prim.Native.Nat.{ℕ, zero, suc, ◌+◌, ◌-◌, ◌*◌, ◌/◌, ◌%◌, ◌<◌, ◌≤◌}
use mathlib.Core.Path.{◌≡◌}
use mathlib.Core.Bool.{true, false, ◌&&◌}
use mathlib.Core.Option.{Option, none, some}
use mathlib.Core.List.{List, [], ◌∷◌, ◌++◌, append_assoc, append-nil}
use native.Mathlib.Omega.{arith}
use agentic_demo.Prelude.Tests.{ltb, leb, ◌==◌, if◌then◌else◌}
use agentic_demo.Prelude.Lists.{All}
use agentic_demo.Prelude.Texts.{Text, is_space}
use agentic_demo.Prelude.Results.{ℤ, pos, negsuc}

unfoldable pub decimal_from : ℕ → ℕ → Text → Text
decimal_from zero n rest = rest
decimal_from (suc fuel) n rest =
    let more = decimal_from fuel (n / 10) ((b'0' + n % 10) ∷ rest) in
    if ltb n 10 then (b'0' + n) ∷ rest else more

-- `%d` of a number; a number has at most as many digits as its successor.
unfoldable pub decimal : ℕ → Text
unfolding decimal_from
decimal n = decimal_from (suc n) n []

unfoldable pub digits_value : ℕ → Text → Option ℕ
digits_value acc [] = some acc
digits_value acc (c ∷ s) =
    let rest = digits_value (acc * 10 + (c - b'0')) s in
    if leb b'0' c && leb c b'9' then rest else none

abbrev pub natural : Text → Option ℕ
unfolding digits_value
natural [] = none
natural (c ∷ s) = digits_value 0 (c ∷ s)

abbrev pub in_range : Option ℕ → Option ℤ
in_range none = none
in_range (some n) = if ltb n 0x8000000000000000 then some (pos n) else none

abbrev pub negated : Option ℕ → Option ℤ
negated none = none
negated (some zero) = some (pos 0)
negated (some (suc n)) = if ltb n 0x8000000000000000 then some (negsuc n) else none

-- `strconv.Atoi`: a sign, digits, and a value of 64 bits.
unfoldable pub atoi : Text → Option ℤ
unfolding natural
atoi [] = none
atoi (c ∷ s) =
    if c == b'-'
    then negated (natural s)
    else if c == b'+'
    then in_range (natural s)
    else in_range (natural (c ∷ s))

abbrev pub ended : Text → List Text
ended [] = []
ended (c ∷ part) = (c ∷ part) ∷ []

unfoldable pub fields_from : Text → Text → List Text
unfolding is_space
fields_from part [] = ended part
fields_from part (c ∷ s) = elim (is_space c) [
  | true ↦ ended part ++ fields_from [] s
  | false ↦ fields_from (part ++ (c ∷ [])) s
]

-- `strings.Fields`.
unfoldable pub fields : Text → List Text
unfolding fields_from
fields s = fields_from [] s

-- A text without white space.
abbrev pub NoSpace : Text → Type 0
NoSpace = All (λ c. is_space c ≡ false)

pub fields_from-word :
    (part w rest : Text) → NoSpace w → fields_from part (w ++ rest) ≡ fields_from (part ++ w) rest
unfolding fields_from
fields_from-word part [] rest h = rw (append-nil part)
fields_from-word part (c ∷ w) rest h =
    rw (fields_from, h.0)
      (rw (fields_from-word (part ++ (c ∷ [])) w rest h.1, append_assoc part (c ∷ []) w))

pub decimal-small : (n : ℕ) → n < 10 → decimal n ≡ (b'0' + n) ∷ []
unfolding decimal
decimal-small n h = let e : ltb n 10 ≡ true = ground arith in rw (e)

pub decimal-two : (n : ℕ) → 10 ≤ n → n < 100 → decimal n ≡ (b'0' + n / 10) ∷ (b'0' + n % 10) ∷ []
unfolding decimal
decimal-two zero h k = absurd (omega arith)
decimal-two (suc n) h k =
    let e : ltb (suc n) 10 ≡ false = ground arith in
    let f : ltb (suc n / 10) 10 ≡ true = ground arith in rw (e, f)

in_range-value : (m n : ℕ) → m ≡ n → n < 100 → in_range (some m) ≡ some (pos n)
in_range-value m n e h = let t : ltb n 0x8000000000000000 ≡ true = ground arith in rw e (rw t)

pub atoi-digit : (a : ℕ) → a < 10 → atoi ((b'0' + a) ∷ []) ≡ some (pos a)
unfolding atoi natural digits_value
atoi-digit a h =
    let p : leb b'0' (b'0' + a) ≡ true = ground arith in
    let q : leb (b'0' + a) b'9' ≡ true = ground arith in
    let r : (b'0' + a) == b'-' ≡ false = ground arith in
    let s : (b'0' + a) == b'+' ≡ false = ground arith in
    rw (r, s, p, q) (in_range-value (0 + (b'0' + a - b'0')) a (omega arith) (omega arith))

pub atoi-digits :
    (a b : ℕ) → a < 10 → b < 10 → atoi ((b'0' + a) ∷ (b'0' + b) ∷ []) ≡ some (pos (a * 10 + b))
unfolding atoi natural digits_value
atoi-digits a b h k =
    let p : leb b'0' (b'0' + a) ≡ true = ground arith in
    let q : leb (b'0' + a) b'9' ≡ true = ground arith in
    let p' : leb b'0' (b'0' + b) ≡ true = ground arith in
    let q' : leb (b'0' + b) b'9' ≡ true = ground arith in
    let r : (b'0' + a) == b'-' ≡ false = ground arith in
    let s : (b'0' + a) == b'+' ≡ false = ground arith in
    rw (r, s, p, q, p', q')
      (in_range-value ((0 + (b'0' + a - b'0')) * 10 + (b'0' + b - b'0')) (a * 10 + b) (omega arith)
        (omega arith))
