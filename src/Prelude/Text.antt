-- ===== src/Prelude/Text.antt =====
-- Go's text helpers that the program uses: `%d`, `strings.EqualFold` against ASCII constants,
-- `strings.Join` and concatenation, over the native texts.
use Prim.Native.Nat.{ℕ, zero, suc, ◌+◌, ◌/◌, ◌%◌, ◌<◌}
use native.Mathlib.Omega.{arith}
use Prim.Native.Char.{code}
use Prim.Native.String
use Prim.Native.String.{String}
use mathlib.Core.Path.{◌≡◌, refl}
use mathlib.Core.Bool.{Bool, true, false, ◌&&◌}
use mathlib.Core.Option.{Option, none, some}
use mathlib.Core.List.{List, [], ◌∷◌}
use mathlib.Core.Logic.{inl, inr}
use axonops_operator.Prelude.Tests.{leb, nat_eq, if◌then◌else◌, Bool-cases}

infixr 65 ◌<>◌
abbrev pub ◌<>◌ : String → String → String
s <> t = String.◌++◌ s t

-- The decimal digit of a number below 10.
unfoldable pub digit : ℕ → String
digit zero = "0"
digit (suc zero) = "1"
digit (suc (suc zero)) = "2"
digit (suc (suc (suc zero))) = "3"
digit (suc (suc (suc (suc zero)))) = "4"
digit (suc (suc (suc (suc (suc zero))))) = "5"
digit (suc (suc (suc (suc (suc (suc zero)))))) = "6"
digit (suc (suc (suc (suc (suc (suc (suc zero))))))) = "7"
digit (suc (suc (suc (suc (suc (suc (suc (suc zero)))))))) = "8"
digit _ = "9"

decimal_loop : ℕ → ℕ → String → String
decimal_loop zero n acc = acc
decimal_loop (suc fuel) n acc =
    let rest = decimal_loop fuel (n / 10) (digit (n % 10) <> acc) in
    if leb n 9 then digit n <> acc else rest

-- `%d` of a number that is not negative. A number has at most as many digits as itself plus one.
unfoldable pub decimal : ℕ → String
unfolding decimal_loop digit
decimal n = decimal_loop (suc n) n ""

-- The simple folding of a code point, as far as it meets ASCII: the capitals, the long s and the
-- Kelvin sign are the only code points that fold to an ASCII letter.
unfoldable pub fold_code : ℕ → ℕ
fold_code c =
    if leb 65 c && leb c 90
    then c + 32
    else if nat_eq c 0x17f
    then 115
    else if nat_eq c 0x212a
    then 107
    else c

-- `strings.EqualFold(s, t)` for a `t` of ASCII characters.
unfoldable pub equal_fold : String → String → Bool
unfolding fold_code
equal_fold String.[] String.[] = true
equal_fold String.[] (String.◌∷◌ d t) = false
equal_fold (String.◌∷◌ c s) String.[] = false
equal_fold (String.◌∷◌ c s) (String.◌∷◌ d t) =
    nat_eq (fold_code (code c)) (fold_code (code d)) && equal_fold s t

-- Whether a character of the text is among the given code points (`strings.ContainsAny`).
unfoldable pub has_code : ℕ → String → Bool
has_code k String.[] = false
has_code k (String.◌∷◌ c s) = if nat_eq (code c) k then true else has_code k s

-- The text behind a prefix.
unfoldable pub strip_prefix : String → String → Option String
strip_prefix String.[] s = some s
strip_prefix (String.◌∷◌ c p) String.[] = none
strip_prefix (String.◌∷◌ c p) (String.◌∷◌ d s) =
    let rest = strip_prefix p s in if nat_eq (code c) (code d) then rest else none

-- The text behind the first occurrence of a separator that is not empty.
unfoldable pub after_first : String → String → Option String
unfolding strip_prefix
after_first sep String.[] = none
after_first sep (String.◌∷◌ c s) = elim (strip_prefix sep (String.◌∷◌ c s)) [
  | some r ↦ some r
  | none ↦ after_first sep s
]

-- The text before the first character of a code point, or all of it.
unfoldable pub before_code : ℕ → String → String
before_code k String.[] = ""
before_code k (String.◌∷◌ c s) =
    let rest = before_code k s in if nat_eq (code c) k then "" else String.◌∷◌ c rest

-- `strings.Join`
unfoldable pub join : String → List String → String
join sep [] = ""
join sep (x ∷ []) = x
join sep (x ∷ y ∷ ys) = x <> sep <> join sep (y ∷ ys)

smaller : (n f : ℕ) → leb n 9 ≡ false → n < suc f → n / 10 < f
smaller n f e h = ground arith

-- The fuel of `decimal` is enough: any more gives the same text.
decimal_loop_enough :
    (f g n : ℕ) (acc : String) → n < f → n < g → decimal_loop f n acc ≡ decimal_loop g n acc
unfolding decimal_loop
decimal_loop_enough zero g n acc h h' = absurd (omega arith)
decimal_loop_enough (suc f) zero n acc h h' = absurd (omega arith)
decimal_loop_enough (suc f) (suc g) n acc h h' = elim (Bool-cases (leb n 9)) [
  | inl e ↦ rw e refl
  | inr e ↦ rw e (
      decimal_loop_enough f g (n / 10) (digit (n % 10) <> acc) (smaller n f e h) (smaller n g e h'))
]

-- A number has the same digits on any fuel above it.
decimal_enough : (f n : ℕ) → n < f → decimal_loop f n "" ≡ decimal n
unfolding decimal
decimal_enough f n h = decimal_loop_enough f (suc n) n "" h (omega arith)

after_first_test : after_first "://" "https://dash/x" ≡ some "dash/x"
unfolding after_first
after_first_test = refl

decimal_test : decimal 8443 ≡ "8443"
unfolding decimal
decimal_test = refl

equal_fold_test : equal_fold "Dash.AxonOps.cloud" "dash.axonops.cloud" ≡ true
unfolding equal_fold
equal_fold_test = refl
