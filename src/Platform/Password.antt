-- ===== src/Platform/Password.antt =====
-- `generateRandomPassword` of internal/controller/axonopsplatform_controller.go. A byte of the
-- password is a character; a panic of an index out of range is an error here.
pub mod Classes
use Prim.Native.Char.{Char}
use Prim.Native.String
use axonops_operator.Prelude.{
  ℕ, zero, suc, ◌+◌, ◌-◌, String, Option, none, some, List, [], ◌∷◌, ltb, length, if◌then◌else◌,
  ◌<>◌,
}
use axonops_operator.Errors.{foreign}
use axonops_operator.Platform.Cluster.{Cluster, Step, return, throw, random_below, ◌>>=◌}

abbrev pub lowercase : String
lowercase = "abcdefghijklmnopqrstuvwxyz"

abbrev pub uppercase : String
uppercase = "ABCDEFGHIJKLMNOPQRSTUVWXYZ"

abbrev pub digits : String
digits = "0123456789"

abbrev pub special : String
special = "!@#$%^&*"

abbrev pub all_chars : String
all_chars = lowercase <> uppercase <> digits <> special

unfoldable pub chars : String → List Char
chars String.[] = []
chars (String.◌∷◌ c s) = c ∷ chars s

unfoldable pub text_of : List Char → String
text_of [] = ""
text_of (c ∷ cs) = String.◌∷◌ c (text_of cs)

unfoldable pub nth : {A : Type 0} → ℕ → List A → Option A
nth n [] = none
nth zero (x ∷ xs) = some x
nth (suc n) (x ∷ xs) = nth n xs

unfoldable pub set_nth : {A : Type 0} → ℕ → A → List A → List A
set_nth n a [] = []
set_nth zero a (x ∷ xs) = a ∷ xs
set_nth (suc n) a (x ∷ xs) = x ∷ set_nth n a xs

-- `result[i], result[j] = result[j], result[i]`
unfoldable pub swap : {A : Type 0} → ℕ → ℕ → List A → Option (List A)
unfolding nth set_nth
swap i j xs = elim (nth i xs) [
  | none ↦ none
  | some a ↦ elim (nth j xs) [ none ↦ none | some b ↦ some (set_nth i b (set_nth j a xs)) ]
]

unfoldable pub or_panic : {W A : Type 0} → Option A → Step W A
or_panic none = throw (foreign "index out of range")
or_panic (some a) = return a

abbrev pub at_least_eight : ℕ → ℕ
at_least_eight n = if ltb n 8 then 8 else n

module _ {W : Type 0} (c : Cluster W) where
  unfoldable pub pick_random : String → Step W Char
  unfolding random_below nth chars or_panic
  pick_random charset = do
    n ← random_below c (length (chars charset))
    or_panic (nth n (chars charset))

  -- The characters from the fifth on, by the number of them that are left.
  unfoldable pub fill : ℕ → Step W (List Char)
  unfolding pick_random
  fill zero = return []
  fill (suc n) = do x ← pick_random all_chars; xs ← fill n; return (x ∷ xs)

  -- The loop from `i` down to 1.
  unfoldable pub shuffle : ℕ → List Char → Step W (List Char)
  unfolding random_below swap or_panic
  shuffle zero xs = return xs
  shuffle (suc i) xs = do
    j ← random_below c (suc i + 1)
    ys ← or_panic (swap (suc i) j xs)
    shuffle i ys

  unfoldable pub generate_random_password : ℕ → Step W String
  unfolding pick_random fill shuffle text_of
  generate_random_password n = do
    lower ← pick_random lowercase
    upper ← pick_random uppercase
    digit ← pick_random digits
    other ← pick_random special
    rest ← fill (at_least_eight n - 4)
    shuffled ← shuffle (at_least_eight n - 1) (lower ∷ upper ∷ digit ∷ other ∷ rest)
    return (text_of shuffled)
