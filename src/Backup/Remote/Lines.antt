-- ===== src/Backup/Remote/Lines.antt =====
-- Texts of lines `key = value`: how they are read, and that they are read as they were put together.
use Prim.Native.Char.{Char, code}
use text.Mathlib.TextLemmas.{nil-append, cons-append}
use axonops_operator.Prelude.{
  String, ◌≡◌, refl, Bool, true, false, not, none, some, List, [], ◌∷◌, ◌<>◌, ◌&&◌, ◌||◌, nat_eq,
  arith, ap, ◌∙◌, has_code, after_first, before_code, strip_prefix, join, if◌then◌else◌,
}

-- The character at the start of the first line.
abbrev pub put_first : Char → List String → List String
put_first c [] = String.◌∷◌ c "" ∷ []
put_first c (l ∷ ls) = String.◌∷◌ c l ∷ ls

unfoldable pub split_lines : String → List String
split_lines String.[] = "" ∷ []
split_lines (String.◌∷◌ c s) =
    let rest = split_lines s in if nat_eq (code c) 10 then "" ∷ rest else put_first c rest

-- The lines that have a key and a value.
unfoldable pub read_lines : List String → List (String × String)
read_lines [] = []
read_lines (l ∷ ls) =
    let rest = read_lines ls in
    elim (after_first " = " l) [ none ↦ rest | some v ↦ (before_code 32 l, v) ∷ rest ]

unfoldable pub parse_config : String → List (String × String)
unfolding split_lines read_lines
parse_config text = read_lines (split_lines text)

-- No blank and no end of line.
abbrev pub is_word : String → Bool
is_word k = not (has_code 32 k) && not (has_code 10 k)

abbrev pub all_lines : List String → Bool
all_lines [] = true
all_lines (l ∷ ls) = not (has_code 10 l) && all_lines ls

newline-append : (t : String) → "\n" <> t ≡ String.◌∷◌ "\n" t
newline-append t = cons-append "\n" "" t ∙ ap (String.◌∷◌ "\n") (nil-append t)

separator-append : (t : String) → " = " <> t ≡ String.◌∷◌ " " (String.◌∷◌ "=" (String.◌∷◌ " " t))
separator-append t =
    cons-append " " "= " t
    ∙ ap (String.◌∷◌ " ") (
        cons-append "=" " " t
        ∙ ap (String.◌∷◌ "=") (cons-append " " "" t ∙ ap (String.◌∷◌ " ") (nil-append t)))

pub has_code-append : (n : _) (s t : String) → has_code n (s <> t) ≡ (has_code n s || has_code n t)
unfolding has_code
has_code-append n String.[] t = rw (nil-append t) refl
has_code-append n (String.◌∷◌ c s) t =
    rw (cons-append c s t) (ground (arith, has_code-append n s t))

pub split_lines_one : (l : String) → has_code 10 l ≡ false → split_lines l ≡ l ∷ []
unfolding has_code split_lines
split_lines_one String.[] h = refl
split_lines_one (String.◌∷◌ c s) h = ground (arith, split_lines_one s)

split_lines-append :
    (l rest : String)
    → has_code 10 l ≡ false
    → split_lines (l <> "\n" <> rest) ≡ l ∷ split_lines rest
unfolding has_code split_lines
split_lines-append String.[] rest h = rw (nil-append ("\n" <> rest), newline-append rest) refl
split_lines-append (String.◌∷◌ c s) rest h =
    rw (cons-append c s ("\n" <> rest)) (ground (arith, split_lines-append s rest))

pub split_lines-join :
    (l : String) (ls : List String)
    → all_lines (l ∷ ls) ≡ true
    → split_lines (join "\n" (l ∷ ls)) ≡ l ∷ ls
unfolding join
split_lines-join l [] h = split_lines_one l (ground arith)
split_lines-join l (m ∷ ls) h =
    split_lines-append l (join "\n" (m ∷ ls)) (ground arith)
    ∙ ap (λ ms. l ∷ ms) (split_lines-join m ls (ground arith))

pub before_code-line : (k v : String) → has_code 32 k ≡ false → before_code 32 (k <> " = " <> v) ≡ k
unfolding has_code before_code
before_code-line String.[] v h = rw (nil-append (" = " <> v), separator-append v) refl
before_code-line (String.◌∷◌ c k) v h =
    rw (cons-append c k (" = " <> v)) (ground (arith, before_code-line k v))

pub after_first-line :
    (k v : String) → has_code 32 k ≡ false → after_first " = " (k <> " = " <> v) ≡ some v
unfolding has_code after_first strip_prefix
after_first-line String.[] v h = rw (nil-append (" = " <> v), separator-append v) refl
after_first-line (String.◌∷◌ c k) v h =
    rw (cons-append c k (" = " <> v)) (ground (arith, after_first-line k v))

pub has_code-line :
    (k v : String)
    → is_word k ≡ true
    → has_code 10 v ≡ false
    → has_code 10 (k <> " = " <> v) ≡ false
has_code-line k v w h = ground (arith, has_code-append 10 k (" = " <> v), separator v)
  where
    separator : (t : String) → has_code 10 (" = " <> t) ≡ has_code 10 t
    separator t = has_code-append 10 " = " t ∙ (unfold has_code in refl)
