-- ===== src/Client/Escape.antt =====
-- `url.PathEscape`, which `p` of internal/axonops/client.go calls on every segment of a path that
-- comes from a resource or a connection.
use Prim.Native.Char.{Char, code}
use text.Mathlib.TextLemmas.{cons-append, nil-append}
use axonops_operator.Prelude.{
  ℕ, zero, suc, ◌+◌, ◌-◌, ◌/◌, ◌%◌, String, Bool, List, [], ◌∷◌, ◌≡◌, refl, ◌<>◌, leb, nat_eq,
  contains_nat, digit, has_code, false, ◌&&◌, ◌||◌, if◌then◌else◌, arith, true, Bool-cases, inl,
  inr, sym, ap, ◌∙◌,
}
use mathlib.Core.Bool.{false≢true}

hex_letter : ℕ → String
hex_letter zero = "A"
hex_letter (suc zero) = "B"
hex_letter (suc (suc zero)) = "C"
hex_letter (suc (suc (suc zero))) = "D"
hex_letter (suc (suc (suc (suc zero)))) = "E"
hex_letter _ = "F"

-- An upper-case hexadecimal digit, of a number below 16.
hex_digit : ℕ → String
unfolding digit hex_letter
hex_digit n = if leb n 9 then digit n else hex_letter (n - 10)

percent : ℕ → String
unfolding hex_digit
percent b = "%" <> hex_digit (b / 16) <> hex_digit (b % 16)

-- The bytes of a code point in UTF-8.
utf8 : ℕ → List ℕ
utf8 c =
    if leb c 0x7f
    then c ∷ []
    else if leb c 0x7ff
    then (0xc0 + c / 64) ∷ (0x80 + c % 64) ∷ []
    else if leb c 0xffff
    then (0xe0 + c / 4096) ∷ (0x80 + c / 64 % 64) ∷ (0x80 + c % 64) ∷ []
    else (0xf0 + c / 262144) ∷ (0x80 + c / 4096 % 64) ∷ (0x80 + c / 64 % 64) ∷ (0x80 + c % 64) ∷ []

percent_all : List ℕ → String
unfolding percent
percent_all [] = ""
percent_all (b ∷ bs) = percent b <> percent_all bs

-- What a path segment keeps: letters, digits, and - _ . ~ $ & + : = @
unfoldable pub kept : ℕ → Bool
kept c =
    (leb 48 c && leb c 57)
    || (leb 65 c && leb c 90)
    || (leb 97 c && leb c 122)
    || contains_nat (45 ∷ 95 ∷ 46 ∷ 126 ∷ 36 ∷ 38 ∷ 43 ∷ 58 ∷ 61 ∷ 64 ∷ []) c

-- A character and what is behind it.
escape_char : Char → String → String
unfolding percent_all utf8 kept
escape_char c rest =
    if kept (code c) then String.◌∷◌ c rest else percent_all (utf8 (code c)) <> rest

unfoldable pub path_escape : String → String
unfolding escape_char
path_escape String.[] = ""
path_escape (String.◌∷◌ c s) = escape_char c (path_escape s)

path_escape_test : path_escape "../a b/é" ≡ "..%2Fa%20b%2F%C3%A9"
unfolding path_escape
path_escape_test = refl

eq_of_nat_eq : (n k : ℕ) → nat_eq n k ≡ true → n ≡ k
eq_of_nat_eq n k h = ground arith

module _ (k : ℕ) (special : kept k ≡ false) (percent_sign : nat_eq 37 k ≡ false) where
  has_code-append : (s t : String) → has_code k (s <> t) ≡ (has_code k s || has_code k t)
  unfolding has_code
  has_code-append String.[] t = rw nil-append
  has_code-append (String.◌∷◌ c s) t = rw (cons-append c s t) (ground (arith, has_code-append s t))

  ne_of_kept : (n : ℕ) → kept n ≡ true → nat_eq n k ≡ false
  ne_of_kept n h = elim (Bool-cases (nat_eq n k)) [
    | inl e ↦ absurd (false≢true (sym special ∙ ap kept (sym (eq_of_nat_eq n k e)) ∙ h))
    | inr e ↦ e
  ]

  of_kept : (n : ℕ) → kept n ≡ true → (if nat_eq n k then true else false) ≡ false
  of_kept n h = rw (ne_of_kept n h) refl

  has_code-digit : (n : ℕ) → has_code k (digit n) ≡ false
  unfolding has_code digit kept
  has_code-digit zero = of_kept 48 refl
  has_code-digit (suc zero) = of_kept 49 refl
  has_code-digit (suc (suc zero)) = of_kept 50 refl
  has_code-digit (suc (suc (suc zero))) = of_kept 51 refl
  has_code-digit (suc (suc (suc (suc zero)))) = of_kept 52 refl
  has_code-digit (suc (suc (suc (suc (suc zero))))) = of_kept 53 refl
  has_code-digit (suc (suc (suc (suc (suc (suc zero)))))) = of_kept 54 refl
  has_code-digit (suc (suc (suc (suc (suc (suc (suc zero))))))) = of_kept 55 refl
  has_code-digit (suc (suc (suc (suc (suc (suc (suc (suc zero)))))))) = of_kept 56 refl
  has_code-digit (suc (suc (suc (suc (suc (suc (suc (suc (suc _))))))))) = of_kept 57 refl

  has_code-hex_letter : (n : ℕ) → has_code k (hex_letter n) ≡ false
  unfolding has_code hex_letter kept
  has_code-hex_letter zero = of_kept 65 refl
  has_code-hex_letter (suc zero) = of_kept 66 refl
  has_code-hex_letter (suc (suc zero)) = of_kept 67 refl
  has_code-hex_letter (suc (suc (suc zero))) = of_kept 68 refl
  has_code-hex_letter (suc (suc (suc (suc zero)))) = of_kept 69 refl
  has_code-hex_letter (suc (suc (suc (suc (suc _))))) = of_kept 70 refl

  has_code-hex_digit : (n : ℕ) → has_code k (hex_digit n) ≡ false
  unfolding hex_digit
  has_code-hex_digit n = elim (Bool-cases (leb n 9)) [
    | inl e ↦ rw e (has_code-digit n)
    | inr e ↦ rw e (has_code-hex_letter (n - 10))
  ]

  has_code-percent_sign : has_code k "%" ≡ false
  unfolding has_code
  has_code-percent_sign = rw percent_sign refl

  has_code-percent : (b : ℕ) → has_code k (percent b) ≡ false
  unfolding percent
  has_code-percent b = rw (
    has_code-append "%" (hex_digit (b / 16) <> hex_digit (b % 16)),
    has_code-percent_sign,
    has_code-append (hex_digit (b / 16)) (hex_digit (b % 16)),
    has_code-hex_digit (b / 16),
    has_code-hex_digit (b % 16),
  )

  has_code-percent_all : (bs : List ℕ) → has_code k (percent_all bs) ≡ false
  unfolding has_code percent_all
  has_code-percent_all [] = refl
  has_code-percent_all (b ∷ bs) =
      rw (has_code-append (percent b) (percent_all bs), has_code-percent b, has_code-percent_all bs)

  has_code-cons :
      (c : Char) (s : String)
      → nat_eq (code c) k ≡ false
      → has_code k s ≡ false
      → has_code k (String.◌∷◌ c s) ≡ false
  unfolding has_code
  has_code-cons c s differs rest = rw differs rest

  has_code-escape_char :
      (c : Char) (rest : String) → has_code k rest ≡ false → has_code k (escape_char c rest) ≡ false
  unfolding escape_char
  has_code-escape_char c rest h = elim (Bool-cases (kept (code c))) [
    | inl e ↦ rw e (has_code-cons c rest (ne_of_kept (code c) e) h)
    | inr e ↦ rw e (
        rw
          (has_code-append (percent_all (utf8 (code c))) rest, has_code-percent_all (utf8 (code c)))
          h)
  ]

  -- A character that a path segment does not keep, other than the percent sign, occurs in no escaped
  -- segment: no slash, question mark or number sign of a resource's field gets into a URL.
  pub has_code-path_escape : (s : String) → has_code k (path_escape s) ≡ false
  unfolding has_code path_escape
  has_code-path_escape String.[] = refl
  has_code-path_escape (String.◌∷◌ c s) =
      has_code-escape_char c (path_escape s) (has_code-path_escape s)

-- Whether a segment keeps every character of a text.
abbrev pub all_kept : String → Bool
all_kept String.[] = true
all_kept (String.◌∷◌ c s) = kept (code c) && all_kept s

both : (a b : Bool) → (a && b) ≡ true → (a ≡ true) × (b ≡ true)
both a b h = (ground arith, ground arith)

escape_char_id :
    (c : Char) (rest : String) → kept (code c) ≡ true → escape_char c rest ≡ String.◌∷◌ c rest
unfolding escape_char
escape_char_id c rest h = rw h refl

-- A segment of kept characters alone is not changed. Dots are kept, so a segment `..` stays one.
pub path_escape_id : (s : String) → all_kept s ≡ true → path_escape s ≡ s
unfolding path_escape
path_escape_id String.[] h = refl
path_escape_id (String.◌∷◌ c s) h =
    let (first, rest) = both (kept (code c)) (all_kept s) h in
    escape_char_id c (path_escape s) first ∙ ap (String.◌∷◌ c) (path_escape_id s rest)
