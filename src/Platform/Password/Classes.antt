-- ===== src/Platform/Password/Classes.antt =====
-- What a generated password holds: characters of each class, whatever the shuffle does with them.
use Prim.Native.Char.{Char, code}
use axonops_operator.Prelude.{
  ℕ, zero, suc, ◌+◌, ◌-◌, ◌≤◌, ◌<◌, String, ◌≡◌, refl, Bool, true, some, List, [], ◌∷◌, length,
  arith, if◌then◌else◌, has_code, ◌||◌,
}
use axonops_operator.Errors.{ok}
use axonops_operator.Http.{Run}
use axonops_operator.Platform.Cluster.{Cluster, Write, random_below}
use axonops_operator.Platform.Password.{
  lowercase, uppercase, digits, special, all_chars, chars, text_of, nth, set_nth, swap, pick_random,
  fill, shuffle, at_least_eight, generate_random_password,
}

-- `rand.Int` answers, with a number below its bound.
abbrev pub IsRandom : {W : Type 0} → Cluster W → Type 0
IsRandom {W} c = (n : ℕ) (w : W) → 0 < n → (r : ℕ) × ((c.random_below n w).0 ≡ ok r) × (r < n)

abbrev one_if : Bool → ℕ
one_if b = if b then 1 else 0

-- How many of the characters are in a class.
unfoldable pub count_in : String → List Char → ℕ
unfolding has_code
count_in charset [] = 0
count_in charset (c ∷ cs) = one_if (has_code (code c) charset) + count_in charset cs

nth-below : {A : Type 0} (i : ℕ) (xs : List A) → i < length xs → (x : A) × (nth i xs ≡ some x)
unfolding nth
nth-below i [] h = absurd (omega arith)
nth-below zero (x ∷ xs) h = (x, refl)
nth-below (suc i) (x ∷ xs) h = nth-below i xs (omega arith)

length-set_nth : {A : Type 0} (i : ℕ) (a : A) (xs : List A) → length (set_nth i a xs) ≡ length xs
unfolding set_nth
length-set_nth i a [] = refl
length-set_nth zero a (x ∷ xs) = refl
length-set_nth (suc i) a (x ∷ xs) = omega (arith, length-set_nth i a xs)

count-set_nth :
    (charset : String) (i : ℕ) (v x : Char) (xs : List Char)
    → nth i xs ≡ some x
    → count_in charset (set_nth i v xs) + one_if (has_code (code x) charset)
      ≡ count_in charset xs + one_if (has_code (code v) charset)
unfolding count_in set_nth nth
count-set_nth charset i v x [] h = absurd (cc)
count-set_nth charset zero v x (y ∷ ys) h = ground arith
count-set_nth charset (suc i) v x (y ∷ ys) h = omega (arith, count-set_nth charset i v x ys h)

-- A place that held `a` or is overwritten by `a` holds `a`.
nth-set_nth :
    {A : Type 0} (i j : ℕ) (a : A) (xs : List A)
    → nth i xs ≡ some a
    → nth i (set_nth j a xs) ≡ some a
unfolding nth set_nth
nth-set_nth i j a [] h = h
nth-set_nth zero zero a (x ∷ xs) h = refl
nth-set_nth zero (suc j) a (x ∷ xs) h = h
nth-set_nth (suc i) zero a (x ∷ xs) h = h
nth-set_nth (suc i) (suc j) a (x ∷ xs) h = nth-set_nth i j a xs h

-- A swap within the list keeps its length and the count of every class.
swap_keeps :
    (i j : ℕ) (xs : List Char)
    → i < length xs
    → j < length xs
    → (ys : List Char) × (swap i j xs ≡ some ys)
      × (length ys ≡ length xs)
      × ((charset : String) → count_in charset ys ≡ count_in charset xs)
unfolding swap
swap_keeps i j xs hi hj =
    let (a, ea) = nth-below i xs hi in
    let (b, eb) = nth-below j xs hj in
    (
      set_nth i b (set_nth j a xs),
      ground arith,
      omega (arith, length-set_nth i b (set_nth j a xs), length-set_nth j a xs),
      λ charset. omega (
        arith,
        count-set_nth charset i b a (set_nth j a xs) (nth-set_nth i j a xs ea),
        count-set_nth charset j a b xs eb,
      ),
    )

nth-in :
    (i : ℕ) (charset : String) (x : Char)
    → nth i (chars charset) ≡ some x
    → has_code (code x) charset ≡ true
unfolding nth chars has_code
nth-in i String.[] x h = absurd (cc)
nth-in zero (String.◌∷◌ c s) x h = ground arith
nth-in (suc i) (String.◌∷◌ c s) x h = ground (arith, nth-in i s x h)

count_in_prefix :
    (charset : String) (a b d e : Char) (xs : List Char)
    → count_in charset (a ∷ b ∷ d ∷ e ∷ xs)
      ≡ one_if (has_code (code a) charset)
        + (one_if (has_code (code b) charset)
            + (one_if (has_code (code d) charset)
                + (one_if (has_code (code e) charset) + count_in charset xs)))
unfolding count_in
count_in_prefix charset a b d e xs = refl

-- One of the first four characters in a class makes its count positive.
first_in :
    (charset : String) (a b d e : Char) (xs : List Char)
    → (has_code (code a) charset
        || has_code (code b) charset
        || has_code (code d) charset
        || has_code (code e) charset)
      ≡ true
    → 1 ≤ count_in charset (a ∷ b ∷ d ∷ e ∷ xs)
first_in charset a b d e xs h = ground (arith, count_in_prefix charset a b d e xs)

nonempty_all : 0 < length (chars all_chars)
unfolding chars
nonempty_all = omega arith

nonempty_lowercase : 0 < length (chars lowercase)
unfolding chars
nonempty_lowercase = omega arith

nonempty_uppercase : 0 < length (chars uppercase)
unfolding chars
nonempty_uppercase = omega arith

nonempty_digits : 0 < length (chars digits)
unfolding chars
nonempty_digits = omega arith

nonempty_special : 0 < length (chars special)
unfolding chars
nonempty_special = omega arith

module _ {W : Type 0} (c : Cluster W) (random : IsRandom c) where
  pick_random-in :
      (charset : String) (s : Run W Write)
      → 0 < length (chars charset)
      → (x : Char) × ((pick_random c charset s).0 ≡ ok x) × (has_code (code x) charset ≡ true)
  unfolding pick_random
  pick_random-in charset s h =
      let (n, answer, below) = random (length (chars charset)) s.world h in
      let (x, at) = nth-below n (chars charset) below in (x, ground arith, nth-in n charset x at)

  fill-length :
      (n : ℕ) (s : Run W Write) → (xs : List Char) × ((fill c n s).0 ≡ ok xs) × (length xs ≡ n)
  unfolding fill
  fill-length zero s = ([], refl, refl)
  fill-length (suc n) s =
      let (x, picked, _) = pick_random-in all_chars s nonempty_all in
      let (xs, filled, len) = fill-length n (pick_random c all_chars s).1 in
      (x ∷ xs, ground arith, omega (arith, len))

  shuffle_keeps :
      (i : ℕ) (xs : List Char) (s : Run W Write)
      → i < length xs
      → (ys : List Char) × ((shuffle c i xs s).0 ≡ ok ys)
        × (length ys ≡ length xs)
        × ((charset : String) → count_in charset ys ≡ count_in charset xs)
  unfolding shuffle random_below
  shuffle_keeps zero xs s h = (xs, refl, refl, λ charset. refl)
  shuffle_keeps (suc i) xs s h =
      let (j, answer, below) = random (suc i + 1) s.world (omega arith) in
      let (ys, swapped, len, same) = swap_keeps (suc i) j xs h (omega arith) in
      let (zs, shuffled, len', same') =
        shuffle_keeps i ys (random_below c (suc i + 1) s).1 (omega arith) in
      (
        zs,
        ground arith,
        omega (arith, len, len'),
        λ charset. omega (arith, same charset, same' charset),
      )

  -- With a source of randomness that answers, a password is always generated: it has the length
  -- asked for, or 8 characters where that is less, and at least one of them is lowercase, one
  -- uppercase, one a digit and one special.
  pub generate_random_password_classes :
      (n : ℕ) (s : Run W Write)
      → (cs : List Char) × ((generate_random_password c n s).0 ≡ ok (text_of cs))
        × (length cs ≡ at_least_eight n)
        × (1 ≤ count_in lowercase cs)
        × (1 ≤ count_in uppercase cs)
        × (1 ≤ count_in digits cs)
        × (1 ≤ count_in special cs)
  unfolding generate_random_password
  generate_random_password_classes n s =
      let s1 = (pick_random c lowercase s).1 in
      let s2 = (pick_random c uppercase s1).1 in
      let s3 = (pick_random c digits s2).1 in
      let s4 = (pick_random c special s3).1 in
      let (a, pa, ia) = pick_random-in lowercase s nonempty_lowercase in
      let (b, pb, ib) = pick_random-in uppercase s1 nonempty_uppercase in
      let (d, pd, id) = pick_random-in digits s2 nonempty_digits in
      let (e, pe, ie) = pick_random-in special s3 nonempty_special in
      let (xs, filled, len) = fill-length (at_least_eight n - 4) s4 in
      let (ys, shuffled, len', same) =
        shuffle_keeps (at_least_eight n - 1) (a ∷ b ∷ d ∷ e ∷ xs)
          (fill c (at_least_eight n - 4) s4).1 (ground arith) in
      (
        ys,
        ground arith,
        ground arith,
        omega (arith, same lowercase, first_in lowercase a b d e xs (ground arith)),
        omega (arith, same uppercase, first_in uppercase a b d e xs (ground arith)),
        omega (arith, same digits, first_in digits a b d e xs (ground arith)),
        omega (arith, same special, first_in special a b d e xs (ground arith)),
      )
