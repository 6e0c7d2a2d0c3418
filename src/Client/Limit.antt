-- ===== src/Client/Limit.antt =====
-- `limitTransport` and `limitedBody` of internal/axonops/client.go: no response body is read past
-- `MaxResponseBodyBytes`. The body below is a parameter, a reader over a state of its own.
use axonops_operator.Prelude.{
  ℕ, zero, suc, ◌+◌, ◌-◌, ◌/◌, ◌≤◌, ◌<◌, String, ◌≡◌, ◌⊎◌, refl, Bool, false, Option, none, some,
  List, [], ◌∷◌, ◌++◌, ltb, nat_eq, ◌==◌, not, ◌&&◌, length, arith, if◌then◌else◌,
}
use axonops_operator.Errors.{Error, foreign, Result, ok, err}
use axonops_operator.Http.{ℤ, pos, negsuc}

abbrev pub max_response_body_bytes : ℕ
max_response_body_bytes = 10_485_760

-- `ErrResponseTooLarge`
abbrev pub response_too_large : Error
response_too_large = foreign "response body exceeds size limit"

-- `io.Reader`: at most as many bytes as asked for, and the error beside them.
pub record Reader (S : Type 0) : Type 0 where
  pub read : ℕ → S → List ℕ × Option Error × S
  pub length-read : (n : ℕ) (s : S) → length (read n s).0 ≤ n

pub record LimitedBody (S : Type 0) : Type 0 where
  pub rc : S
  pub left : ℕ
  pub err : Option Error

abbrev pub take : ℕ → List ℕ → List ℕ
take zero bs = []
take (suc n) [] = []
take (suc n) (b ∷ bs) = b ∷ take n bs

module _ {S : Type 0} (r : Reader S) where
  -- A buffer longer than one byte past the limit is cut.
  abbrev wanted : ℕ → ℕ → ℕ
  wanted len left = if ltb (left + 1) len then left + 1 else len

  -- What a read of the body below makes of the limit.
  account : LimitedBody S → List ℕ → Option Error → S → (List ℕ × Option Error) × LimitedBody S
  account b bytes e rc =
      if ltb b.left (length bytes)
      then (
        (take b.left bytes, some response_too_large),
        record { rc = rc; left = 0; err = some response_too_large },
      )
      else ((bytes, e), record { rc = rc; left = b.left - length bytes; err = b.err })

  -- `Read`, into a buffer of `len` bytes
  unfoldable pub read : ℕ → LimitedBody S → (List ℕ × Option Error) × LimitedBody S
  unfolding account
  read len b = elim b.err [
    | some e ↦ (([], some e), b)
    | none ↦ let (bytes, e, rc) = r.read (wanted len b.left) b.rc in account b bytes e rc
  ]

  -- A caller that reads into buffers of the given lengths, whatever errors it meets: the bytes that
  -- it got.
  unfoldable pub read_all : List ℕ → LimitedBody S → List ℕ × LimitedBody S
  read_all [] b = ([], b)
  read_all (len ∷ lens) b =
      let (got, b') = read len b in let (rest, b'') = read_all lens b' in (got.0 ++ rest, b'')

-- `http.Response`, as far as the transport reads it
pub record Answer (B : Type 0) : Type 0 where
  pub status_code : ℕ
  pub content_length : ℤ
  pub body : B

exceeds_limit : ℤ → Bool
exceeds_limit (pos n) = ltb max_response_body_bytes n
exceeds_limit (negsuc n) = false

-- `limitTransport.RoundTrip`, given what the transport below answered
unfoldable pub limit_answer :
    {S : Type 0} → String → Result (Answer S) → Result (Answer (LimitedBody S))
unfolding exceeds_limit
limit_answer method (err e) = err e
limit_answer method (ok a) =
    if nat_eq (a.status_code / 100) 2 && not (method == "HEAD") && exceeds_limit a.content_length
    then err response_too_large
    else ok (record {
      status_code = a.status_code;
      content_length = a.content_length;
      body = record { rc = a.body; left = max_response_body_bytes; err = none };
    })

-- An error response passes whatever length it declares, so that its status is still seen; and every
-- body that passes has the full limit left.
pub limit_answer_error_status :
    {S : Type 0} (method : String) (a : Answer S)
    → (a.status_code < 200) ⊎ (300 ≤ a.status_code)
    → (b : Answer (LimitedBody S)) × (limit_answer method (ok a) ≡ ok b)
      × (b.status_code ≡ a.status_code)
      × (b.body.left ≡ max_response_body_bytes)
      × (b.body.rc ≡ a.body)
unfolding limit_answer
limit_answer_error_status method a h = (
  record {
    status_code = a.status_code;
    content_length = a.content_length;
    body = record { rc = a.body; left = max_response_body_bytes; err = none };
  },
  ground arith,
  refl,
  refl,
  refl,
)

length-take : (n : ℕ) (bs : List ℕ) → n ≤ length bs → length (take n bs) ≡ n
length-take zero bs h = refl
length-take (suc n) [] h = absurd (omega arith)
length-take (suc n) (b ∷ bs) h = omega (arith, length-take n bs)

pub length-take_le : (n : ℕ) (bs : List ℕ) → length (take n bs) ≤ n
length-take_le zero bs = omega arith
length-take_le (suc n) [] = omega arith
length-take_le (suc n) (b ∷ bs) = omega (arith, length-take_le n bs)

length-append : (xs ys : List ℕ) → length (xs ++ ys) ≡ length xs + length ys
length-append [] ys = omega arith
length-append (x ∷ xs) ys = omega (arith, length-append xs ys)

module _ {S : Type 0} (r : Reader S) where
  length-read_lem :
      (len : ℕ) (b : LimitedBody S) → length (read r len b).0.0 + (read r len b).1.left ≡ b.left
  unfolding read
  length-read_lem len b = ground (arith, length-take b.left (r.read (wanted r len b.left) b.rc).0)

  -- A read that has not failed before either hands on what the body below gave, or reports that the
  -- body is too large, now and ever after; and it does so exactly when the body below gave more
  -- bytes than were left.
  pub read_cases :
      (len : ℕ) (b : LimitedBody S)
      → b.err ≡ none
      → ((read r len b).0
            ≡ ((r.read (wanted r len b.left) b.rc).0, (r.read (wanted r len b.left) b.rc).1))
          × ((read r len b).1.err ≡ none)
          × (length (r.read (wanted r len b.left) b.rc).0 ≤ b.left)
        ⊎ ((read r len b).0.1 ≡ some response_too_large)
          × ((read r len b).1.err ≡ some response_too_large)
          × (b.left < length (r.read (wanted r len b.left) b.rc).0)
  unfolding read
  read_cases len b h = ground arith

  -- However a caller reads, the bytes that it gets and the bytes that are left to it make up the
  -- limit: no sequence of reads passes the limit, and none loses count.
  pub length-read_all :
      (lens : List ℕ) (b : LimitedBody S)
      → length (read_all r lens b).0 + (read_all r lens b).1.left ≡ b.left
  unfolding read_all
  length-read_all [] b = omega arith
  length-read_all (len ∷ lens) b = omega (
    arith,
    length-read_lem len b,
    length-read_all lens (read r len b).1,
    length-append (read r len b).0.0 (read_all r lens (read r len b).1).0,
  )
