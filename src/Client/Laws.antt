-- ===== src/Client/Laws.antt =====
-- What holds of every client, however it was made.
use text.Mathlib.TextLemmas.{cons-append, nil-append, cons≢nil}
use axonops_operator.Prelude.{
  ℕ, zero, suc, ◌<◌, String, ◌≡◌, ◌≢◌, refl, sym, ◌∙◌, Bool, false, none, some, List, ◌<>◌, ◌==◌,
  eq_iff, has_code, strip_prefix, after_first, before_code, arith, inl, inr, Bool-cases,
}
use axonops_operator.Errors.{ok}
use axonops_operator.Http.{ℤ, pos, negsuc, Std}
use axonops_operator.Client.{
  Client, ClientOption, default_timeout, apply_options, default_token_type, effective_timeout,
  new_client,
}

strip_separator-none : (s : String) → has_code b'/' s ≡ false → strip_prefix "://" s ≡ none
unfolding strip_prefix has_code
strip_separator-none String.[] h = refl
strip_separator-none (String.◌∷◌ c String.[]) h = ground arith
strip_separator-none (String.◌∷◌ c (String.◌∷◌ d s)) h = ground arith

after_first-none : (s : String) → has_code b'/' s ≡ false → after_first "://" s ≡ none
unfolding after_first has_code
after_first-none String.[] h = refl
after_first-none (String.◌∷◌ c s) h =
    ground (arith, after_first-none s, strip_separator-none (String.◌∷◌ c s) h)

-- A text with no slash is its own first segment, also before a slash.
before_code_id : (s : String) → has_code b'/' s ≡ false → before_code b'/' s ≡ s
unfolding before_code has_code
before_code_id String.[] h = refl
before_code_id (String.◌∷◌ c s) h = ground (arith, before_code_id s)

before_code-slash :
    (s path : String) → has_code b'/' s ≡ false → before_code b'/' (s <> "/" <> path) ≡ s
unfolding before_code has_code
before_code-slash String.[] path h = rw (nil-append, cons-append)
before_code-slash (String.◌∷◌ c s) path h =
    rw (cons-append c s ("/" <> path)) (ground (arith, before_code-slash s path))

scheme-append :
    (rest : String)
    → "https://" <> rest
      ≡ String.◌∷◌ "h" (
          String.◌∷◌ "t" (
            String.◌∷◌ "t" (
              String.◌∷◌ "p"
                (String.◌∷◌ "s" (String.◌∷◌ ":" (String.◌∷◌ "/" (String.◌∷◌ "/" rest)))))))
scheme-append rest = rw (
  cons-append, cons-append, cons-append, cons-append, cons-append, cons-append, cons-append,
  cons-append, nil-append,
)

after_first-scheme : (rest : String) → after_first "://" ("https://" <> rest) ≡ some rest
unfolding after_first
after_first-scheme rest = rw scheme-append

scheme-ne-nil : (rest : String) → (("https://" <> rest) == "") ≡ false
scheme-ne-nil rest = elim (Bool-cases (("https://" <> rest) == "")) [
  | inl e ↦ absurd (cons≢nil (sym (scheme-append rest) ∙ (eq_iff ("https://" <> rest) "").0 e))
  | inr e ↦ e
]

-- The token type depends on the host alone: neither a scheme before it nor a path behind it changes
-- what is chosen.
pub default_token_type-url :
    (host path : String)
    → has_code b'/' host ≡ false
    → host ≢ ""
    → default_token_type ("https://" <> host <> "/" <> path) ≡ default_token_type host
unfolding default_token_type
default_token_type-url host path h given =
    rw
      (
        scheme-ne-nil (host <> "/" <> path),
        after_first-scheme (host <> "/" <> path),
        before_code-slash host path h,
        after_first-none host h,
        before_code_id host h,
      )
      (ground (arith, eq_iff host ""))

effective_timeout-pos : (d : ℤ) → (n : ℕ) × (effective_timeout d ≡ pos n) × (0 < n)
unfolding effective_timeout
effective_timeout-pos (pos zero) = (30_000_000_000, refl, omega arith)
effective_timeout-pos (pos (suc n)) = (suc n, refl, omega arith)
effective_timeout-pos (negsuc n) = (30_000_000_000, refl, omega arith)

-- A client has what its requests need: an organisation, a key, and a timeout that is positive; and
-- it has the key and the organisation that it was given.
pub new_client_valid :
    (std : Std) (host protocol org_id api_key token_type : String) (skip : Bool)
    (opts : List ClientOption) {c : Client}
    → new_client std host protocol org_id api_key token_type skip opts ≡ ok c
    → (host ≢ "")
      × (org_id ≢ "")
      × (api_key ≢ "")
      × (c.org_id ≡ org_id)
      × (c.api_key ≡ api_key)
      × ((n : ℕ) × (c.timeout ≡ pos n) × (0 < n))
unfolding new_client
new_client_valid std host protocol org_id api_key token_type skip opts {c} made =
    let o = apply_options opts (record { timeout = default_timeout; verbose = false }) in
    let (n, e, positive) = effective_timeout-pos o.timeout in
    let timeout : c.timeout ≡ effective_timeout o.timeout = ground arith in
    (
      ground (arith, eq_iff host ""),
      ground (arith, eq_iff org_id ""),
      ground (arith, eq_iff api_key ""),
      ground arith,
      ground arith,
      (n, timeout ∙ e, positive),
    )
