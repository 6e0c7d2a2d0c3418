-- ===== src/Image.antt =====
-- internal/controller/image_registry.go: the registry of a container image.
use Prim.Native.Char.{code}
use mathlib.Core.Path.{subst}
use text.Mathlib.TextLemmas.{cons-append, nil-append}
use axonops_operator.Prelude.{
  String, ◌≡◌, ◌≢◌, refl, true, false, none, some, ◌<>◌, ◌==◌, eq_iff, nat_eq, has_code,
  after_first, before_code, ◌||◌, ◌&&◌, arith, if◌then◌else◌, Option, inl, inr, Bool-cases, ap, ◌∙◌,
}

-- `strings.TrimRight(s, "/")`
unfoldable pub trim_right_slash : String → String
trim_right_slash String.[] = ""
trim_right_slash (String.◌∷◌ c s) =
    let rest = trim_right_slash s in
    if nat_eq (code c) b'/' && rest == "" then "" else String.◌∷◌ c rest

unfoldable pub replace_image_registry : String → String → String
unfolding trim_right_slash after_first before_code has_code
replace_image_registry image new_registry =
    let registry = trim_right_slash new_registry in
    let first = before_code b'/' image in
    if new_registry == "" then image else elim (after_first "/" image) [
      | none ↦ registry <> "/" <> image
      | some path ↦
          if has_code b'.' first || has_code b':' first
          then registry <> "/" <> path
          else registry <> "/" <> image
    ]

unfoldable pub resolve_image : String → String → String → String
unfolding replace_image_registry
resolve_image default_image global_registry component_override =
    if component_override == ""
    then if global_registry == ""
      then default_image
      else replace_image_registry default_image global_registry
    else component_override

after_first-slash :
    (host path : String)
    → has_code b'/' host ≡ false
    → after_first "/" (host <> "/" <> path) ≡ some path
unfolding after_first has_code
after_first-slash String.[] path h = rw (nil-append, cons-append) (rw nil-append)
after_first-slash (String.◌∷◌ c s) path h =
    rw (cons-append c s ("/" <> path)) (ground (arith, after_first-slash s path))

before_code-slash :
    (host path : String)
    → has_code b'/' host ≡ false
    → before_code b'/' (host <> "/" <> path) ≡ host
unfolding before_code has_code
before_code-slash String.[] path h = rw (nil-append, cons-append)
before_code-slash (String.◌∷◌ c s) path h =
    rw (cons-append c s ("/" <> path)) (ground (arith, before_code-slash s path))

-- Trimming leaves a text with no slash as it is.
trim_right_slash_id : (s : String) → has_code b'/' s ≡ false → trim_right_slash s ≡ s
unfolding trim_right_slash has_code
trim_right_slash_id String.[] h = refl
trim_right_slash_id (String.◌∷◌ c s) h = ground (arith, trim_right_slash_id s)

-- An image whose first segment has a dot or a colon keeps its whole path below the new registry,
-- of which the slashes at the end are dropped.
pub replace_image_registry_host :
    (host path registry : String)
    → has_code b'/' host ≡ false
    → (has_code b'.' host || has_code b':' host) ≡ true
    → registry ≢ ""
    → replace_image_registry (host <> "/" <> path) registry
      ≡ trim_right_slash registry <> "/" <> path
unfolding replace_image_registry
replace_image_registry_host host path registry no_slash looks given = ground (
  arith,
  eq_iff registry "",
  after_first-slash host path no_slash,
  before_code-slash host path no_slash,
)

-- A host is not empty.
ne-nil_of_host : (s : String) → (has_code b'.' s || has_code b':' s) ≡ true → s ≢ ""
unfolding has_code
ne-nil_of_host s h p = cc (subst (λ t. (has_code b'.' t || has_code b':' t) ≡ true) p h)

-- Whatever the image, the result is a path below the registry.
replace_shape :
    (image registry : String)
    → registry ≢ ""
    → (path : String) × (replace_image_registry image registry
        ≡ trim_right_slash registry <> "/" <> path)
unfolding replace_image_registry
replace_shape image registry h = elim (Bool-cases (registry == "")) [
  | inl e ↦ absurd (h ((eq_iff registry "").0 e))
  | inr e ↦ shape (after_first "/" image) refl e
]
  where
    shape :
        (o : Option String)
        → after_first "/" image ≡ o
        → (registry == "") ≡ false
        → (path : String) × (replace_image_registry image registry
            ≡ trim_right_slash registry <> "/" <> path)
    shape none a e = (image, ground arith)
    shape (some p) a e = (
      if has_code b'.' (before_code b'/' image) || has_code b':' (before_code b'/' image)
          then p
          else image,
      ground arith,
    )

-- Applying a registry that is a host a second time changes nothing, whatever the image.
pub replace_image_registry_twice :
    (image registry : String)
    → has_code b'/' registry ≡ false
    → (has_code b'.' registry || has_code b':' registry) ≡ true
    → replace_image_registry (replace_image_registry image registry) registry
      ≡ replace_image_registry image registry
replace_image_registry_twice image registry no_slash looks =
    let given = ne-nil_of_host registry looks in
    let (path, shape) = replace_shape image registry given in
    rw (shape, trim_right_slash_id registry no_slash)
      (replace_image_registry_host registry path registry no_slash looks given
        ∙ ap (λ r. r <> "/" <> path) (trim_right_slash_id registry no_slash))
