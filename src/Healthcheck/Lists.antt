-- ===== src/Healthcheck/Lists.antt =====
-- What becomes of the entries of a list when one of them is overwritten or left out.
use axonops_operator.Prelude.{
  String, ◌≡◌, refl, ◌⊎◌, inl, inr, true, false, none, some, List, [], ◌∷◌, ◌++◌, ◌==◌, eq_iff,
  Bool-cases, if◌then◌else◌, arith,
}
use axonops_operator.Healthcheck.{healthcheck_exists, replace_entry, without_entry}

module _ {E : Type 0} (id_of : E → String) where
  -- `es'` is `es` with the first entry of the id overwritten.
  abbrev pub Overwrites : String → E → List E → List E → Type 0
  Overwrites id entry es es' =
      (front : List E) × (old : E) × (back : List E) × (es ≡ front ++ (old ∷ back))
      × (healthcheck_exists id_of front id ≡ false)
      × (id_of old ≡ id)
      × (es' ≡ front ++ (entry ∷ back))

  Overwrites-cons :
      (id : String) (entry e : E) (es es' : List E)
      → (id_of e == id) ≡ false
      → Overwrites id entry es es'
      → Overwrites id entry (e ∷ es) (e ∷ es')
  unfolding healthcheck_exists
  Overwrites-cons id entry e es es' other (front, old, back, split, before, found, result) =
      (e ∷ front, old, back, ground arith, ground arith, found, ground arith)

  pub replace_entry-cases :
      (id : String) (entry : E) (es : List E)
      → ((es' : List E) × (replace_entry id_of id entry es ≡ some es') × Overwrites id entry es es')
        ⊎ ((replace_entry id_of id entry es ≡ none) × (healthcheck_exists id_of es id ≡ false))
  unfolding replace_entry healthcheck_exists
  replace_entry-cases id entry [] = inr (refl, refl)
  replace_entry-cases id entry (e ∷ es) = elim (Bool-cases (id_of e == id)) [
    | inl same ↦
        inl (entry ∷ es, ground arith, ([], e, es, refl, refl, (eq_iff (id_of e) id).0 same, refl))
    | inr other ↦ elim (replace_entry-cases id entry es) [
      | inl (es', replaced, o) ↦
          inl (e ∷ es', ground arith, Overwrites-cons id entry e es es' other o)
      | inr (none_there, absent) ↦ inr (ground arith, ground arith)
    ]
  ]

  -- The entries with an id.
  abbrev pub having : String → List E → List E
  having id [] = []
  having id (e ∷ es) = let rest = having id es in if id_of e == id then e ∷ rest else rest

  -- No entry of the id is left, and those of other ids are as they were, in order.
  pub having-without_entry :
      (id other : String) (es : List E)
      → having other (without_entry id_of id es) ≡ (if other == id then [] else having other es)
  unfolding without_entry
  having-without_entry id other [] = ground arith
  having-without_entry id other (e ∷ es) = ground (
    arith,
    having-without_entry id other es,
    eq_iff (id_of e) id,
    eq_iff (id_of e) other,
    eq_iff other id,
  )

  -- A list with an entry of the id in it.
  pub exists-append-cons :
      (id : String) (front back : List E) (e : E)
      → id_of e ≡ id
      → healthcheck_exists id_of (front ++ (e ∷ back)) id ≡ true
  unfolding healthcheck_exists
  exists-append-cons id [] back e same = ground (arith, eq_iff (id_of e) id)
  exists-append-cons id (f ∷ front) back e same =
      ground (arith, exists-append-cons id front back e same)
