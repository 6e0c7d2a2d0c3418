-- ===== src/Collector/Merge.antt =====
-- What becomes of the list of log collectors when one of them is written or removed.
use axonops_operator.Prelude.{
  ◌+◌, String, ◌≡◌, refl, ap, true, List, [], ◌∷◌, ◌++◌, length, ◌==◌, eq_refl, arith,
  if◌then◌else◌,
}
use axonops_operator.Client.Collector.{LogCollector}
use axonops_operator.Collector.{
  Collector, separate, collector_entry, merge, filtered, collector_exists,
}

-- The collectors of a file.
abbrev pub named_in : String → List LogCollector → List LogCollector
named_in file [] = []
named_in file (l ∷ ls) =
    let rest = named_in file ls in if l.filename == file then l ∷ rest else rest

separate-others :
    (file : String) (ls : List LogCollector) (id : String)
    → (separate file ls id).0 ≡ filtered file ls
unfolding separate filtered
separate-others file [] id = refl
separate-others file (l ∷ ls) id =
    ground (arith, separate-others file ls (if l.filename == file then l.uuid else id))

filtered-append :
    (file : String) (ls ms : List LogCollector)
    → filtered file (ls ++ ms) ≡ filtered file ls ++ filtered file ms
unfolding filtered
filtered-append file [] ms = refl
filtered-append file (l ∷ ls) ms = ground (arith, filtered-append file ls ms)

named_in-append :
    (file : String) (ls ms : List LogCollector)
    → named_in file (ls ++ ms) ≡ named_in file ls ++ named_in file ms
named_in-append file [] ms = refl
named_in-append file (l ∷ ls) ms = ground (arith, named_in-append file ls ms)

filtered-filtered :
    (file : String) (ls : List LogCollector) → filtered file (filtered file ls) ≡ filtered file ls
unfolding filtered
filtered-filtered file [] = refl
filtered-filtered file (l ∷ ls) = ground (arith, filtered-filtered file ls)

named_in-filtered : (file : String) (ls : List LogCollector) → named_in file (filtered file ls) ≡ []
unfolding filtered
named_in-filtered file [] = refl
named_in-filtered file (l ∷ ls) = ground (arith, named_in-filtered file ls)

append-nil : (ls : List LogCollector) → ls ++ [] ≡ ls
append-nil [] = refl
append-nil (l ∷ ls) = ap (λ ms. l ∷ ms) (append-nil ls)

filtered-entry :
    (c : Collector) (id : String) → filtered c.spec.filename (collector_entry c id ∷ []) ≡ []
unfolding filtered collector_entry
filtered-entry c id = rw (eq_refl c.spec.filename)

named_in-entry :
    (c : Collector) (id : String)
    → named_in c.spec.filename (collector_entry c id ∷ []) ≡ collector_entry c id ∷ []
unfolding collector_entry
named_in-entry c id = rw (eq_refl c.spec.filename)

-- The list that is written has the collectors of the other files as they were, in order.
pub filtered-merge :
    (c : Collector) (fresh : String) (ls : List LogCollector)
    → filtered c.spec.filename (merge c fresh ls).0 ≡ filtered c.spec.filename ls
unfolding merge
filtered-merge c fresh ls = rw (
  separate-others c.spec.filename ls fresh,
  filtered-append,
  filtered-filtered,
  filtered-entry,
  append-nil,
)

-- It has one collector of the resource's file, which is the resource's entry.
pub named_in-merge :
    (c : Collector) (fresh : String) (ls : List LogCollector)
    → named_in c.spec.filename (merge c fresh ls).0 ≡ collector_entry c (merge c fresh ls).1 ∷ []
unfolding merge
named_in-merge c fresh ls =
    rw
      (separate-others c.spec.filename ls fresh, named_in-append, named_in-filtered, named_in-entry)

exists-append :
    (ls ms : List LogCollector) (id : String)
    → collector_exists ms id ≡ true
    → collector_exists (ls ++ ms) id ≡ true
unfolding collector_exists
exists-append [] ms id h = h
exists-append (l ∷ ls) ms id h = ground (arith, exists-append ls ms id h)

pub exists-merge :
    (c : Collector) (fresh : String) (ls : List LogCollector)
    → collector_exists (merge c fresh ls).0 (merge c fresh ls).1 ≡ true
unfolding merge
exists-merge c fresh ls =
    let (others, id) = separate c.spec.filename ls fresh in
    exists-append others (collector_entry c id ∷ []) id
      (unfold collector_exists collector_entry in rw (eq_refl id))

-- The id of the last collector of a list, or the given one.
abbrev pub last_uuid : List LogCollector → String → String
last_uuid [] id = id
last_uuid (l ∷ ls) id = last_uuid ls l.uuid

id-separate :
    (file : String) (ls : List LogCollector) (fresh : String)
    → (separate file ls fresh).1 ≡ last_uuid (named_in file ls) fresh
unfolding separate
id-separate file [] fresh = refl
id-separate file (l ∷ ls) fresh =
    ground (arith, id-separate file ls fresh, id-separate file ls l.uuid)

-- The id of the entry is that of the last collector that the file had, and a new one if it had none.
pub id-merge :
    (c : Collector) (fresh : String) (ls : List LogCollector)
    → (merge c fresh ls).1 ≡ last_uuid (named_in c.spec.filename ls) fresh
unfolding merge
id-merge c fresh ls = id-separate c.spec.filename ls fresh

pub length-filtered-named_in :
    (file : String) (ls : List LogCollector)
    → length (filtered file ls) + length (named_in file ls) ≡ length ls
unfolding filtered
length-filtered-named_in file [] = refl
length-filtered-named_in file (l ∷ ls) = ground (arith, length-filtered-named_in file ls)
