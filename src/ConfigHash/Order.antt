-- ===== src/ConfigHash/Order.antt =====
-- The checksum does not depend on the order of the map.
use mathlib.Core.Bool.{false≢true}
use mathlib.Core.HLevel.{hedberg}
use mathlib.Core.List.{foldr, List-discrete, Perm}
use mathlib.Core.List.Perm.{foldr-eq}
use text.Mathlib.TextEquality.{Char-path}
use axonops_operator.Prelude.{
  String, Bool, ◌≡◌, ◌⊎◌, inl, inr, refl, ap₂, ◌∙◌, sym, true, false, List, [], ◌∷◌, ◌==◌, eq_iff,
  length, nat_eq, arith, Bool-cases,
}
use axonops_operator.ConfigHash.{text_leb, insert, sort_keys, config_data_hash}

text_leb-total : (s t : String) → (text_leb s t ≡ true) ⊎ (text_leb t s ≡ true)
unfolding text_leb
text_leb-total String.[] t = inl refl
text_leb-total (String.◌∷◌ c s) String.[] = inr refl
text_leb-total (String.◌∷◌ c s) (String.◌∷◌ d t) = ground (arith, text_leb-total s t)

text_leb-antisym : (s t : String) → text_leb s t ≡ true → text_leb t s ≡ true → s ≡ t
unfolding text_leb
text_leb-antisym String.[] String.[] h h' = refl
text_leb-antisym String.[] (String.◌∷◌ d t) h h' = absurd (ground arith)
text_leb-antisym (String.◌∷◌ c s) String.[] h h' = absurd (ground arith)
text_leb-antisym (String.◌∷◌ c s) (String.◌∷◌ d t) h h' =
    ap₂ String.◌∷◌ (Char-path c d (ground arith))
      (text_leb-antisym s t (ground arith) (ground arith))

text_leb_trans : (s t u : String) → text_leb s t ≡ true → text_leb t u ≡ true → text_leb s u ≡ true
unfolding text_leb
text_leb_trans String.[] t u h h' = refl
text_leb_trans (String.◌∷◌ c s) String.[] u h h' = absurd (ground arith)
text_leb_trans (String.◌∷◌ c s) (String.◌∷◌ d t) String.[] h h' = absurd (ground arith)
text_leb_trans (String.◌∷◌ c s) (String.◌∷◌ d t) (String.◌∷◌ e u) h h' =
    ground (arith, text_leb_trans s t u)

insert-insert : (a b : String) (xs : List String) → insert a (insert b xs) ≡ insert b (insert a xs)
unfolding insert
insert-insert a b [] = ground (arith, text_leb-total a b, text_leb-antisym a b)
insert-insert a b (x ∷ xs) = ground (
  arith,
  insert-insert a b xs,
  text_leb-total a b,
  text_leb-antisym a b,
  text_leb-total a x,
  text_leb-total b x,
  text_leb_trans a b x,
  text_leb_trans b a x,
)

String-discrete : Discrete String
String-discrete s t = elim (Bool-cases (s == t)) [
  | inl e ↦ yes ((eq_iff s t).0 e)
  | inr e ↦ no (λ p. false≢true (sym e ∙ (eq_iff s t).1 p))
]

sort_keys-Perm : {ks ls : List String} → Perm ks ls → sort_keys ks ≡ sort_keys ls
unfolding sort_keys
sort_keys-Perm p = foldr-eq (hedberg (List-discrete String-discrete)) insert insert-insert p []

empty-foldr : (ks : List String) → nat_eq (length ks) 0 ≡ foldr {A = String} (λ _ _. false) true ks
empty-foldr [] = refl
empty-foldr (k ∷ ks) = ground arith

Bool-discrete : Discrete Bool
Bool-discrete = hlevel

empty-Perm : {ks ls : List String} → Perm ks ls → nat_eq (length ks) 0 ≡ nat_eq (length ls) 0
empty-Perm {ks} {ls} p =
    empty-foldr ks
    ∙ foldr-eq (hedberg Bool-discrete) (λ _ _. false) (λ a b x. refl) p true
    ∙ sym (empty-foldr ls)

-- The checksum of data does not depend on the order in which a run ranges over the map.
pub config_data_hash-Perm :
    (sha256_hex value : String → String) {ks ls : List String}
    → Perm ks ls
    → config_data_hash sha256_hex (record { keys = ks; value = value })
      ≡ config_data_hash sha256_hex (record { keys = ls; value = value })
unfolding config_data_hash
config_data_hash-Perm sha256_hex value {ks} {ls} p = rw (sort_keys-Perm p, empty-Perm p) refl
