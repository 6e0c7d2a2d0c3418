-- ===== src/ConfigHash.antt =====
-- internal/controller/config_hash.go: the checksum of configuration data that restarts pods when it
-- changes. SHA-256, printed in hexadecimal, is a parameter. A map of the code is its keys in the
-- order in which a run ranges over them, and their values; bytes and text are not told apart.
pub mod Order
use Prim.Native.Char.{code}
use mathlib.Core.List.{foldr}
use axonops_operator.Prelude.{
  ℕ, zero, suc, String, Bool, true, false, Option, some, List, [], ◌∷◌, ◌<>◌, ◌==◌, length, nat_eq,
  ltb, if◌then◌else◌,
}

pub record Data : Type 0 where
  pub keys : List String
  pub value : String → String

-- Go's `<=` on strings: by bytes, which in UTF-8 is by code points.
unfoldable pub text_leb : String → String → Bool
text_leb String.[] t = true
text_leb (String.◌∷◌ c s) String.[] = false
text_leb (String.◌∷◌ c s) (String.◌∷◌ d t) =
    let rest = text_leb s t in
    if ltb (code c) (code d) then true else if nat_eq (code c) (code d) then rest else false

unfoldable pub insert : String → List String → List String
unfolding text_leb
insert k [] = k ∷ []
insert k (x ∷ xs) = let rest = insert k xs in if text_leb k x then k ∷ x ∷ xs else x ∷ rest

-- `slices.Sort` and `sort.Strings`
unfoldable pub sort_keys : List String → List String
unfolding insert
sort_keys ks = foldr insert [] ks

-- What is written to the hash.
unfoldable pub hash_text : (String → String) → List String → String
hash_text value [] = ""
hash_text value (k ∷ ks) = k <> "=" <> value k <> "\n" <> hash_text value ks

-- `s[:n]`
unfoldable pub take_text : ℕ → String → String
take_text zero s = ""
take_text (suc n) String.[] = ""
take_text (suc n) (String.◌∷◌ c s) = String.◌∷◌ c (take_text n s)

-- `configDataHash` and `configStringDataHash`
unfoldable pub config_data_hash : (String → String) → Data → String
unfolding sort_keys hash_text take_text
config_data_hash sha256_hex d =
    if nat_eq (length d.keys) 0
    then ""
    else take_text 32 (sha256_hex (hash_text d.value (sort_keys d.keys)))

-- `mergeAnnotationsWithChecksum`, on what the maps hold for a key
unfoldable pub merge_annotations_with_checksum :
    (String → Option String) → String → String → String → Option String
merge_annotations_with_checksum user key checksum k =
    if checksum == "" then user k else if k == key then some checksum else user k
