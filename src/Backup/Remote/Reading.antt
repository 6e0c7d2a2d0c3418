-- ===== src/Backup/Remote/Reading.antt =====
-- The configuration of the remote storage, read back line by line: `key = value`, as rclone does.
use axonops_operator.Prelude.{
  String, ◌≡◌, refl, Bool, true, false, not, List, [], ◌∷◌, ◌==◌, ◌&&◌, ◌||◌, map, arith, ap, ◌∙◌,
  eq_iff, has_code, after_first, join, if◌then◌else◌,
}
use axonops_operator.Connection.{secret_data}
use axonops_operator.ConfigHash.{insert, sort_keys}
use axonops_operator.Backup.Remote.{value_of, config_lines, format_remote_config}
use axonops_operator.Backup.Remote.Lines.{
  split_lines, read_lines, parse_config, is_word, all_lines, has_code-line, split_lines-join,
  before_code-line, after_first-line,
}

-- Every key is a word, and every value one line.
unfoldable pub is_printable : List (String × String) → Bool
unfolding has_code
is_printable [] = true
is_printable ((k, v) ∷ m) = is_word k && not (has_code 10 v) && is_printable m

abbrev mem : List String → String → Bool
mem [] k = false
mem (x ∷ xs) k = x == k || mem xs k

abbrev all_words : List String → Bool
all_words [] = true
all_words (k ∷ ks) = is_word k && all_words ks

-- The entries that the lines stand for.
abbrev entries : (String → String) → List String → List (String × String)
entries value [] = []
entries value (k ∷ ks) =
    let rest = entries value ks in if value k == "" then rest else (k, value k) ∷ rest

all_lines-config_lines :
    (value : String → String) (ks : List String)
    → all_words ks ≡ true
    → ((k : String) → has_code 10 (value k) ≡ false)
    → all_lines (config_lines value ks) ≡ true
unfolding config_lines
all_lines-config_lines value [] w h = refl
all_lines-config_lines value (k ∷ ks) w h = ground (
  arith,
  all_lines-config_lines value ks (ground arith) h,
  has_code-line k (value k) (ground arith) (h k),
)

read_lines-config_lines :
    (value : String → String) (ks : List String)
    → all_words ks ≡ true
    → read_lines (config_lines value ks) ≡ entries value ks
unfolding config_lines read_lines
read_lines-config_lines value [] w = refl
read_lines-config_lines value (k ∷ ks) w = ground (
  arith,
  read_lines-config_lines value ks (ground arith),
  before_code-line k (value k) (ground arith),
  after_first-line k (value k) (ground arith),
)

read_lines-join :
    (ls : List String)
    → all_lines ls ≡ true
    → read_lines (split_lines (join "\n" ls)) ≡ read_lines ls
unfolding read_lines split_lines join after_first
read_lines-join [] h = refl
read_lines-join (l ∷ ls) h = ap read_lines (split_lines-join l ls h)

mem-insert :
    (a : String) (ks : List String) (k : String) → mem (insert a ks) k ≡ (a == k || mem ks k)
unfolding insert
mem-insert a [] k = refl
mem-insert a (x ∷ xs) k = ground (arith, mem-insert a xs k)

mem-sort_keys : (ks : List String) (k : String) → mem (sort_keys ks) k ≡ mem ks k
unfolding sort_keys
mem-sort_keys [] k = refl
mem-sort_keys (x ∷ xs) k = ground (arith, mem-insert x (sort_keys xs) k, mem-sort_keys xs k)

all_words-insert :
    (a : String) (ks : List String) → all_words (insert a ks) ≡ (is_word a && all_words ks)
unfolding insert
all_words-insert a [] = refl
all_words-insert a (x ∷ xs) = ground (arith, all_words-insert a xs)

all_words-sort_keys : (ks : List String) → all_words (sort_keys ks) ≡ all_words ks
unfolding sort_keys
all_words-sort_keys [] = refl
all_words-sort_keys (x ∷ xs) =
    ground (arith, all_words-insert x (sort_keys xs), all_words-sort_keys xs)

abbrev keys_of : List (String × String) → List String
keys_of config = map (λ e. e.0) config

all_words-keys_of :
    (config : List (String × String))
    → is_printable config ≡ true
    → all_words (keys_of config) ≡ true
unfolding is_printable
all_words-keys_of [] h = refl
all_words-keys_of ((k, v) ∷ m) h = ground (arith, all_words-keys_of m)

has_code-value_of :
    (config : List (String × String))
    → is_printable config ≡ true
    → (k : String) → has_code 10 (value_of config k) ≡ false
unfolding is_printable secret_data has_code
has_code-value_of [] h k = refl
has_code-value_of ((x, v) ∷ m) h k = ground (arith, has_code-value_of m (ground arith) k)

value_of-missing :
    (config : List (String × String)) (k : String)
    → mem (keys_of config) k ≡ false
    → value_of config k ≡ ""
unfolding secret_data
value_of-missing [] k h = refl
value_of-missing ((x, v) ∷ m) k h = ground (arith, value_of-missing m k)

value_of-entries :
    (value : String → String) (ks : List String) (k : String)
    → value_of (entries value ks) k ≡ (if mem ks k then value k else "")
unfolding secret_data
value_of-entries value [] k = refl
value_of-entries value (x ∷ xs) k =
    ground (arith, value_of-entries value xs k, eq_iff x k, eq_iff (value x) "")

-- The text of a configuration whose keys are words and whose values are single lines, read back line
-- by line, has for every key what the configuration has for it.
pub value_of-parse_config :
    (config : List (String × String))
    → is_printable config ≡ true
    → (k : String) → value_of (parse_config (format_remote_config config)) k ≡ value_of config k
unfolding parse_config format_remote_config
value_of-parse_config config h k =
    let value = value_of config in
    let keys = sort_keys (keys_of config) in
    let words = all_words-sort_keys (keys_of config) ∙ all_words-keys_of config h in
    let lines = all_lines-config_lines value keys words (has_code-value_of config h) in
    ap (λ m. value_of m k)
      (read_lines-join (config_lines value keys) lines ∙ read_lines-config_lines value keys words)
    ∙ value_of-entries value keys k
    ∙ ground (arith, mem-sort_keys (keys_of config) k, value_of-missing config k)
