-- ===== src/Logs/Formatter.antt =====
-- `StructuredFormatter` of talisker/logs.py. Texts are code points; what Python makes of a value
-- that is no string (its `str`, its type's name, its truth) comes with the value.
pub mod Keys
pub mod Quoting
pub mod Lines
use talisker.Common.{
  ℕ, zero, ◌+◌, ◌*◌, Bool, true, false, ◌&&◌, ◌||◌, not, Option, none, some, List, [], ◌∷◌, ◌++◌,
  leb, ltb, nat_beq, if◌then◌else◌,
}
use talisker.Common.Lists.{length, take}
use talisker.Common.Text.{Text, codes}
use talisker.Context.Stack.{Outcome, returned, raised}
use talisker.Logs.Strings.{newline, quote, backslash, strip, replace, has, first_line}

pub data DecodeError : Type 0 where
  decode_error : DecodeError

-- A key of the structured data. Bytes come as what they decode to, `none` if they do not.
pub data Key : Type 0 where
  str_key : Text → Key
  bytes_key : Option Text → Key
  bool_key : Bool → Key
  number_key : Text → Key
  other_key : Key

-- A value other than a dict at the top level. A number comes with its truth and its `str`, any
-- other object with its truth and the `str` of its type.
pub data Leaf : Type 0 where
  bool : Bool → Leaf
  number : Bool → Text → Leaf
  str : Text → Leaf
  bytes : Option Text → Leaf
  other : Bool → Text → Leaf

pub data Value : Type 0 where
  leaf : Leaf → Value
  dict : List (Key × Leaf) → Value

abbrev pub max_msg_size : ℕ
max_msg_size = 1024 * 10

abbrev pub max_key_size : ℕ
max_key_size = 256

abbrev pub max_value_size : ℕ
max_value_size = 1024

abbrev pub truncated_mark : Text
truncated_mark = codes "..."

abbrev pub truncated_key : Text
truncated_key = codes "___"

unfoldable pub clean_message : Text → Text
unfolding replace
clean_message s = replace newline (backslash ∷ b'n' ∷ []) (replace quote (backslash ∷ quote ∷ []) s)

-- The last two steps of `safe_string`: escape the quotes, and mark a text that was cut.
unfoldable pub escape_and_mark : Text → Bool → Option Text → Text
escape_and_mark s truncated truncate_str =
    let escaped = replace quote (backslash ∷ quote ∷ []) s in
    elim truncate_str [
      | none ↦ escaped
      | some mark ↦ if truncated then escaped ++ mark else escaped
    ]

unfoldable pub safe_string : Text → ℕ → Option Text → Text
unfolding escape_and_mark
safe_string s max truncate_str =
    let stripped = strip s in
    let line = first_line stripped in
    escape_and_mark (take max line) (has newline stripped || ltb max (length line)) truncate_str

unfoldable pub logfmt_key : Key → Outcome (Option Text) DecodeError
logfmt_key (str_key k) =
    let clean = replace b'=' (codes "_") (replace b'.' (codes "_") (replace b' ' (codes "_") k)) in
    returned (some (safe_string clean max_key_size (some truncated_key)))
logfmt_key (bytes_key none) = raised decode_error
logfmt_key (bytes_key (some k)) =
    let clean = replace b'=' (codes "_") (replace b'.' (codes "_") (replace b' ' (codes "_") k)) in
    returned (some (safe_string clean max_key_size (some truncated_key)))
logfmt_key (bool_key b) = returned none
logfmt_key (number_key k) = returned (some k)
logfmt_key other_key = returned none

-- `c in ' ="\\'`
unfoldable pub is_special : ℕ → Bool
is_special c = nat_beq c b' ' || nat_beq c b'=' || nat_beq c quote || nat_beq c backslash

-- `c in '0123456789.'`
unfoldable pub is_numeric : ℕ → Bool
is_numeric c = (leb b'0' c && leb c b'9') || nat_beq c b'.'

-- The loop of `string_needs_quoting`, over `all_numeric` and `decimal_count`.
unfoldable pub needs_quoting_from : Text → Bool → ℕ → Bool
unfolding is_special is_numeric
needs_quoting_from [] all_numeric decimal_count = all_numeric && leb decimal_count 1
needs_quoting_from (c ∷ v) all_numeric decimal_count =
    let rest =
      needs_quoting_from v (all_numeric && is_numeric c)
        (if is_numeric c && nat_beq c b'.' then decimal_count + 1 else decimal_count) in
    if is_special c then true else rest

unfoldable pub string_needs_quoting : Text → Bool
unfolding needs_quoting_from
string_needs_quoting v = needs_quoting_from v true 0

unfoldable pub logfmt_string : Text → Text
logfmt_string s =
    let v = safe_string s max_value_size (some truncated_mark) in
    if string_needs_quoting v then quote ∷ (v ++ quote ∷ []) else v

unfoldable pub logfmt_value : Leaf → Outcome Text DecodeError
logfmt_value (str s) = returned (logfmt_string s)
logfmt_value (bytes none) = raised decode_error
logfmt_value (bytes (some s)) = returned (logfmt_string s)
logfmt_value (bool true) = returned (codes "true")
logfmt_value (bool false) = returned (codes "false")
logfmt_value (number _ text) = returned text
logfmt_value (other _ type_text) = returned (quote ∷ (type_text ++ quote ∷ []))

abbrev pub nonempty : Text → Bool
nonempty [] = false
nonempty (c ∷ s) = true

-- `v is not False and not v`
unfoldable pub is_skipped : Value → Bool
is_skipped (leaf (bool b)) = false
is_skipped (leaf (number truth _)) = not truth
is_skipped (leaf (str s)) = not (nonempty s)
is_skipped (leaf (bytes none)) = false
is_skipped (leaf (bytes (some s))) = not (nonempty s)
is_skipped (leaf (other truth _)) = not truth
is_skipped (dict []) = true
is_skipped (dict (kv ∷ items)) = false

-- What an item of the structured data gives: the atoms that are yielded, and the keys that are
-- reported as not parseable.
pub record Atoms : Type 0 where
  pub atoms : List (Text × Text)
  pub key_errors : List Key

abbrev pub append : Atoms → Atoms → Atoms
append a b = record { atoms = a.atoms ++ b.atoms; key_errors = a.key_errors ++ b.key_errors }

abbrev pub atom : Text → Text → Atoms
atom k v = record { atoms = (k, v) ∷ []; key_errors = [] }

abbrev pub key_error : Key → Atoms
key_error k = record { atoms = []; key_errors = k ∷ [] }

abbrev pub unknown_value : Text
unknown_value = codes "\"???\""

abbrev pub no_atoms : Atoms
no_atoms = record { atoms = []; key_errors = [] }

-- One round over a nested dict: from the formatted subkey and value, and what later rounds yield.
unfoldable pub dict_round :
    Text → Key → Outcome (Option Text) DecodeError → Outcome Text DecodeError → Atoms → Atoms
dict_round key k₂ (raised _) value rest = atom key unknown_value
dict_round key k₂ (returned none) value rest = append (key_error k₂) rest
dict_round key k₂ (returned (some subkey)) (raised _) rest = atom key unknown_value
dict_round key k₂ (returned (some subkey)) (returned v) rest =
    append (atom (key ++ (codes "_" ++ subkey)) v) rest

-- The loop over the items of a nested dict; an exception ends it with `key="???"`.
unfoldable pub dict_atoms : Text → List (Key × Leaf) → Atoms
dict_atoms key [] = no_atoms
dict_atoms key ((k₂, v₂) ∷ items) =
    dict_round key k₂ (logfmt_key k₂) (logfmt_value v₂) (dict_atoms key items)

unfoldable pub leaf_atoms : Text → Outcome Text DecodeError → Atoms
leaf_atoms key (raised _) = atom key unknown_value
leaf_atoms key (returned text) = atom key text

-- A round of `logfmt_atoms` after the key was formatted, with its `except`.
unfoldable pub keyed_atoms : Key → Outcome (Option Text) DecodeError → Value → Atoms
keyed_atoms k (raised _) v = key_error k
keyed_atoms k (returned none) v = key_error k
keyed_atoms k (returned (some key)) (dict items) = dict_atoms key items
keyed_atoms k (returned (some key)) (leaf value) = leaf_atoms key (logfmt_value value)

unfoldable pub item_atoms : Key → Value → Atoms
item_atoms k v = if is_skipped v then no_atoms else keyed_atoms k (logfmt_key k) v

unfoldable pub logfmt_atoms : List (Key × Value) → Atoms
logfmt_atoms [] = no_atoms
logfmt_atoms ((k, v) ∷ structured) = append (item_atoms k v) (logfmt_atoms structured)

-- `" ".join('{}={}'.format(k, v) …)`
unfoldable pub join_atoms : List (Text × Text) → Text
join_atoms [] = []
join_atoms ((k, v) ∷ []) = k ++ (codes "=" ++ v)
join_atoms ((k, v) ∷ atom' ∷ atoms) =
    (k ++ (codes "=" ++ v)) ++ (codes " " ++ join_atoms (atom' ∷ atoms))

unfoldable pub logfmt : List (Key × Value) → Text
logfmt structured = join_atoms (logfmt_atoms structured).atoms
