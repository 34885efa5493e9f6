-- ===== src/Logs/Formatter/Lines.antt =====
-- The structured data of a record stays on one line.
use talisker.Common.{
  true, false, Option, none, some, List, [], ◌∷◌, ◌++◌, ◌≢◌, arith, Bool-cases, inl, inr,
}
use talisker.Common.Lists.{All, All-append}
use talisker.Common.Text.{Text, codes}
use talisker.Context.Stack.{Outcome, returned, raised}
use talisker.Logs.Strings.{newline, quote, backslash, Lacks, replace, Lacks-replace_self}
use talisker.Logs.Formatter.{
  DecodeError, Key, str_key, bytes_key, bool_key, number_key, other_key, Leaf, bool, number, str,
  bytes, other, Value, leaf, dict, Atoms, max_value_size, truncated_mark, safe_string,
  clean_message, logfmt_key, string_needs_quoting, logfmt_string, logfmt_value, dict_atoms,
  dict_round, leaf_atoms, keyed_atoms, item_atoms, is_skipped, logfmt_atoms, join_atoms, logfmt,
}
use talisker.Logs.Formatter.Keys.{newline-safe_string}

-- What Python makes of a number or of a type has no newline.
abbrev pub IsPlainKey : Key → Type 0
IsPlainKey (number_key text) = Lacks newline text
IsPlainKey _ = Unit {0}

abbrev pub IsPlainLeaf : Leaf → Type 0
IsPlainLeaf (number _ text) = Lacks newline text
IsPlainLeaf (other _ text) = Lacks newline text
IsPlainLeaf _ = Unit {0}

abbrev pub IsPlainItem : Key × Leaf → Type 0
IsPlainItem (k, v) = IsPlainKey k × IsPlainLeaf v

abbrev pub IsPlainValue : Value → Type 0
IsPlainValue (leaf v) = IsPlainLeaf v
IsPlainValue (dict items) = All IsPlainItem items

abbrev pub IsPlainEntry : Key × Value → Type 0
IsPlainEntry (k, v) = IsPlainKey k × IsPlainValue v

abbrev OneLine : Text × Text → Type 0
OneLine (k, v) = Lacks newline k × Lacks newline v

-- A cleaned message is one line.
pub newline-clean_message : (s : Text) → Lacks newline (clean_message s)
unfolding clean_message
newline-clean_message s =
    Lacks-replace_self newline (backslash ∷ b'n' ∷ []) (replace quote (backslash ∷ quote ∷ []) s)
      (omega arith)

newline-logfmt_string : (s : Text) → Lacks newline (logfmt_string s)
unfolding logfmt_string
newline-logfmt_string s =
    let v = safe_string s max_value_size (some truncated_mark) in
    let h : Lacks newline v = newline-safe_string s max_value_size truncated_mark (omega arith) in
    elim (Bool-cases (string_needs_quoting v)) [
      | inl e ↦ rw e (omega arith, All-append (λ c. c ≢ newline) v _ h (omega arith))
      | inr e ↦ rw e h
    ]

abbrev KeyLine : Outcome (Option Text) DecodeError → Type 0
KeyLine (returned (some key)) = Lacks newline key
KeyLine _ = Unit {0}

abbrev ValueLine : Outcome Text DecodeError → Type 0
ValueLine (returned text) = Lacks newline text
ValueLine (raised e) = Unit {0}

KeyLine-logfmt_key : (k : Key) → IsPlainKey k → KeyLine (logfmt_key k)
unfolding logfmt_key
KeyLine-logfmt_key (str_key k) p = newline-safe_string _ _ _ (omega arith)
KeyLine-logfmt_key (bytes_key (some k)) p = newline-safe_string _ _ _ (omega arith)
KeyLine-logfmt_key (bytes_key none) p = tt
KeyLine-logfmt_key (bool_key b) p = tt
KeyLine-logfmt_key (number_key text) p = p
KeyLine-logfmt_key other_key p = tt

ValueLine-logfmt_value : (v : Leaf) → IsPlainLeaf v → ValueLine (logfmt_value v)
unfolding logfmt_value
ValueLine-logfmt_value (str s) p = newline-logfmt_string s
ValueLine-logfmt_value (bytes (some s)) p = newline-logfmt_string s
ValueLine-logfmt_value (bytes none) p = tt
ValueLine-logfmt_value (bool true) p = omega arith
ValueLine-logfmt_value (bool false) p = omega arith
ValueLine-logfmt_value (number t text) p = p
ValueLine-logfmt_value (other t text) p =
    (omega arith, All-append (λ c. c ≢ newline) text (quote ∷ []) p (omega arith))

OneLine-dict_round :
    (key : Text) (k : Key) (ko : Outcome (Option Text) DecodeError) (vo : Outcome Text DecodeError)
    (rest : Atoms)
    → Lacks newline key
    → KeyLine ko
    → ValueLine vo
    → All OneLine rest.atoms
    → All OneLine (dict_round key k ko vo rest).atoms
unfolding dict_round
OneLine-dict_round key k (raised e) vo rest hk h hv hr = ((hk, omega arith), tt)
OneLine-dict_round key k (returned none) vo rest hk h hv hr = hr
OneLine-dict_round key k (returned (some subkey)) (raised e) rest hk h hv hr =
    ((hk, omega arith), tt)
OneLine-dict_round key k (returned (some subkey)) (returned v) rest hk h hv hr =
    ((All-append (λ c. c ≢ newline) key _ hk (omega arith, h), hv), hr)

OneLine-dict_atoms :
    (key : Text) (items : List (Key × Leaf))
    → Lacks newline key
    → All IsPlainItem items
    → All OneLine (dict_atoms key items).atoms
unfolding dict_atoms
OneLine-dict_atoms key [] hk h = tt
OneLine-dict_atoms key ((k, v) ∷ items) hk h =
    OneLine-dict_round key k (logfmt_key k) (logfmt_value v) (dict_atoms key items) hk
      (KeyLine-logfmt_key k h.0.0) (ValueLine-logfmt_value v h.0.1)
      (OneLine-dict_atoms key items hk h.1)

OneLine-leaf_atoms :
    (key : Text) (vo : Outcome Text DecodeError)
    → Lacks newline key
    → ValueLine vo
    → All OneLine (leaf_atoms key vo).atoms
unfolding leaf_atoms
OneLine-leaf_atoms key (raised e) hk h = ((hk, omega arith), tt)
OneLine-leaf_atoms key (returned text) hk h = ((hk, h), tt)

OneLine-keyed_atoms :
    (k : Key) (ko : Outcome (Option Text) DecodeError) (v : Value)
    → KeyLine ko
    → IsPlainValue v
    → All OneLine (keyed_atoms k ko v).atoms
unfolding keyed_atoms
OneLine-keyed_atoms k (raised e) v hk h = tt
OneLine-keyed_atoms k (returned none) v hk h = tt
OneLine-keyed_atoms k (returned (some key)) (dict items) hk h = OneLine-dict_atoms key items hk h
OneLine-keyed_atoms k (returned (some key)) (leaf value) hk h =
    OneLine-leaf_atoms key (logfmt_value value) hk (ValueLine-logfmt_value value h)

OneLine-item_atoms :
    (k : Key) (v : Value) → IsPlainKey k → IsPlainValue v → All OneLine (item_atoms k v).atoms
unfolding item_atoms
OneLine-item_atoms k v hk hv = elim (Bool-cases (is_skipped v)) [
  | inl e ↦ rw e tt
  | inr e ↦ rw e (OneLine-keyed_atoms k (logfmt_key k) v (KeyLine-logfmt_key k hk) hv)
]

OneLine-logfmt_atoms :
    (structured : List (Key × Value))
    → All IsPlainEntry structured
    → All OneLine (logfmt_atoms structured).atoms
unfolding logfmt_atoms
OneLine-logfmt_atoms [] h = tt
OneLine-logfmt_atoms ((k, v) ∷ structured) h =
    All-append OneLine (item_atoms k v).atoms _ (OneLine-item_atoms k v h.0.0 h.0.1)
      (OneLine-logfmt_atoms structured h.1)

newline-join_atoms :
    (atoms : List (Text × Text)) → All OneLine atoms → Lacks newline (join_atoms atoms)
unfolding join_atoms
newline-join_atoms [] h = tt
newline-join_atoms ((k, v) ∷ []) h = All-append (λ c. c ≢ newline) k _ h.0.0 (omega arith, h.0.1)
newline-join_atoms ((k, v) ∷ kv ∷ atoms) h =
    All-append (λ c. c ≢ newline) (k ++ (codes "=" ++ v)) _
      (All-append (λ c. c ≢ newline) k _ h.0.0 (omega arith, h.0.1))
      (omega arith, newline-join_atoms (kv ∷ atoms) h.1)

-- Whatever strings, bytes, nested dicts and other objects the structured data holds, it is
-- formatted as one line, if the texts that Python makes of numbers and types are.
pub newline-logfmt :
    (structured : List (Key × Value))
    → All IsPlainEntry structured
    → Lacks newline (logfmt structured)
unfolding logfmt
newline-logfmt structured h = newline-join_atoms _ (OneLine-logfmt_atoms structured h)
