-- ===== src/Logs/Record/Merge.antt =====
-- Which of the three sources a key of the merged record comes from.
use Prim.Native.String.{◌++◌}
use text.Mathlib.TextLemmas.{append_cancel_right}
use talisker.Common.{
  String, Bool, Option, none, some, [], ◌∷◌, ◌||◌, ◌≡◌, refl, ◌≢◌, arith, string_eq, if◌then◌else◌,
  or_else,
}
use talisker.Common.Dict.{
  Dict, get, contains, insert, erase, Distinct, get-insert, get-erase, get-update, Distinct-erase,
}
use talisker.Logs.Record.{
  add_renamed, merge_extras, add_request_id, context_extra, context_request_id, make_record,
}

-- No key is this one with an underscore behind it: the key cannot come from a renaming.
abbrev pub IsPlain : String → Type 0
IsPlain k = (j : String) → j ++ "_" ≢ k

module _ {V : Type 0} (taken : String → Bool) where
  get-add_renamed_plain :
      (k : String) (items s : Dict String V)
      → IsPlain k
      → Distinct items
      → get k (add_renamed taken items s)
        ≡ (if taken k then get k s else or_else (get k items) (get k s))
  unfolding add_renamed get Distinct
  get-add_renamed_plain k [] s p h = ground arith
  get-add_renamed_plain k ((j, v) ∷ items) s p h = ground (
    arith,
    get-add_renamed_plain k items (insert (if taken j then j ++ "_" else j) v s) p h.1,
    get-insert (if taken j then j ++ "_" else j) k v s,
    string_eq.beq_iff j k,
    string_eq.beq_iff (j ++ "_") k,
    p j,
  )

  get-add_renamed_suffix :
      (k : String) (items s : Dict String V)
      → get (k ++ "_") items ≡ none
      → Distinct items
      → get (k ++ "_") (add_renamed taken items s)
        ≡ (if taken k then or_else (get k items) (get (k ++ "_") s) else get (k ++ "_") s)
  unfolding add_renamed get Distinct
  get-add_renamed_suffix k [] s a h = ground arith
  get-add_renamed_suffix k ((j, v) ∷ items) s a h = ground (
    arith,
    get-add_renamed_suffix k items (insert (if taken j then j ++ "_" else j) v s),
    get-insert (if taken j then j ++ "_" else j) (k ++ "_") v s,
    string_eq.beq_iff j k,
    string_eq.beq_iff j (k ++ "_"),
    string_eq.beq_iff (j ++ "_") (k ++ "_"),
    append_cancel_right j k "_",
  )

module _ {V : Type 0} where
  get-add_request_id :
      (of_rid : String → V) (rid : Option String) (k : String) (s : Dict String V)
      → k ≢ "request_id"
      → get k (add_request_id of_rid rid s) ≡ get k s
  unfolding add_request_id
  get-add_request_id of_rid none k s h = refl
  get-add_request_id of_rid (some rid) k s h =
      ground (arith, get-insert "request_id" k (of_rid rid) s, string_eq.beq_iff "request_id" k)

module _ {V : Type 0} (context_dict global_extra extra : Dict String V) where
  -- The three sources are dicts.
  pub record AreDicts : Type 0 where
    pub of_context : Distinct context_dict
    pub of_global : Distinct global_extra
    pub of_extra : Distinct extra

  -- No source has the key with an underscore already.
  pub record Unsuffixed (k : String) : Type 0 where
    pub in_context : get (k ++ "_") context_dict ≡ none
    pub in_global : get (k ++ "_") global_extra ≡ none
    pub in_extra : get (k ++ "_") extra ≡ none

  abbrev by_call : Dict String V
  by_call = add_renamed (λ k. contains k context_dict || contains k global_extra) extra []

  get-merge_extras_plain :
      (k : String)
      → AreDicts
      → IsPlain k
      → get k (merge_extras context_dict global_extra extra)
        ≡ or_else (get k global_extra) (or_else (get k context_dict) (get k extra))
  unfolding merge_extras
  get-merge_extras_plain k h p =
      rw
        (
          get-update k _ global_extra h.of_global,
          get-add_renamed_plain _ k context_dict by_call p h.of_context,
          get-add_renamed_plain _ k extra [] p h.of_extra,
        )
        (unfold get in ground arith)

  get-merge_extras_suffix :
      (k : String)
      → AreDicts
      → Unsuffixed k
      → get (k ++ "_") (merge_extras context_dict global_extra extra) ≡ (
          if contains k global_extra
          then or_else (get k context_dict) (get k extra)
          else if contains k context_dict
          then get k extra
          else none)
  unfolding merge_extras
  get-merge_extras_suffix k h u =
      rw
        (
          get-update (k ++ "_") _ global_extra h.of_global,
          u.in_global,
          get-add_renamed_suffix _ k context_dict by_call u.in_context h.of_context,
          get-add_renamed_suffix _ k extra [] u.in_extra h.of_extra,
        )
        (unfold get in ground arith)

module _ {V : Type 0} (of_rid : String → V) (context : Option (Dict String V × Option String))
    (global_extra extra : Dict String V) where
  get-erase_ne : (k j : String) → j ≢ k → get k (erase j extra) ≡ get k extra
  get-erase_ne k j h = ground (arith, get-erase j k extra, string_eq.beq_iff j k)

  erased-AreDicts :
      AreDicts (context_extra context) global_extra extra
      → AreDicts (context_extra context) global_extra (erase "trailer" extra)
  erased-AreDicts h = record {
    of_context = h.of_context;
    of_global = h.of_global;
    of_extra = Distinct-erase "trailer" extra h.of_extra;
  }

  -- A key that cannot come from a renaming is given its value by the process' data, else by the
  -- context, else by the call.
  pub get-make_record_plain :
      (k : String)
      → AreDicts (context_extra context) global_extra extra
      → IsPlain k
      → k ≢ "request_id"
      → "trailer" ≢ k
      → get k (make_record of_rid context global_extra extra).structured
        ≡ or_else (get k global_extra) (or_else (get k (context_extra context)) (get k extra))
  unfolding make_record
  get-make_record_plain k h p nr nt = rw (
    get-add_request_id of_rid (context_request_id context) k _ nr,
    get-merge_extras_plain _ global_extra _ k (erased-AreDicts h) p,
    get-erase_ne k "trailer" nt,
  )

  -- For a key that is not the trailer, where no source has the key with an underscore behind it and
  -- that is neither the trailer nor the request's id: in the record the underscored key holds what
  -- the key was taken from. If the process' data has the key that is the context's value, or the
  -- call's if the context has none; if the process' data lacks it and the context has it, the call's
  -- value; else there is none. So of a key that all three have, the call's value is lost.
  pub get-make_record_suffix :
      (k : String)
      → AreDicts (context_extra context) global_extra extra
      → Unsuffixed (context_extra context) global_extra extra k
      → k ++ "_" ≢ "request_id"
      → "trailer" ≢ k
      → "trailer" ≢ k ++ "_"
      → get (k ++ "_") (make_record of_rid context global_extra extra).structured ≡ (
          if contains k global_extra
          then or_else (get k (context_extra context)) (get k extra)
          else if contains k (context_extra context)
          then get k extra
          else none)
  unfolding make_record
  get-make_record_suffix k h u nr nt nt_ = rw (
    get-add_request_id of_rid (context_request_id context) (k ++ "_") _ nr,
    get-merge_extras_suffix _ global_extra _ k (erased-AreDicts h) (record {
      in_context = u.in_context;
      in_global = u.in_global;
      in_extra = rw (get-erase_ne (k ++ "_") "trailer" nt_) u.in_extra;
    }),
    get-erase_ne k "trailer" nt,
  )
