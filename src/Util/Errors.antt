-- ===== src/Util/Errors.antt =====
-- `get_root_exception` and `get_errno_fields` of talisker/util.py.
use mathlib.Core.Option
use talisker.Common.{
  zero, or_else, ◌∙◌, arith, ==_refl, String, false, Option, none, some, [], ◌≡◌, refl, string_eq,
  ◌==◌, if◌then◌else◌,
}
use talisker.Common.Int.{ℤ, pos}
use talisker.Common.Dict.{Dict, get, insert, get-insert}

-- The POSIX attributes of an exception, those that it has and that are not `None`.
pub record Posix : Type 0 where
  pub errno : Option ℤ
  pub strerror : Option String
  pub filename : Option String
  pub filename2 : Option String

-- An exception: with neither cause nor context, raised from a cause, whatever its context, or raised while
-- another was handled.
pub data Raised : Type 0 where
  root_error : Posix → Raised
  raised_from : Posix → Raised → Raised
  raised_within : Posix → Raised → Raised

unfoldable pub get_root_exception : Raised → Posix
get_root_exception (root_error p) = p
get_root_exception (raised_from p cause) = get_root_exception cause
get_root_exception (raised_within p context) = get_root_exception context

abbrev pub put_if : String → Option String → Dict String String → Dict String String
put_if name none fields = fields
put_if name (some v) fields = insert name v fields

abbrev pub nonempty : Option String → Option String
nonempty none = none
nonempty (some s) = if s == "" then none else some s

module _ (error_codes : ℤ → Option String) (str : ℤ → String) where
  -- `ERROR_CODES.get(errno, str(errno))`; a zero is falsy.
  abbrev pub errno_text : Option ℤ → Option String
  errno_text none = none
  errno_text (some (pos zero)) = none
  errno_text (some n) = some (Option.get_or (error_codes n) (str n))

  unfoldable pub get_errno_fields : Raised → Dict String String
  unfolding get_root_exception
  get_errno_fields exc =
      let root = get_root_exception exc in
      put_if "filename2" root.filename2 (
        put_if "filename" root.filename
          (put_if "strerror" (nonempty root.strerror) (put_if "errno" (errno_text root.errno) [])))

get-put_if :
    (name k : String) (v : Option String) (fields : Dict String String)
    → get k (put_if name v fields) ≡ (if name == k then or_else v (get k fields) else get k fields)
get-put_if name k none fields = ground arith
get-put_if name k (some v) fields = get-insert name k v fields

or_else-none : (v : Option String) → or_else v none ≡ v
or_else-none none = refl
or_else-none (some v) = refl

get-put_if_ne :
    (name k : String) (v : Option String) (fields : Dict String String)
    → (name == k) ≡ false
    → get k (put_if name v fields) ≡ get k fields
get-put_if_ne name k v fields ne = get-put_if name k v fields ∙ rw (ne) refl

get-put_if_new :
    (k : String) (v : Option String) (fields : Dict String String)
    → get k fields ≡ none
    → get k (put_if k v fields) ≡ v
get-put_if_new k v fields new = get-put_if k k v fields ∙ rw (==_refl k, new) (or_else-none v)

module _ (error_codes : ℤ → Option String) (str : ℤ → String) where
  -- Each field is that of the error at the root of the chain, whatever has been raised from it or within
  -- its handling, and is left out where the root has none.
  pub get-get_errno_fields :
      (exc : Raised)
      → (get "errno" (get_errno_fields error_codes str exc)
          ≡ errno_text error_codes str (get_root_exception exc).errno)
        × (get "strerror" (get_errno_fields error_codes str exc)
            ≡ nonempty (get_root_exception exc).strerror)
        × (get "filename" (get_errno_fields error_codes str exc)
            ≡ (get_root_exception exc).filename)
        × (get "filename2" (get_errno_fields error_codes str exc)
            ≡ (get_root_exception exc).filename2)
  unfolding get_errno_fields
  get-get_errno_fields exc =
      let root = get_root_exception exc in
      let f1 : Dict String String = put_if "errno" (errno_text error_codes str root.errno) [] in
      let f2 : Dict String String = put_if "strerror" (nonempty root.strerror) f1 in
      let f3 : Dict String String = put_if "filename" root.filename f2 in
      let absent : (k : String) → get {V = String} k [] ≡ none = λ k. unfold get in refl in
      (
        get-put_if_ne "filename2" "errno" root.filename2 f3 refl
            ∙ get-put_if_ne "filename" "errno" root.filename f2 refl
            ∙ get-put_if_ne "strerror" "errno" (nonempty root.strerror) f1 refl
            ∙ get-put_if_new "errno" (errno_text error_codes str root.errno) [] (absent "errno"),
        get-put_if_ne "filename2" "strerror" root.filename2 f3 refl
            ∙ get-put_if_ne "filename" "strerror" root.filename f2 refl
            ∙ get-put_if_new "strerror" (nonempty root.strerror) f1 (
                get-put_if_ne "errno" "strerror" (errno_text error_codes str root.errno) [] refl
                ∙ absent "strerror"),
        get-put_if_ne "filename2" "filename" root.filename2 f3 refl
            ∙ get-put_if_new "filename" root.filename f2 (
                get-put_if_ne "strerror" "filename" (nonempty root.strerror) f1 refl
                ∙ get-put_if_ne "errno" "filename" (errno_text error_codes str root.errno) [] refl
                ∙ absent "filename"),
        get-put_if_new "filename2" root.filename2 f3 (
            get-put_if_ne "filename" "filename2" root.filename f2 refl
            ∙ get-put_if_ne "strerror" "filename2" (nonempty root.strerror) f1 refl
            ∙ get-put_if_ne "errno" "filename2" (errno_text error_codes str root.errno) [] refl
            ∙ absent "filename2"),
      )
