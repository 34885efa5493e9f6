-- ===== src/Sentry.antt =====
-- What talisker/sentry.py adds to a report: `sql_summary` and `add_talisker_context`, and the global client.
-- Times and durations are whole microseconds.
pub mod Config
pub mod Sorting
pub mod Slowest
pub mod Added
mod Tests
use mathlib.Core.Option
use talisker.Common.{
  ℕ, zero, suc, ◌+◌, String, Bool, true, false, Option, none, some, List, [], ◌∷◌, string_eq, ◌==◌,
  leb, if◌then◌else◌,
}
use talisker.Common.Int.{ℤ, pos, ◌-ℤ◌}
use talisker.Common.Lists.{length, take}
use talisker.Common.Dict.{Dict, get, insert, erase, update}

-- A breadcrumb, with what its data has.
pub record Crumb : Type 0 where
  pub category : String
  pub timestamp : ℕ
  pub duration_ms : Option ℕ
  pub query : Option String
  pub start : Option ℤ

pub record Summary : Type 0 where
  pub sql_count : ℕ
  pub sql_time : ℕ
  pub non_sql_time : Option ℤ
  pub total_time : Option ℤ
  pub slowest_queries : List (ℕ × String)

abbrev pub duration : Crumb → ℕ
duration c = Option.get_or c.duration_ms 0

-- `sort(key=duration, reverse=True)`, which keeps the order of equals.
unfoldable pub insert_crumb : Crumb → List Crumb → List Crumb
insert_crumb c [] = c ∷ []
insert_crumb c (d ∷ crumbs) =
    let rest = insert_crumb c crumbs in
    if leb (duration d) (duration c) then c ∷ d ∷ crumbs else d ∷ rest

unfoldable pub sort_crumbs : List Crumb → List Crumb
unfolding insert_crumb
sort_crumbs [] = []
sort_crumbs (c ∷ crumbs) = insert_crumb c (sort_crumbs crumbs)

unfoldable pub sum_durations : List Crumb → ℕ
sum_durations [] = 0
sum_durations (c ∷ crumbs) = duration c + sum_durations crumbs

-- The duration and the query of a crumb, and of each; `none` is a `KeyError`.
abbrev pub entry : Option ℕ → Option String → Option (ℕ × String)
entry (some d) (some q) = some (d, q)
entry _ _ = none

abbrev pub cons_entry :
    Option (ℕ × String) → Option (List (ℕ × String)) → Option (List (ℕ × String))
cons_entry (some e) (some entries) = some (e ∷ entries)
cons_entry _ _ = none

unfoldable pub entries : List Crumb → Option (List (ℕ × String))
entries [] = some []
entries (c ∷ crumbs) = cons_entry (entry c.duration_ms c.query) (entries crumbs)

abbrev pub request_time : ℕ → Option ℕ → Option ℤ
request_time now none = none
request_time now (some start) = some (pos now -ℤ pos start)

-- `now` is `time.time()`.
unfoldable pub sql_summary : ℕ → List Crumb → Option ℕ → Option Summary
unfolding sort_crumbs sum_durations entries
sql_summary now sql_crumbs start_time =
    let crumbs = sort_crumbs sql_crumbs in
    let sql_time = sum_durations crumbs in
    let total = request_time now start_time in
    Option.map
      (λ slowest. record {
        sql_count = length crumbs;
        sql_time = sql_time;
        non_sql_time = Option.map (λ t. t -ℤ pos sql_time) total;
        total_time = total;
        slowest_queries = slowest;
      })
      (entries (take 5 crumbs))

-- A value in `extra`.
pub data Extra : Type 0 where
  value : String → Extra
  summary : Summary → Extra

pub record Data : Type 0 where
  pub tags : Dict String String
  pub extra : Dict String Extra
  pub user : Option (Dict String String)
  pub breadcrumbs : List Crumb

abbrev pub add_request_id : Option String → Dict String String → Dict String String
add_request_id none tags = tags
add_request_id (some rid) tags = if rid == "" then tags else insert "request_id" rid tags

-- `crumb['data']['start']`; a start of zero is falsy.
abbrev pub with_start : Option ℕ → Crumb → Crumb
with_start none c = c
with_start (some zero) c = c
with_start (some (suc n)) c = record c { start = some (pos c.timestamp -ℤ pos (suc n)) }

unfoldable pub with_starts : Option ℕ → List Crumb → List Crumb
with_starts start [] = []
with_starts start (c ∷ crumbs) = with_start start c ∷ with_starts start crumbs

unfoldable pub sql_crumbs : List Crumb → List Crumb
sql_crumbs [] = []
sql_crumbs (c ∷ crumbs) =
    let rest = sql_crumbs crumbs in if c.category == "sql" then c ∷ rest else rest

-- `float(extra.get('start_time'))`, in microseconds; `none` also for a `ValueError`.
abbrev pub start_time_of : (String → Option ℕ) → Option Extra → Option ℕ
start_time_of float (some (value s)) = float s
start_time_of float _ = none

abbrev pub put_summary : Option Summary → Data → Option Data
put_summary none data' = none
put_summary (some s) data' =
    some (record data' { extra = insert "sql summary" (summary s) data'.extra })

abbrev pub add_summary : ℕ → Option ℕ → List Crumb → Data → Option Data
add_summary now start [] data' = some data'
add_summary now start (c ∷ crumbs) data' = put_summary (sql_summary now (c ∷ crumbs) start) data'

-- `rid` is the context's request id and `logging` the flat logging context, whose values are texts.
unfoldable pub add_talisker_context :
    (String → Option ℕ) → ℕ → Option String → Dict String Extra → Data → Option Data
unfolding sql_summary with_starts sql_crumbs
add_talisker_context float now rid logging data' =
    let extra = update data'.extra logging in
    let start = start_time_of float (get "start_time" extra) in
    let crumbs = with_starts start data'.breadcrumbs in
    add_summary now start (sql_crumbs crumbs) (record {
      tags = add_request_id rid data'.tags;
      extra = extra;
      user = Option.map (λ u. erase "username" (erase "email" u)) data'.user;
      breadcrumbs = crumbs;
    })

-- The global client: `create` is `TaliskerSentryClient`.
module _ {ℓ κ} {Args : Type ℓ} {Client : Type κ} (create : Args → Client) where
  unfoldable pub get_client : Args → Option Client → Client × Option Client
  get_client args none = let client = create args in (client, some client)
  get_client args (some client) = (client, some client)

  unfoldable pub configure_client : Args → Option Client → Client × Option Client
  configure_client args old = let client = create args in (client, some client)

unfoldable pub set_client {ℓ} : {Client : Type ℓ} → Client → Option Client → Client × Option Client
set_client client old = (client, some client)
