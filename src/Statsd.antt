-- ===== src/Statsd.antt =====
-- talisker/statsd.py: the DSN, the choice of a client, and the client that collects what it is sent. A
-- path is a text of code points.
pub mod Collect
mod Tests
use mathlib.Core.Option
use talisker.Common.{
  ℕ, zero, suc, String, Bool, true, false, Option, none, some, List, [], ◌∷◌, ◌++◌, string_eq, ◌==◌,
  ◌||◌, map, nat_eq, if◌then◌else◌,
}
use talisker.Common.Text.{Text}
use talisker.Render.{strip_slash, rstrip_slashes}
use talisker.Context.Stack.{Outcome, returned, raised}

-- What `urlparse` and `parse_qs` make of a DSN; `maxudpsize` is the first value of that name, read by
-- `int`, which may raise a `ValueError`.
pub record ParsedDsn : Type 0 where
  pub scheme : String
  pub hostname : Option String
  pub port : Option ℕ
  pub path : Text
  pub maxudpsize : Option (Outcome ℕ String)

-- `statsd.defaults`
pub record Defaults : Type 0 where
  pub port : ℕ
  pub maxudpsize : ℕ

pub record Address : Type 0 where
  pub host : Option String
  pub port : ℕ
  pub prefix : Option Text
  pub size : ℕ
  pub ipv6 : Bool

-- `replace('/', '.')`
abbrev pub dot_slash : ℕ → ℕ
dot_slash c = if c == 47 then 46 else c

abbrev pub prefix_of : Text → Option Text
prefix_of [] = none
prefix_of (c ∷ path) = some (map dot_slash (rstrip_slashes (strip_slash (c ∷ path))))

-- A port of zero is falsy.
abbrev pub port_of : ℕ → Option ℕ → ℕ
port_of default none = default
port_of default (some zero) = default
port_of default (some (suc n)) = suc n

abbrev pub with_size : ParsedDsn → ℕ → Outcome ℕ String → Outcome Address String
with_size parsed port (raised e) = raised e
with_size parsed port (returned size) = returned (record {
  host = parsed.hostname;
  port = port;
  prefix = prefix_of parsed.path;
  size = size;
  ipv6 = parsed.scheme == "udp6" || parsed.scheme == "tcp6";
})

unfoldable pub parse_statsd_dsn : Defaults → ParsedDsn → Outcome Address String
parse_statsd_dsn defaults parsed =
    with_size parsed (port_of defaults.port parsed.port)
      (Option.get_or parsed.maxudpsize (returned defaults.maxudpsize))

-- What `DummyClient` has collected; `none` if it does not collect.
pub record DummyClient : Type 0 where
  pub stats : Option (List String)

pub data Client : Type 0 where
  dummy : DummyClient → Client
  udp : Address → Client

abbrev pub udp_client : Outcome Address String → Outcome Client String
udp_client (raised e) = raised e
udp_client (returned a) = returned (udp a)

-- `get_client`, on the configured DSN and what it parses to.
unfoldable pub get_client :
    (String → Bool) → (String → ParsedDsn) → Defaults → Option String → Outcome Client String
unfolding parse_statsd_dsn
get_client starts_udp urlparse defaults none = returned (dummy (record { stats = none }))
get_client starts_udp urlparse defaults (some dsn) =
    if starts_udp dsn
    then udp_client (parse_statsd_dsn defaults (urlparse dsn))
    else raised "Talisker only supports udp stastd client"

-- `DummyClient._send`
unfoldable pub send_data : String → DummyClient → DummyClient
send_data d c = record { stats = Option.map (λ stats. stats ++ d ∷ []) c.stats }

abbrev pub pipeline : DummyClient
pipeline = record { stats = some [] }

-- `DummyClient.send`
unfoldable pub flush : DummyClient → DummyClient
flush c = record { stats = Option.map (λ stats. []) c.stats }

-- The uses of a client, one after the other: the data of a metric, a `send`, and a
-- `with client.collect()` around others.
pub data Uses : Type 0 where
  done : Uses
  sends : String → Uses → Uses
  flushes : Uses → Uses
  collects : Uses → Uses → Uses

-- A client after uses, and, in the order in which they ended, what each `collect` has yielded.
unfoldable pub use_client : Uses → DummyClient → DummyClient × List (List String)
unfolding send_data flush
use_client done c = (c, [])
use_client (sends d uses) c = use_client uses (send_data d c)
use_client (flushes uses) c = use_client uses (flush c)
use_client (collects inner uses) c =
    let (c₁, yielded) = use_client inner (record { stats = some [] }) in
    let (c₂, later) = use_client uses c in (c₂, yielded ++ Option.get_or c₁.stats [] ∷ later)

-- `MetricList.filter`
unfoldable pub filter_metrics : (String → Bool) → List String → List String
filter_metrics contains [] = []
filter_metrics contains (metric ∷ metrics) =
    let rest = filter_metrics contains metrics in if contains metric then metric ∷ rest else rest
