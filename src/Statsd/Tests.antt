-- ===== src/Statsd/Tests.antt =====
-- The theorem on collected metrics at a concrete use of a client.
use mathlib.Core.Option
use talisker.Common.{some, [], ◌≡◌}
use talisker.Statsd.{DummyClient, Uses, done, sends, flushes, collects, use_client}
use talisker.Statsd.Collect.{level, yields, use_client-yields}

abbrev uses : Uses
uses = sends "a:1|c" (
    collects (sends "b:1|c" (collects (sends "c:1|c" done) (flushes (sends "d:1|c" done))))
      (sends "e:1|c" done))

abbrev a_client : DummyClient
a_client = record { stats = some [] }

use_client-yields_example :
    ((use_client uses a_client).1 ≡ yields uses)
    × ((use_client uses a_client).0.stats ≡ Option.map (λ stats. level stats uses) a_client.stats)
use_client-yields_example = use_client-yields uses a_client
