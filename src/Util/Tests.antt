-- ===== src/Util/Tests.antt =====
-- The theorem on the early logs at a concrete start-up.
use talisker.Common.{false, List, [], ◌∷◌}
use talisker.Util.Early.{Log, EarlyLogs, Startup, log, flush}

abbrev first : Log
first = record { name = "talisker"; level = "info"; message = "starting" }

abbrev second : Log
second = record { name = "talisker"; level = "warning"; message = "late" }

abbrev empty : EarlyLogs
empty = record { pending = []; processed = false; logged = [] }

abbrev startup : List Startup
startup = log first ∷ flush ∷ log second ∷ flush ∷ []
