-- ===== src/Statsd/Collect.antt =====
-- That a `collect` of talisker/statsd.py sees what is sent within it, and the client nothing of it.
use mathlib.Core.Option
use talisker.Common.{String, Option, none, some, List, [], ◌∷◌, ◌++◌, ◌≡◌, refl, ap, ◌∙◌}
use talisker.Statsd.{
  DummyClient, send_data, flush, Uses, done, sends, flushes, collects, use_client,
}

-- What uses leave of data, those within another `collect` apart.
unfoldable pub level : List String → Uses → List String
level stats done = stats
level stats (sends d uses) = level (stats ++ d ∷ []) uses
level stats (flushes uses) = level [] uses
level stats (collects inner uses) = level stats uses

-- What the uses within each `collect` leave, an inner one before its outer one.
unfoldable pub yields : Uses → List (List String)
unfolding level
yields done = []
yields (sends d uses) = yields uses
yields (flushes uses) = yields uses
yields (collects inner uses) = yields inner ++ level [] inner ∷ yields uses

kept : (o : Option (List String)) → o ≡ Option.map (λ stats. stats) o
kept none = refl
kept (some stats) = refl

map-map :
    (f g : List String → List String) (o : Option (List String))
    → Option.map f (Option.map g o) ≡ Option.map (λ stats. f (g stats)) o
map-map f g none = refl
map-map f g (some stats) = refl

stats-use_client :
    (uses : Uses) (c : DummyClient)
    → (use_client uses c).0.stats ≡ Option.map (λ stats. level stats uses) c.stats
unfolding use_client level send_data flush
stats-use_client done c = kept c.stats
stats-use_client (sends d uses) c =
    stats-use_client uses (send_data d c)
    ∙ map-map (λ stats. level stats uses) (λ stats. stats ++ d ∷ []) c.stats
stats-use_client (flushes uses) c =
    stats-use_client uses (flush c) ∙ map-map (λ stats. level stats uses) (λ stats. []) c.stats
stats-use_client (collects inner uses) c = stats-use_client uses c

-- Each `collect` yields what its own uses have sent since the last `send` among them, and nothing of
-- a `collect` within it; a client keeps of what it collects just what was sent outside of them.
pub use_client-yields :
    (uses : Uses) (c : DummyClient)
    → ((use_client uses c).1 ≡ yields uses)
      × ((use_client uses c).0.stats ≡ Option.map (λ stats. level stats uses) c.stats)
unfolding use_client yields
use_client-yields done c = (refl, stats-use_client done c)
use_client-yields (sends d uses) c =
    ((use_client-yields uses (send_data d c)).0, stats-use_client (sends d uses) c)
use_client-yields (flushes uses) c =
    ((use_client-yields uses (flush c)).0, stats-use_client (flushes uses) c)
use_client-yields (collects inner uses) c =
    let start : DummyClient = record { stats = some [] } in
    let (c₁, inside) = use_client inner start in
    let (c₂, later) = use_client uses c in
    (
      ap (λ ys. ys ++ Option.get_or c₁.stats [] ∷ later) (use_client-yields inner start).0
          ∙ ap (λ o. yields inner ++ Option.get_or o [] ∷ later) (stats-use_client inner start)
          ∙ ap (λ ys. yields inner ++ level [] inner ∷ ys) (use_client-yields uses c).0,
      stats-use_client uses c,
    )
