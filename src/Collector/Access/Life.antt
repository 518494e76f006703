-- ===== src/Collector/Access/Life.antt =====
-- internal/collector: the life of a collector. The caches change at any time, and clients subscribe and
-- leave at any time, in between the steps of `Start` and of the loop that it starts too.
use pulsebox.Base.{List}
use pulsebox.Base.Int.{Time}
use pulsebox.Base.Float.{Float}
use pulsebox.Collector.Broker.{Broker}
use pulsebox.Collector.Events.{Event}
use pulsebox.Collector.Build.Roots.{Caches, Config}
use pulsebox.Collector.Access.{Collector, StartPhase, syncing, new_collector, start_step}

-- The histories of a collector that `New` makes, with where `Start` is.
pub data Lives {F : Type 0} (fl : Float F) (cfg : Config) : StartPhase → Collector F → Type 0 where
  made : Lives fl cfg syncing (new_collector cfg)
  caches_change :
      {p : StartPhase} {c : Collector F}
      → Lives fl cfg p c
      → (caches : Caches) (events : List Event)
      → Lives fl cfg p (record c { caches = caches; events = events })
  clients_change :
      {p : StartPhase} {c : Collector F}
      → Lives fl cfg p c
      → (b : Broker F) → Lives fl cfg p (record c { stream = record c.stream { broker = b } })
  advances :
      {p : StartPhase} {c : Collector F}
      → Lives fl cfg p c
      → (now : Time)
      → Lives fl cfg (start_step ⦃fl = fl⦄ now p c).0 (start_step ⦃fl = fl⦄ now p c).1
