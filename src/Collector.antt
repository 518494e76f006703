-- ===== src/Collector.antt =====
-- internal/collector: the broker, the stream of diffs, the rebuild loop, the graph builder, the restart
-- tracker, the scoped snapshot, the warning events and the accessors.
pub mod Broker
pub mod Stream
pub mod Restarts
pub mod Scope
pub mod Build
pub mod Debounce
pub mod Events
pub mod Access
