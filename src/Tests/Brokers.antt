-- ===== src/Tests/Brokers.antt =====
-- A subscriber that joins, reads one of two diffs, and leaves the other in its channel.
use pulsebox.Base.{ℕ, [], ◌∷◌, List, some, ◌≡◌, refl, arith, nat_eq}
use pulsebox.Base.Dict.{lookup}
use pulsebox.Base.Int.{pos}
use pulsebox.Topology.{Diff}
use pulsebox.Collector.Broker.{Broker, new_broker, subscribe, broadcast, receive}
use pulsebox.Collector.Broker.Valid.{new_broker-IsValid}
use pulsebox.Collector.Broker.History.{joins, broadcasts, reads, read_in_order}
use pulsebox.Tests.Trackers.{some_diff}

abbrev later_diff : Diff ℕ
later_diff = record some_diff { timestamp = pos 6 }

abbrev first_sent : Broker ℕ
first_sent = broadcast some_diff (subscribe new_broker).0

read_in_order_example :
    ((rest : List (Diff ℕ)) × (some_diff ∷ later_diff ∷ [] ≡ some_diff ∷ rest))
    × ((buffer : List (Diff ℕ))
        → lookup 0 (broadcast later_diff (receive 0 first_sent).1).subs ≡ some buffer
        → some_diff ∷ later_diff ∷ [] ≡ some_diff ∷ buffer)
unfolding new_broker subscribe broadcast receive lookup
read_in_order_example = read_in_order 0 (
    broadcasts
      (reads (broadcasts (joins new_broker new_broker-IsValid (omega arith) refl) some_diff))
      later_diff)
