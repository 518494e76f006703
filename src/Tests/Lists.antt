-- ===== src/Tests/Lists.antt =====
-- The messages of three events.
use mathlib.Core.List.{Perm}
use pulsebox.Base.{ℕ, String, List, [], ◌∷◌, ◌≡◌, refl, arith}
use pulsebox.Base.Int.{pos}
use pulsebox.Collector.Events.{Event, Message, exchange_sort, warning_events}
use pulsebox.Collector.Events.Recent.{LatestFirst, exchange_sort-LatestFirst}

abbrev message : ℕ → String → Message
message t s = record { at = pos t; text = s }

abbrev messages : List Message
messages = message 5 "old" ∷ message 9 "new" ∷ message 7 "mid" ∷ []

exchange_sort-LatestFirst_example :
    LatestFirst (exchange_sort 3 messages) × Perm (exchange_sort 3 messages) messages
exchange_sort-LatestFirst_example = exchange_sort-LatestFirst 3 messages (omega arith)

abbrev event : String → ℕ → String → Event
event etype t s = record {
  namespace = "shop";
  etype = etype;
  kind = "Pod";
  name = "cart-0";
  reason = "BackOff";
  message = s;
  last_timestamp = pos t;
  event_time = pos 1;
}

warning_events_test :
    warning_events
      (event "Warning" 5 "a"
        ∷ event "Normal" 8 "b"
        ∷ event "Warning" 9 " c "
        ∷ event "Warning" 0 "d"
        ∷ [])
      "Pod"
      "shop"
      "cart-0"
      2
    ≡ "BackOff: c" ∷ "BackOff: a" ∷ []
unfolding warning_events
warning_events_test = refl
