-- ===== src/Tests/Sessions.antt =====
-- A history of the server: one client follows, and another is gone after a write that failed.
use pulsebox.Base.{ℕ, true, false, List, [], ◌∷◌, ◌≡◌, refl, arith}
use pulsebox.Base.Fixed.{fixed, fixed-FloatLaws}
use pulsebox.Topology.{as_snapshot}
use pulsebox.Topology.Follow.{Shows}
use pulsebox.Collector.Broker.Opens.{is_open}
use pulsebox.Collector.Stream.{rebuild, message_for, no_graph, no_view}
use pulsebox.Api.Sessions.{
  Frame, message, ping, Server, builds, opens, diffs, ticks, Serves, starts, goes, new_server,
  open_stream, on_diff, on_tick,
}
use pulsebox.Api.Sessions.Simulates.{shown_after, written-Shows}
use pulsebox.Api.Sessions.Clients.{is_running, open-IsOwned}
use pulsebox.Tests.Streams.{first_graph}

abbrev opened : Server ℕ
opened = open_stream true new_server

abbrev two_opened : Server ℕ
two_opened = open_stream true opened

abbrev built : Server ℕ
built = record two_opened { stream = rebuild first_graph two_opened.stream }

abbrev first_frames : List (Frame ℕ)
first_frames = message (as_snapshot no_graph) ∷ []

abbrev pinged : Server ℕ
pinged = on_tick true 0 first_frames built

abbrev failed : Server ℕ
failed = on_tick false 1 first_frames pinged

abbrev received : Server ℕ
received = on_diff true 0 (message (as_snapshot no_graph) ∷ ping ∷ []) failed

abbrev all_frames : List (Frame ℕ)
all_frames = message (as_snapshot no_graph) ∷ ping ∷ message (message_for first_graph no_graph) ∷ []

history : Serves fixed new_server received
unfolding new_server open_stream rebuild message_for on_tick on_diff
history =
    goes
      (goes
        (goes
          (goes
            (goes (goes starts (opens new_server true (omega arith)))
              (opens opened true (omega arith)))
            (builds two_opened first_graph refl))
          (ticks built true 0 first_frames refl))
        (ticks pinged false 1 first_frames refl))
      (diffs failed true 0 (message (as_snapshot no_graph) ∷ ping ∷ []) refl)

written-Shows_example : Shows fixed (shown_after all_frames no_view) received.stream.last_graph
unfolding new_server open_stream rebuild message_for on_tick on_diff
written-Shows_example = written-Shows fixed fixed-FloatLaws 0 all_frames history refl refl

open-IsOwned_example : is_running 0 received ≡ true
unfolding new_server open_stream rebuild message_for on_tick on_diff
open-IsOwned_example = open-IsOwned fixed fixed-FloatLaws 0 history refl

-- The handler whose write failed is gone, with its channel.
failed_test : is_open 1 received.stream.broker ≡ false
unfolding new_server open_stream rebuild message_for on_tick on_diff
failed_test = refl
