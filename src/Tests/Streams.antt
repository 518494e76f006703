-- ===== src/Tests/Streams.antt =====
-- A history of the stream: a client connects, the graph is built twice, the client reads.
use pulsebox.Base.{ℕ, String, [], ◌∷◌, ◌≡◌, refl, arith, nat_eq, string_eq}
use pulsebox.Base.Int.{pos}
use pulsebox.Base.Fixed.{fixed, fixed-FloatLaws}
use pulsebox.Topology.{
  Node, Graph, View, as_snapshot, empty, node_equal, diff_against, apply_message,
}
use pulsebox.Topology.Follow.{Shows, empty-apply_message}
use pulsebox.Collector.Broker.{broadcast}
use pulsebox.Collector.Stream.{
  message_for, rebuild, World, no_view, new_world, connect, read_next, rebuilds, connects, reads,
  Reach, here, next,
}
use pulsebox.Collector.Stream.Reads.{caught_up}

abbrev pub node_of : String → String → Node ℕ
node_of name health = record {
  id = name;
  kind = "Node";
  name = name;
  namespace = "";
  health = health;
  score = 1000;
  reasons = [];
  meta = [];
}

abbrev pub first_graph : Graph ℕ
first_graph = record {
  nodes = node_of "a" "healthy" ∷ node_of "b" "healthy" ∷ [];
  edges = [];
  updated_at = pos 1;
}

abbrev pub second_graph : Graph ℕ
second_graph = record {
  nodes = node_of "a" "degraded" ∷ node_of "c" "healthy" ∷ [];
  edges = [];
  updated_at = pos 2;
}

abbrev pub blank : View ℕ
blank = record { nodes = []; edges = [] }

empty-apply_message_example : apply_message (diff_against first_graph first_graph) blank ≡ blank
unfolding empty diff_against node_equal
empty-apply_message_example = empty-apply_message first_graph first_graph blank refl

abbrev connected : World ℕ
connected = connect new_world

abbrev built : World ℕ
built = record connected { stream = rebuild first_graph connected.stream }

abbrev rebuilt : World ℕ
rebuilt = record built { stream = rebuild second_graph built.stream }

abbrev read_once : World ℕ
read_once = read_next 0 no_view rebuilt

abbrev first_view : View ℕ
first_view = apply_message (as_snapshot first_graph) no_view

abbrev read_twice : World ℕ
read_twice = read_next 0 first_view read_once

abbrev second_view : View ℕ
second_view = apply_message (message_for second_graph first_graph) first_view

history : Reach fixed new_world read_twice
unfolding new_world connect rebuild read_next message_for broadcast node_equal
history =
    next
      (next
        (next
          (next (next here (connects new_world (omega arith)))
            (rebuilds connected first_graph refl))
          (rebuilds built second_graph refl))
        (reads rebuilt 0 no_view refl))
      (reads read_once 0 first_view refl)

caught_up_test : Shows fixed second_view read_twice.stream.last_graph
unfolding new_world connect rebuild read_next message_for broadcast node_equal
caught_up_test = caught_up fixed fixed-FloatLaws 0 second_view history refl refl
