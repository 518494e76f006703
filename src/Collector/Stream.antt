-- ===== src/Collector/Stream.antt =====
-- The collector's graph and its subscribers: `rebuild` of internal/collector/graph.go, `Subscribe`
-- and `Snapshot` of internal/collector/collector.go, and the writes of `handleStream` of
-- internal/api/api.go. The collector's mutex makes `rebuild` (after `buildGraph`) and `Subscribe`
-- one step each; the rest of the system chooses the order of the steps.
pub mod Messages
pub mod Follows
pub mod Reads
use pulsebox.Base.{
  ℕ, ◌<◌, Bool, true, false, List, [], ◌∷◌, Option, none, some, ◌≡◌, ◌≢◌, if◌then◌else◌, nat_eq,
}
use pulsebox.Base.Int.{ℤ, pos, Time, eqb_ℤ}
use pulsebox.Base.Dict.{Dict, lookup, put}
use pulsebox.Base.Float.{Float}
use pulsebox.Topology.{Graph, Diff, View, as_snapshot, empty, diff_against, apply_message}
use pulsebox.Collector.Broker.{
  Broker, new_broker, subscribe, unsubscribe, broadcast, Received, value, ended, blocked, receive,
}

pub record Stream (F : Type 0) : Type 0 where
  pub last_graph : Graph F
  pub broker : Broker F

-- `t.IsZero()`
abbrev pub is_zero_time : Time → Bool
is_zero_time t = eqb_ℤ t (pos 0)

abbrev pub no_graph : {F : Type 0} → Graph F
no_graph = record { nodes = []; edges = []; updated_at = pos 0 }

module _ {F : Type 0} where
  unfoldable pub new_stream : Stream F
  unfolding new_broker
  new_stream = record { last_graph = no_graph; broker = new_broker }

  -- `Snapshot`
  unfoldable pub snapshot : Stream F → Graph F
  snapshot s = s.last_graph

  -- `Subscribe`: the snapshot to send first, and the id whose channel is returned.
  unfoldable pub subscribe_stream : Stream F → Stream F × Diff F × ℕ
  unfolding subscribe as_snapshot
  subscribe_stream s =
      let (b, id) = subscribe s.broker in (record s { broker = b }, as_snapshot s.last_graph, id)

  unfoldable pub unsubscribe_stream : ℕ → Stream F → Stream F
  unfolding unsubscribe
  unsubscribe_stream id s = record s { broker = unsubscribe id s.broker }

module _ {F : Type 0} ⦃fl : Float F⦄ where
  -- The message that `rebuild` makes of the old graph and the new one.
  unfoldable pub message_for : Graph F → Graph F → Diff F
  unfolding as_snapshot diff_against
  message_for g prev = if is_zero_time prev.updated_at then as_snapshot g else diff_against g prev

  -- `rebuild`, from the graph that `buildGraph` returns.
  unfoldable pub rebuild : Graph F → Stream F → Stream F
  unfolding message_for empty broadcast
  rebuild g s =
      let d = message_for g s.last_graph in
      if empty d
      then record s { last_graph = g }
      else record { last_graph = g; broker = broadcast d s.broker }

abbrev pub no_view : {F : Type 0} → View F
no_view = record { nodes = []; edges = [] }

-- The collector with its clients: each client's maps, under the id of its subscription.
pub record World (F : Type 0) : Type 0 where
  pub stream : Stream F
  pub views : Dict ℕ (View F)

module _ {F : Type 0} where
  unfoldable pub new_world : World F
  unfolding new_stream
  new_world = record { stream = new_stream; views = [] }

  -- `handleStream` subscribes and writes the snapshot before any diff.
  unfoldable pub connect : World F → World F
  unfolding subscribe_stream apply_message
  connect w =
      let (s, snap, id) = subscribe_stream w.stream in
      record { stream = s; views = put id (apply_message snap no_view) w.views }

  after_read : ℕ → View F → World F → Received F × Broker F → World F
  after_read id v w (value d, b) = record {
    stream = record w.stream { broker = b };
    views = put id (apply_message d v) w.views;
  }
  after_read id v w (ended, b) = w
  after_read id v w (blocked, b) = w

  -- `d, ok := <-diffs` and the write of d.
  unfoldable pub read_next : ℕ → View F → World F → World F
  unfolding receive apply_message after_read
  read_next id v w = after_read id v w (receive id w.stream.broker)

  unfoldable pub disconnect : ℕ → World F → World F
  unfolding unsubscribe_stream
  disconnect id w = record w { stream = unsubscribe_stream id w.stream }

-- What can happen next. A graph that is built carries the time; fewer than 2^64 clients connect.
pub data Step {F : Type 0} (fl : Float F) : World F → World F → Type 0 where
  rebuilds :
      (w : World F) (g : Graph F)
      → is_zero_time g.updated_at ≡ false
      → Step fl w (record w { stream = rebuild ⦃fl = fl⦄ g w.stream })
  connects : (w : World F) → w.stream.broker.next < 18446744073709551615 → Step fl w (connect w)
  reads :
      (w : World F) (id : ℕ) (v : View F)
      → lookup id w.views ≡ some v
      → Step fl w (read_next id v w)
  disconnects : (w : World F) (id : ℕ) → Step fl w (disconnect id w)

pub data Reach {F : Type 0} (fl : Float F) (s : World F) : World F → Type 0 where
  here : Reach fl s s
  next : {t u : World F} → Reach fl s t → Step fl t u → Reach fl s u
