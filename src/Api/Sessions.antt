-- ===== src/Api/Sessions.antt =====
-- internal/api/api.go: `handleStream`, with its pings, its failing writes and its returns. A handler
-- runs from the subscription to its return, which unsubscribes by the deferred call. Whether a write
-- succeeds, when the client closes and which case the `select` takes is up to the rest of the system.
pub mod Simulates
pub mod Clients
use pulsebox.Base.{
  ℕ, ◌<◌, Bool, true, false, List, [], ◌∷◌, ◌++◌, Option, none, some, ◌≡◌, if◌then◌else◌, nat_eq,
}
use pulsebox.Base.Dict.{Dict, lookup, put, delete}
use pulsebox.Base.Float.{Float}
use pulsebox.Topology.{Graph, Diff}
use pulsebox.Collector.Broker.{Broker, Received, value, ended, blocked, receive}
use pulsebox.Collector.Stream.{
  Stream, new_stream, rebuild, subscribe_stream, unsubscribe_stream, is_zero_time,
}

-- What is written to the WebSocket.
pub data Frame (F : Type 0) : Type 0 where
  message : Diff F → Frame F
  ping : Frame F

-- The collector's stream and the handlers that run: under the id of its subscription, what each has
-- written so far, oldest first.
pub record Server (F : Type 0) : Type 0 where
  pub stream : Stream F
  pub running : Dict ℕ (List (Frame F))

module _ {F : Type 0} where
  unfoldable pub new_server : Server F
  unfolding new_stream
  new_server = record { stream = new_stream; running = [] }

  -- A return: the deferred calls run, and the handler is gone.
  unfoldable pub return_from : ℕ → Server F → Server F
  unfolding unsubscribe_stream delete
  return_from id s = record {
    stream = unsubscribe_stream id s.stream;
    running = delete id s.running;
  }

  -- A write, after which the handler goes on or returns.
  unfoldable pub write : Bool → ℕ → List (Frame F) → Frame F → Server F → Server F
  unfolding return_from put
  write ok id frames f s =
      if ok then record s { running = put id (frames ++ f ∷ []) s.running } else return_from id s

  -- From the upgrade to the first write, that of the snapshot.
  unfoldable pub open_stream : Bool → Server F → Server F
  unfolding subscribe_stream write
  open_stream ok s =
      let (stream, snap, id) = subscribe_stream s.stream in
      write ok id [] (message snap) (record s { stream = stream })

  after_receive : Bool → ℕ → List (Frame F) → Server F → Received F × Broker F → Server F
  unfolding write return_from
  after_receive ok id frames s (value d, b) =
      write ok id frames (message d) (record s { stream = record s.stream { broker = b } })
  after_receive ok id frames s (ended, b) = return_from id s
  after_receive ok id frames s (blocked, b) = s

  -- `case d, ok := <-diffs`, which waits while the channel is open and empty.
  unfoldable pub on_diff : Bool → ℕ → List (Frame F) → Server F → Server F
  unfolding after_receive receive
  on_diff ok id frames s = after_receive ok id frames s (receive id s.stream.broker)

  -- `case <-ticker.C`
  unfoldable pub on_tick : Bool → ℕ → List (Frame F) → Server F → Server F
  unfolding write
  on_tick ok id frames s = write ok id frames ping s

-- What can happen next. A graph that is built carries the time; fewer than 2^64 clients connect.
pub data ServerStep {F : Type 0} (fl : Float F) : Server F → Server F → Type 0 where
  builds :
      (s : Server F) (g : Graph F)
      → is_zero_time g.updated_at ≡ false
      → ServerStep fl s (record s { stream = rebuild ⦃fl = fl⦄ g s.stream })
  opens :
      (s : Server F) (ok : Bool)
      → s.stream.broker.next < 18446744073709551615
      → ServerStep fl s (open_stream ok s)
  diffs :
      (s : Server F) (ok : Bool) (id : ℕ) (frames : List (Frame F))
      → lookup id s.running ≡ some frames
      → ServerStep fl s (on_diff ok id frames s)
  ticks :
      (s : Server F) (ok : Bool) (id : ℕ) (frames : List (Frame F))
      → lookup id s.running ≡ some frames
      → ServerStep fl s (on_tick ok id frames s)
  closes :
      (s : Server F) (id : ℕ) (frames : List (Frame F))
      → lookup id s.running ≡ some frames
      → ServerStep fl s (return_from id s)

pub data Serves {F : Type 0} (fl : Float F) (s : Server F) : Server F → Type 0 where
  starts : Serves fl s s
  goes : {t u : Server F} → Serves fl s t → ServerStep fl t u → Serves fl s u
