-- ===== src/Api/Sessions/Clients.antt =====
-- api.go, `handleStream`: every open channel belongs to a handler that runs.
use pulsebox.Base.{
  ℕ, Bool, true, false, List, [], ◌∷◌, ◌++◌, ◌≡◌, sym, ◌∙◌, arith, ◌==◌, nat_eq, is_some,
  Bool-cases, inl, inr,
}
use pulsebox.Base.Dict.{Distinct, lookup, lookup-put, lookup-delete}
use pulsebox.Base.Float.{Float, FloatLaws}
use pulsebox.Topology.{Graph, empty}
use pulsebox.Collector.Broker.{Broker, Received, value, ended, blocked, receive}
use pulsebox.Collector.Broker.Opens.{
  is_open, is_open-receive, is_open-broadcast, is_open-subscribe, is_open-unsubscribe,
}
use pulsebox.Collector.Stream.{rebuild, message_for, subscribe_stream, unsubscribe_stream}
use pulsebox.Collector.Stream.Reads.{Reach-Follows, new_world-Follows}
use pulsebox.Api.Sessions.{
  Frame, message, ping, Server, ServerStep, builds, opens, diffs, ticks, closes, Serves, starts,
  goes, new_server, return_from, write, open_stream, after_receive, on_diff, on_tick,
}
use pulsebox.Api.Sessions.Simulates.{Serves-Follows}

module _ {F : Type 0} where
  abbrev pub is_running : ℕ → Server F → Bool
  is_running id s = is_some (lookup id s.running)

  -- Every open channel, and every one but that of an id.
  abbrev Owned : Server F → Type 0
  Owned s = (j : ℕ) → is_open j s.stream.broker ≡ true → is_running j s ≡ true

  abbrev OwnedBut : ℕ → Server F → Type 0
  OwnedBut id s =
      (j : ℕ) → (id == j) ≡ false → is_open j s.stream.broker ≡ true → is_running j s ≡ true

  return-Owned : (id : ℕ) (s : Server F) → OwnedBut id s → Owned (return_from id s)
  unfolding return_from unsubscribe_stream
  return-Owned id s h j opened =
      ground (arith, is_open-unsubscribe id j s.stream.broker, lookup-delete id j s.running, h j)

  write-Owned :
      (ok : Bool) (id : ℕ) (frames : List (Frame F)) (f : Frame F) (s : Server F)
      → OwnedBut id s
      → Owned (write ok id frames f s)
  unfolding write
  write-Owned true id frames f s h =
      λ j opened. ground (arith, lookup-put id j (frames ++ f ∷ []) s.running, h j)
  write-Owned false id frames f s h = return-Owned id s h

  open-Owned : (ok : Bool) (s : Server F) → Owned s → Owned (open_stream ok s)
  unfolding open_stream subscribe_stream
  open-Owned ok s h =
      let (stream, snap, id) = subscribe_stream s.stream in
      write-Owned ok id [] (message snap) (record s { stream = stream })
        (λ j other opened. h j (ground (arith, is_open-subscribe j s.stream.broker)))

  received-Owned :
      (ok : Bool) (id : ℕ) (frames : List (Frame F)) (s : Server F) (got : Received F × Broker F)
      → ((j : ℕ) → is_open j got.1 ≡ is_open j s.stream.broker)
      → Owned s
      → Owned (after_receive ok id frames s got)
  unfolding after_receive
  received-Owned ok id frames s (value d, b) kept h =
      write-Owned ok id frames (message d) (record s { stream = record s.stream { broker = b } })
        (λ j other opened. h j (sym (kept j) ∙ opened))
  received-Owned ok id frames s (ended, b) kept h = return-Owned id s (λ j other. h j)
  received-Owned ok id frames s (blocked, b) kept h = h

module _ {F : Type 0} (fl : Float F) where
  rebuild-Owned :
      (g : Graph F) (s : Server F)
      → Distinct s.stream.broker.subs
      → Owned s
      → Owned (record s { stream = rebuild ⦃fl = fl⦄ g s.stream })
  unfolding rebuild
  rebuild-Owned g s dist h j opened =
      let d = message_for ⦃fl = fl⦄ g s.stream.last_graph in
      elim (Bool-cases (empty d)) [
        | inl e ↦ h j (rw (e, rebuild) at opened)
        | inr e ↦ h j (is_open-broadcast d j s.stream.broker dist (rw (e, rebuild) at opened))
      ]

  step-Owned :
      {s t : Server F} → Distinct s.stream.broker.subs → ServerStep fl s t → Owned s → Owned t
  unfolding on_diff on_tick
  step-Owned dist (builds s g built) h = rebuild-Owned g s dist h
  step-Owned dist (opens s ok room) h = open-Owned ok s h
  step-Owned dist (diffs s ok id frames held) h =
      received-Owned ok id frames s (receive id s.stream.broker)
        (λ j. is_open-receive id j s.stream.broker) h
  step-Owned dist (ticks s ok id frames held) h = write-Owned ok id frames ping s (λ j other. h j)
  step-Owned dist (closes s id frames held) h = return-Owned id s (λ j other. h j)

  -- In any history of the server from the start, of fewer than 2^64 subscriptions and of graphs that
  -- carry a time, each open channel of the broker belongs to a handler that runs: however a handler
  -- returns, by a failing write, a client that closes or a channel that was dropped, it leaves none.
  pub open-IsOwned :
      FloatLaws fl
      → {s : Server F} (id : ℕ) → Serves fl new_server s
      → is_open id s.stream.broker ≡ true
      → is_running id s ≡ true
  unfolding lookup new_server
  open-IsOwned laws id h = owned h id
    where
      owned : {s : Server F} → Serves fl new_server s → Owned s
      owned starts = λ j opened. cc
      owned (goes h step) =
          let (views, r, shown) = Serves-Follows fl h in
          step-Owned (Reach-Follows fl laws r (new_world-Follows fl laws)).valid.distinct step
            (owned h)
