-- ===== src/Api/Sessions/Simulates.antt =====
-- api.go, `handleStream`: the handlers that run are clients of the stream, and what they have written
-- is what the clients show.
use pulsebox.Base.{
  ℕ, ◌<◌, Bool, true, false, List, [], ◌∷◌, ◌++◌, some, ◌≡◌, refl, subst, arith, ◌==◌, nat_eq,
  nat_beq_iff, Bool-cases, inl, inr,
}
use pulsebox.Base.Dict.{Dict, lookup, put, lookup-put, lookup-delete}
use pulsebox.Base.Float.{Float, FloatLaws}
use pulsebox.Topology.{View, apply_message}
use pulsebox.Topology.Follow.{Shows}
use pulsebox.Collector.Broker.{Broker, Received, value, ended, blocked, receive}
use pulsebox.Collector.Stream.{
  World, rebuilds, connects, reads, disconnects, Reach, new_world, no_view, connect, here, next,
  disconnect, subscribe_stream,
}
use pulsebox.Collector.Stream.Reads.{read_next-value, caught_up}
use pulsebox.Api.Sessions.{
  Frame, message, ping, Server, ServerStep, builds, opens, diffs, ticks, closes, Serves, starts,
  goes, new_server, return_from, write, open_stream, after_receive, on_diff, on_tick,
}

-- What a client shows after the frames, which it applies in order.
unfoldable pub shown_after : {F : Type 0} → List (Frame F) → View F → View F
unfolding apply_message
shown_after [] v = v
shown_after (message d ∷ rest) v = shown_after rest (apply_message d v)
shown_after (ping ∷ rest) v = shown_after rest v

shown-append :
    {F : Type 0} (frames : List (Frame F)) (f : Frame F) (v : View F)
    → shown_after (frames ++ f ∷ []) v ≡ shown_after (f ∷ []) (shown_after frames v)
unfolding shown_after
shown-append [] f v = refl
shown-append (message d ∷ rest) f v = shown-append rest f (apply_message d v)
shown-append (ping ∷ rest) f v = shown-append rest f v

module _ {F : Type 0} where
  abbrev pub world : Server F → Dict ℕ (View F) → World F
  world s views = record { stream = s.stream; views = views }

  -- The views have what each handler that runs has shown its client.
  abbrev pub AreShown : Dict ℕ (View F) → Server F → Type 0
  AreShown views s =
      (id : ℕ) (frames : List (Frame F))
      → lookup id s.running ≡ some frames
      → lookup id views ≡ some (shown_after frames no_view)

  -- The same but for one handler.
  abbrev AreShownBut : Dict ℕ (View F) → Server F → ℕ → Type 0
  AreShownBut views s id =
      (j : ℕ) (frames : List (Frame F))
      → (id == j) ≡ false
      → lookup j s.running ≡ some frames
      → lookup j views ≡ some (shown_after frames no_view)

  put-AreShown :
      (views : Dict ℕ (View F)) (s : Server F) (id : ℕ) (frames : List (Frame F))
      → AreShownBut views s id
      → lookup id views ≡ some (shown_after frames no_view)
      → AreShown views (record s { running = put id frames s.running })
  put-AreShown views s id frames others mine j sent h = elim (Bool-cases (id == j)) [
    | inl e ↦
        let same : frames ≡ sent = ground (arith, lookup-put id j frames s.running) in
        rw (← (nat_beq_iff id j).0 e, ← same) mine
    | inr e ↦
        let kept : lookup j s.running ≡ some sent =
          ground (arith, lookup-put id j frames s.running) in
        others j sent e kept
  ]

  delete-AreShown :
      (views : Dict ℕ (View F)) (s : Server F) (id : ℕ)
      → AreShownBut views s id
      → AreShown views (return_from id s)
  unfolding return_from
  delete-AreShown views s id others j frames h = elim (Bool-cases (id == j)) [
    | inl e ↦ absurd (ground (arith, lookup-delete id j s.running))
    | inr e ↦
        let kept : lookup j s.running ≡ some frames =
          ground (arith, lookup-delete id j s.running) in
        others j frames e kept
  ]

  -- A history of the stream that ends with the server's stream and the views of its clients.
  abbrev pub Follows : Float F → Server F → Type 0
  Follows fl s = (views : Dict ℕ (View F)) × Reach fl new_world (world s views) × AreShown views s

  return-Follows :
      (fl : Float F) (views : Dict ℕ (View F)) (s : Server F) (id : ℕ)
      → Reach fl new_world (world s views)
      → AreShownBut views s id
      → Follows fl (return_from id s)
  unfolding return_from disconnect
  return-Follows fl views s id r others =
      (views, next r (disconnects (world s views) id), delete-AreShown views s id others)

  write-Follows :
      (fl : Float F) (views : Dict ℕ (View F)) (s : Server F) (ok : Bool) (id : ℕ)
      (frames : List (Frame F)) (f : Frame F)
      → Reach fl new_world (world s views)
      → AreShownBut views s id
      → lookup id views ≡ some (shown_after (frames ++ f ∷ []) no_view)
      → Follows fl (write ok id frames f s)
  unfolding write
  write-Follows fl views s true id frames f r others mine =
      (views, r, put-AreShown views s id (frames ++ f ∷ []) others mine)
  write-Follows fl views s false id frames f r others mine = return-Follows fl views s id r others

  put-others :
      (views : Dict ℕ (View F)) (s : Server F) (id : ℕ) (v : View F)
      → AreShown views s
      → AreShownBut (put id v views) s id
  put-others views s id v shown j frames other h =
      ground (arith, lookup-put id j v views, shown j frames h)

  open-Follows :
      (fl : Float F) (views : Dict ℕ (View F)) (s : Server F) (ok : Bool)
      → s.stream.broker.next < 18446744073709551615
      → Reach fl new_world (world s views)
      → AreShown views s
      → Follows fl (open_stream ok s)
  unfolding open_stream connect shown_after
  open-Follows fl views s ok room r shown =
      let (stream, snap, id) = subscribe_stream s.stream in
      let v = apply_message snap no_view in
      write-Follows fl (put id v views) (record s { stream = stream }) ok id [] (message snap)
        (next r (connects (world s views) room)) (put-others views s id v shown)
        (ground (arith, lookup-put id id v views))

  tick-Follows :
      (fl : Float F) (views : Dict ℕ (View F)) (s : Server F) (ok : Bool) (id : ℕ)
      (frames : List (Frame F))
      → lookup id s.running ≡ some frames
      → Reach fl new_world (world s views)
      → AreShown views s
      → Follows fl (on_tick ok id frames s)
  unfolding on_tick shown_after
  tick-Follows fl views s ok id frames held r shown =
      write-Follows fl views s ok id frames ping r (λ j sent e h. shown j sent h)
        (rw (shown-append frames ping no_view) (shown id frames held))

  -- The broker of the world does what the server's does: a value is applied by the client, and
  -- the others are as they were.
  diff-Follows :
      (fl : Float F) (views : Dict ℕ (View F)) (s : Server F) (ok : Bool) (id : ℕ)
      (frames : List (Frame F)) (got : Received F × Broker F)
      → receive id s.stream.broker ≡ got
      → lookup id s.running ≡ some frames
      → Reach fl new_world (world s views)
      → AreShown views s
      → Follows fl (after_receive ok id frames s got)
  unfolding after_receive shown_after
  diff-Follows fl views s ok id frames (value d, b) e held r shown =
      let v = shown_after frames no_view in
      write-Follows fl (put id (apply_message d v) views)
        (record s { stream = record s.stream { broker = b } }) ok id frames (message d)
        (subst (Reach fl new_world) (read_next-value id v (world s views) d b e)
          (next r (reads (world s views) id v (shown id frames held))))
        (put-others views s id (apply_message d v) shown)
        (rw (shown-append frames (message d) no_view)
          (ground (arith, lookup-put id id (apply_message d v) views)))
  diff-Follows fl views s ok id frames (ended, b) e held r shown =
      return-Follows fl views s id r (λ j sent o h. shown j sent h)
  diff-Follows fl views s ok id frames (blocked, b) e held r shown = (views, r, shown)

  step-Follows : (fl : Float F) {s t : Server F} → ServerStep fl s t → Follows fl s → Follows fl t
  unfolding on_diff
  step-Follows fl (builds s g built) (views, r, shown) =
      (views, next r (rebuilds (world s views) g built), shown)
  step-Follows fl (opens s ok room) (views, r, shown) = open-Follows fl views s ok room r shown
  step-Follows fl (diffs s ok id frames held) (views, r, shown) =
      diff-Follows fl views s ok id frames (receive id s.stream.broker) refl held r shown
  step-Follows fl (ticks s ok id frames held) (views, r, shown) =
      tick-Follows fl views s ok id frames held r shown
  step-Follows fl (closes s id frames held) (views, r, shown) =
      return-Follows fl views s id r (λ j sent o h. shown j sent h)

  pub Serves-Follows : (fl : Float F) {s : Server F} → Serves fl new_server s → Follows fl s
  unfolding new_server new_world lookup
  Serves-Follows fl starts = ([], here, λ id frames h. cc)
  Serves-Follows fl (goes h s) = step-Follows fl s (Serves-Follows fl h)

  -- In any history of the server from the start, with writes that fail, pings and clients that
  -- close, of fewer than 2^64 subscriptions and of graphs that carry a time: what a handler that runs
  -- has written shows the current graph, its edges under their IDs and its nodes up to the metadata,
  -- once its channel is open and empty.
  pub written-Shows :
      (fl : Float F)
      → FloatLaws fl
      → {s : Server F} (id : ℕ) (frames : List (Frame F)) → Serves fl new_server s
      → lookup id s.stream.broker.subs ≡ some []
      → lookup id s.running ≡ some frames
      → Shows fl (shown_after frames no_view) s.stream.last_graph
  written-Shows fl laws {s} id frames h empty held =
      let (views, r, shown) = Serves-Follows fl h in
      caught_up fl laws id (shown_after frames no_view) r empty (shown id frames held)
