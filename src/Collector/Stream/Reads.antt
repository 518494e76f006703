-- ===== src/Collector/Stream/Reads.antt =====
-- api.go: a client of `handleStream` that reads its channel, and the histories of the whole stream.
use pulsebox.Base.{
  ℕ, false, List, [], ◌∷◌, Option, none, some, ◌≡◌, refl, ap, arith, nat_eq, nat_beq, nat_beq_iff,
  Bool-cases, inl, inr,
}
use pulsebox.Base.Dict.{lookup, put, lookup-put}
use pulsebox.Base.Float.{Float, FloatLaws}
use pulsebox.Topology.{Graph, Diff, View, apply_message}
use pulsebox.Topology.Follow.{Shows}
use pulsebox.Collector.Broker.{Broker, value, receive, new_broker}
use pulsebox.Collector.Broker.Valid.{new_broker-IsValid, taken-IsValid}
use pulsebox.Collector.Stream.{
  World, new_world, read_next, after_read, Step, rebuilds, connects, reads, disconnects, Reach,
  here, next,
}
use pulsebox.Collector.Stream.Follows.{
  Follows, ShownBy, rebuild-Follows, connect-Follows, disconnect-Follows,
}

-- A read that gives a value: the broker has given it, and the client has applied it.
pub read_next-value :
    {F : Type 0} (id : ℕ) (v : View F) (w : World F) (d : Diff F) (b : Broker F)
    → receive id w.stream.broker ≡ (value d, b)
    → read_next id v w ≡ record {
      stream = record w.stream { broker = b };
      views = put id (apply_message d v) w.views;
    }
unfolding read_next after_read
read_next-value id v w d b e = ap (after_read id v w) e

module _ {F : Type 0} (fl : Float F) (laws : FloatLaws fl) where
  -- A view that changes under an id without a channel matters to no channel.
  other-shown :
      (w : World F) (g : Graph F) (id j : ℕ) (u : View F) (c : List (Diff F))
      → nat_beq id j ≡ false
      → ShownBy fl laws w g j c
      → ShownBy fl laws (record w { views = put id u w.views }) g j c
  other-shown w g id j u c e (v, held, sh) = (v, ground (arith, lookup-put id j u w.views), sh)

  taken-shown :
      (w : World F) (id : ℕ) (v : View F) (d : Diff F) (rest : List (Diff F)) (j : ℕ)
      (c : List (Diff F))
      → lookup id w.views ≡ some v
      → Follows fl w
      → lookup id w.stream.broker.subs ≡ some (d ∷ rest)
      → lookup j (put id rest w.stream.broker.subs) ≡ some c
      → ShownBy fl laws
          (record w { views = put id (apply_message d v) w.views })
          w.stream.last_graph
          j
          c
  taken-shown w id v d rest j c held f e h =
      let kept = lookup-put id j rest w.stream.broker.subs in
      elim (Bool-cases (nat_beq id j)) [
        | inl same ↦
            let (u, had, sh) = f.shown id (d ∷ rest) e in
            let u_is_v : u ≡ v = ground arith in
            let c_is_rest : c ≡ rest = ground (arith, kept) in
            (
              apply_message d v,
              ground (arith, lookup-put id j (apply_message d v) w.views),
              rw (c_is_rest, ← u_is_v) sh,
            )
        | inr other ↦
            other-shown w w.stream.last_graph id j (apply_message d v) c other
              (f.shown j c (ground (arith, kept)))
      ]

  drained-shown :
      (w : World F) (id : ℕ) (u : View F) (j : ℕ) (c : List (Diff F))
      → Follows fl w
      → lookup id w.stream.broker.subs ≡ none
      → lookup j w.stream.broker.subs ≡ some c
      → ShownBy fl laws (record w { views = put id u w.views }) w.stream.last_graph j c
  drained-shown w id u j c f e h = elim (Bool-cases (nat_beq id j)) [
    | inl same ↦ absurd (cc (e, h, (nat_beq_iff id j).0 same))
    | inr other ↦ other-shown w w.stream.last_graph id j u c other (f.shown j c h)
  ]

  read-closed :
      (w : World F) (id : ℕ) (v : View F) (o : Option (List (Diff F)))
      → Follows fl w
      → lookup id w.stream.broker.subs ≡ none
      → lookup id w.stream.broker.closed ≡ o
      → Follows fl (read_next id v w)
  unfolding read_next
  read-closed w id v none f e e' = rw (e, e', read_next) f
  read-closed w id v (some []) f e e' = rw (e, e', read_next) f
  read-closed w id v (some (d ∷ rest)) f e e' =
      rw (e, e', read_next)
        (record {
          valid = record { distinct = f.valid.distinct; bounded = f.valid.bounded };
          fresh = f.fresh;
          shown = λ j c h. drained-shown w id (apply_message d v) j c f e h;
        })

  read-open :
      (w : World F) (id : ℕ) (v : View F) (o : Option (List (Diff F)))
      → lookup id w.views ≡ some v
      → Follows fl w
      → lookup id w.stream.broker.subs ≡ o
      → Follows fl (read_next id v w)
  unfolding read_next
  read-open w id v none held f e = read-closed w id v (lookup id w.stream.broker.closed) f e refl
  read-open w id v (some []) held f e = rw (e, read_next) f
  read-open w id v (some (d ∷ rest)) held f e =
      rw (e, read_next)
        (record {
          valid = taken-IsValid id d rest w.stream.broker f.valid e;
          fresh = f.fresh;
          shown = λ j c h. taken-shown w id v d rest j c held f e h;
        })

  Step-Follows : {w u : World F} → Step fl w u → Follows fl w → Follows fl u
  Step-Follows (rebuilds w g built) f = rebuild-Follows fl laws w g built f
  Step-Follows (connects w room) f = connect-Follows fl laws w room f
  Step-Follows (reads w id v held) f = read-open w id v (lookup id w.stream.broker.subs) held f refl
  Step-Follows (disconnects w id) f = disconnect-Follows fl laws w id f

  pub new_world-Follows : Follows fl new_world
  unfolding new_world new_broker lookup
  new_world-Follows = record {
    valid = unfold new_broker in new_broker-IsValid;
    fresh = λ z. (refl, refl);
    shown = λ j c h. cc;
  }

  pub Reach-Follows : {w u : World F} → Reach fl w u → Follows fl w → Follows fl u
  Reach-Follows here f = f
  Reach-Follows (next r s) f = Step-Follows s (Reach-Follows r f)

  -- In any history from the start, of fewer than 2^64 subscriptions and of graphs that carry a time, a
  -- client that is subscribed and has read all that its channel holds shows the current graph: its
  -- edges under their IDs, and its nodes up to the metadata.
  pub caught_up :
      {w : World F} (id : ℕ) (v : View F)
      → Reach fl new_world w
      → lookup id w.stream.broker.subs ≡ some []
      → lookup id w.views ≡ some v
      → Shows fl v w.stream.last_graph
  caught_up {w} id v r e held =
      let (u, had, sh) = (Reach-Follows r new_world-Follows).shown id [] e in
      let u_is_v : u ≡ v = ground arith in rw (← u_is_v) sh
