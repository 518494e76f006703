-- ===== src/Collector/Stream/Follows.antt =====
-- graph.go and collector.go: what each client shows once it has read its channel, under `rebuild` and
-- `Subscribe`.
use pulsebox.Base.{
  ℕ, ◌<◌, true, false, List, [], ◌∷◌, ◌++◌, Option, none, some, ◌≡◌, refl, sym, ◌∙◌, arith, nat_eq,
  nat_beq, Bool-cases, inl, inr,
}
use pulsebox.Base.Dict.{lookup, lookup-put}
use pulsebox.Base.Float.{Float, FloatLaws}
use pulsebox.Topology.{Graph, Diff, View, as_snapshot, empty, apply_message}
use pulsebox.Topology.Follow.{Shows, snapshot-Shows}
use pulsebox.Collector.Broker.{send}
use pulsebox.Collector.Broker.Delivery.{sent_to, lookup-broadcast}
use pulsebox.Collector.Broker.Valid.{
  IsValid, subscribe-IsValid, unsubscribe-IsValid, broadcast-IsValid, lookup-unsubscribe,
}
use pulsebox.Collector.Stream.{
  is_zero_time, message_for, rebuild, World, no_view, connect, disconnect,
}
use pulsebox.Collector.Stream.Messages.{IsFresh, message_for-Shows, message_for-empty}

-- The view once all the messages have been applied, the oldest first.
abbrev pub apply_all : {F : Type 0} → List (Diff F) → View F → View F
apply_all [] v = v
apply_all (d ∷ ds) v = apply_all ds (apply_message d v)

apply_all-append :
    {F : Type 0} (ds : List (Diff F)) (d : Diff F) (v : View F)
    → apply_all (ds ++ d ∷ []) v ≡ apply_message d (apply_all ds v)
apply_all-append [] d v = refl
apply_all-append (e ∷ ds) d v = apply_all-append ds d (apply_message e v)

-- With what its channel holds, each client shows the current graph.
pub record Follows {F : Type 0} (fl : Float F) (w : World F) : Type 0 where
  pub valid : IsValid w.stream.broker
  pub fresh : IsFresh w.stream.last_graph
  pub shown :
      (j : ℕ) (buffer : List (Diff F))
      → lookup j w.stream.broker.subs ≡ some buffer
      → (v : View F) × (lookup j w.views ≡ some v)
        × Shows fl (apply_all buffer v) w.stream.last_graph

send-eq :
    {F : Type 0} (d : Diff F) (buffer c : List (Diff F))
    → send d buffer ≡ some c
    → c ≡ buffer ++ d ∷ []
unfolding send
send-eq d buffer c h = ground arith

module _ {F : Type 0} (fl : Float F) (laws : FloatLaws fl) where
  -- The client of a channel shows a graph, once it has read what the channel holds.
  abbrev pub ShownBy : World F → Graph F → ℕ → List (Diff F) → Type 0
  ShownBy w g j buffer =
      (v : View F) × (lookup j w.views ≡ some v) × Shows fl (apply_all buffer v) g

  sent-shown :
      (w : World F) (g : Graph F) (j : ℕ) (c : List (Diff F)) (o : Option (List (Diff F)))
      → Follows fl w
      → lookup j w.stream.broker.subs ≡ o
      → sent_to (message_for ⦃fl = fl⦄ g w.stream.last_graph) o ≡ some c
      → ShownBy w g j c
  sent-shown w g j c none f e h = cc
  sent-shown w g j c (some buffer) f e h =
      let (v, held, sh) = f.shown j buffer e in
      let d = message_for ⦃fl = fl⦄ g w.stream.last_graph in
      (
        v,
        held,
        rw (send-eq d buffer c h, apply_all-append buffer d v)
            (message_for-Shows ⦃fl = fl⦄ laws g w.stream.last_graph (apply_all buffer v) sh),
      )

  quiet-shown :
      (w : World F) (g : Graph F) (j : ℕ) (c : List (Diff F))
      → Follows fl w
      → empty (message_for ⦃fl = fl⦄ g w.stream.last_graph) ≡ true
      → lookup j w.stream.broker.subs ≡ some c
      → ShownBy w g j c
  quiet-shown w g j c f e h =
      let (v, held, sh) = f.shown j c h in
      (v, held, message_for-empty ⦃fl = fl⦄ laws g w.stream.last_graph (apply_all c v) f.fresh e sh)

  pub rebuild-Follows :
      (w : World F) (g : Graph F)
      → is_zero_time g.updated_at ≡ false
      → Follows fl w
      → Follows fl (record w { stream = rebuild ⦃fl = fl⦄ g w.stream })
  unfolding rebuild
  rebuild-Follows w g built f =
      elim (Bool-cases (empty (message_for ⦃fl = fl⦄ g w.stream.last_graph))) [
        | inl e ↦
            rw (e, rebuild)
              (record {
                valid = f.valid;
                fresh = λ z. cc;
                shown = λ j c h. quiet-shown w g j c f e h;
              })
        | inr e ↦
            rw (e, rebuild)
              (record {
                valid = broadcast-IsValid _ w.stream.broker f.valid;
                fresh = λ z. cc;
                shown = λ j c h.
                    sent-shown w g j c (lookup j w.stream.broker.subs) f refl
                      (sym (lookup-broadcast _ w.stream.broker j f.valid.distinct) ∙ h);
              })
      ]

  new-shown :
      (w : World F) (j : ℕ) (c : List (Diff F))
      → Follows fl w
      → lookup j (connect w).stream.broker.subs ≡ some c
      → ShownBy (connect w) w.stream.last_graph j c
  unfolding connect
  new-shown w j c f h =
      let id = w.stream.broker.next in
      let none_yet : List (Diff F) = [] in
      let first = apply_message (as_snapshot w.stream.last_graph) no_view in
      let held = lookup-put id j first w.views in
      let opened = lookup-put id j none_yet w.stream.broker.subs in
      elim (Bool-cases (nat_beq id j)) [
        | inl e ↦ (
          first,
          ground (arith, held),
          let empty_channel : c ≡ [] = ground (arith, opened) in
              rw empty_channel (snapshot-Shows ⦃fl = fl⦄ w.stream.last_graph no_view),
        )
        | inr e ↦
            let (v, had, sh) = f.shown j c (ground (arith, opened)) in (v, ground (arith, held), sh)
      ]

  pub connect-Follows :
      (w : World F)
      → w.stream.broker.next < 18446744073709551615
      → Follows fl w
      → Follows fl (connect w)
  unfolding connect
  connect-Follows w room f = record {
    valid = (subscribe-IsValid w.stream.broker room f.valid).0;
    fresh = f.fresh;
    shown = λ j c h. new-shown w j c f h;
  }

  pub disconnect-Follows : (w : World F) (id : ℕ) → Follows fl w → Follows fl (disconnect id w)
  unfolding disconnect
  disconnect-Follows w id f = record {
    valid = unsubscribe-IsValid id w.stream.broker f.valid;
    fresh = f.fresh;
    shown = λ j c h. f.shown j c (ground (arith, lookup-unsubscribe id j w.stream.broker));
  }
