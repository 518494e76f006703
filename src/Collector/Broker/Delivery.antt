-- ===== src/Collector/Broker/Delivery.antt =====
-- broker.go: what `broadcast` does to each subscriber.
use pulsebox.Base.{
  ℕ, true, List, [], ◌∷◌, Option, none, some, ◌≡◌, refl, arith, if◌then◌else◌, nat_eq, nat_beq,
  nat_beq_iff, ap, ◌==◌, Option-cases, inl, inr, ltb, length, ◌++◌,
}
use pulsebox.Base.Dict.{
  Dict, lookup, Distinct, lookup-put, lookup-delete, put-Distinct, delete-Distinct,
}
use pulsebox.Topology.{Diff}
use pulsebox.Collector.Broker.{Broker, drop_sub, send, deliver, deliver_all, broadcast}

-- What `send` makes of a subscriber's channel.
abbrev pub sent_to : {F : Type 0} → Diff F → Option (List (Diff F)) → Option (List (Diff F))
sent_to d none = none
sent_to d (some buffer) = send d buffer

-- The open channel of a subscriber after a broadcast, given the one before: a channel with room takes
-- the diff at its end, and a full one is closed.
abbrev pub channel_after : {F : Type 0} → Diff F → Option (List (Diff F)) → Option (List (Diff F))
channel_after d none = none
channel_after d (some buffer) = if ltb (length buffer) 32 then some (buffer ++ d ∷ []) else none

-- The closed channel under an id, given the open one and the closed one before: a full channel keeps
-- the values it holds.
abbrev pub closed_after :
    {F : Type 0} → Option (List (Diff F)) → Option (List (Diff F)) → Option (List (Diff F))
closed_after none old = old
closed_after (some buffer) old = if ltb (length buffer) 32 then old else some buffer

module _ {F : Type 0} where
  lookup-deliver :
      (d : Diff F) (id j : ℕ) (buffer : List (Diff F)) (b : Broker F)
      → lookup j (deliver d id buffer b).subs ≡ (if id == j then send d buffer else lookup j b.subs)
  unfolding deliver
  lookup-deliver d id j buffer b = elim (Option-cases (send d buffer)) [
    | inl e ↦ rw (e, deliver) (lookup-delete id j b.subs)
    | inr (buffer', e) ↦ rw (e, deliver) (lookup-put id j buffer' b.subs)
  ]

  lookup-deliver_all :
      (d : Diff F) (es : Dict ℕ (List (Diff F))) (b : Broker F) (j : ℕ)
      → Distinct es
      → lookup j (deliver_all d es b).subs
        ≡ (elim (lookup j es) [ none ↦ lookup j b.subs | some buffer ↦ send d buffer ])
  unfolding deliver_all lookup
  lookup-deliver_all d [] b j dist = refl
  lookup-deliver_all d ((id, buffer) ∷ rest) b j dist = ground (
    arith,
    lookup-deliver_all d rest (deliver d id buffer b) j dist.1,
    lookup-deliver d id j buffer b,
    λ (e : nat_beq id j ≡ true). ap (λ z. lookup z rest) ((nat_beq_iff id j).0 e),
  )

  pub lookup-broadcast :
      (d : Diff F) (b : Broker F) (j : ℕ)
      → Distinct b.subs
      → lookup j (broadcast d b).subs ≡ sent_to d (lookup j b.subs)
  unfolding broadcast
  lookup-broadcast d b j dist = ground (arith, lookup-deliver_all d b.subs b j dist)

  lookup-closed-deliver :
      (d : Diff F) (id j : ℕ) (buffer : List (Diff F)) (b : Broker F)
      → lookup j (deliver d id buffer b).closed ≡ (
          if id == j
          then elim (send d buffer) [ none ↦ some buffer | some buffer' ↦ lookup j b.closed ]
          else lookup j b.closed)
  unfolding deliver drop_sub
  lookup-closed-deliver d id j buffer b = elim (Option-cases (send d buffer)) [
    | inl e ↦ rw (e, deliver) (lookup-put id j buffer b.closed)
    | inr (buffer', e) ↦ rw (e, deliver) (ground arith)
  ]

  lookup-closed-deliver_all :
      (d : Diff F) (es : Dict ℕ (List (Diff F))) (b : Broker F) (j : ℕ)
      → Distinct es
      → lookup j (deliver_all d es b).closed ≡ (elim (lookup j es) [
        | none ↦ lookup j b.closed
        | some buffer ↦ elim (send d buffer) [
          | none ↦ some buffer
          | some buffer' ↦ lookup j b.closed
        ]
      ])
  unfolding deliver_all lookup
  lookup-closed-deliver_all d [] b j dist = refl
  lookup-closed-deliver_all d ((id, buffer) ∷ rest) b j dist = ground (
    arith,
    lookup-closed-deliver_all d rest (deliver d id buffer b) j dist.1,
    lookup-closed-deliver d id j buffer b,
    λ (e : nat_beq id j ≡ true). ap (λ z. lookup z rest) ((nat_beq_iff id j).0 e),
  )

  pub deliver_all-Distinct :
      (d : Diff F) (es : Dict ℕ (List (Diff F))) (b : Broker F)
      → Distinct b.subs
      → Distinct (deliver_all d es b).subs
  unfolding deliver_all deliver drop_sub
  deliver_all-Distinct d [] b h = h
  deliver_all-Distinct d ((id, buffer) ∷ rest) b h =
      deliver_all-Distinct d rest (deliver d id buffer b) (elim (Option-cases (send d buffer)) [
        | inl e ↦ rw (e, deliver) (delete-Distinct id b.subs h)
        | inr (buffer', e) ↦ rw (e, deliver) (put-Distinct id buffer' b.subs h)
      ])

  -- If no id stands twice, the channel of a subscriber that a broadcast drops keeps the values it
  -- holds, and the broadcast leaves the closed channel under any other subscriber's id.
  pub lookup-closed-broadcast :
      (d : Diff F) (b : Broker F) (j : ℕ) (buffer : List (Diff F))
      → Distinct b.subs
      → lookup j b.subs ≡ some buffer
      → lookup j (broadcast d b).closed
        ≡ (elim (send d buffer) [ none ↦ some buffer | some buffer' ↦ lookup j b.closed ])
  unfolding broadcast
  lookup-closed-broadcast d b j buffer dist h =
      ground (arith, lookup-closed-deliver_all d b.subs b j dist)

  -- If no id stands twice, a broadcast puts the diff at the end of each channel that holds fewer than
  -- 32 values, and closes a full one, from which its 32 values can still be read.
  pub broadcast_lem :
      (d : Diff F) (b : Broker F) (j : ℕ)
      → Distinct b.subs
      → (lookup j (broadcast d b).subs ≡ channel_after d (lookup j b.subs))
        × (lookup j (broadcast d b).closed ≡ closed_after (lookup j b.subs) (lookup j b.closed))
  unfolding broadcast send
  broadcast_lem d b j dist =
      ground
        (arith, lookup-deliver_all d b.subs b j dist, lookup-closed-deliver_all d b.subs b j dist)
