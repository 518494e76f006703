-- ===== src/Collector/Broker/Opens.antt =====
-- broker.go: which ids have an open channel, as the operations change it.
use pulsebox.Base.{
  ℕ, Bool, true, false, List, [], ◌∷◌, Option, none, some, ◌≡◌, refl, ap, nat_beq, arith,
  if◌then◌else◌, ◌==◌, nat_eq, nat_beq_iff, is_some,
}
use pulsebox.Base.Dict.{Distinct, lookup, lookup-put}
use pulsebox.Topology.{Diff}
use pulsebox.Collector.Broker.{
  Broker, receive, receive_open, receive_closed, subscribe, unsubscribe, broadcast,
}
use pulsebox.Collector.Broker.Delivery.{lookup-broadcast}
use pulsebox.Collector.Broker.Valid.{lookup-unsubscribe}

module _ {F : Type 0} where
  abbrev pub is_open : ℕ → Broker F → Bool
  is_open id b = is_some (lookup id b.subs)

  is_open-receive_closed :
      (id j : ℕ) (o : Option (List (Diff F))) (b : Broker F)
      → is_open j (receive_closed id o b).1 ≡ is_open j b
  unfolding receive_closed
  is_open-receive_closed id j none b = refl
  is_open-receive_closed id j (some []) b = refl
  is_open-receive_closed id j (some (d ∷ rest)) b = refl

  is_open-receive_open :
      (id j : ℕ) (o : Option (List (Diff F))) (b : Broker F)
      → lookup id b.subs ≡ o
      → is_open j (receive_open id o b).1 ≡ is_open j b
  unfolding receive_open
  is_open-receive_open id j none b e = is_open-receive_closed id j (lookup id b.closed) b
  is_open-receive_open id j (some []) b e = refl
  is_open-receive_open id j (some (d ∷ rest)) b e = ground (
    arith,
    lookup-put id j rest b.subs,
    λ (p : nat_beq id j ≡ true). ap (λ z. lookup z b.subs) ((nat_beq_iff id j).0 p),
  )

  pub is_open-receive : (id j : ℕ) (b : Broker F) → is_open j (receive id b).1 ≡ is_open j b
  unfolding receive
  is_open-receive id j b = is_open-receive_open id j (lookup id b.subs) b refl

  -- A broadcast opens no channel.
  pub is_open-broadcast :
      (d : Diff F) (j : ℕ) (b : Broker F)
      → Distinct b.subs
      → is_open j (broadcast d b) ≡ true
      → is_open j b ≡ true
  is_open-broadcast d j b dist h = ground (arith, lookup-broadcast d b j dist)

  pub is_open-subscribe :
      (j : ℕ) (b : Broker F)
      → is_open j (subscribe b).0 ≡ (if (subscribe b).1 == j then true else is_open j b)
  unfolding subscribe
  is_open-subscribe j b = ground (arith, lookup-put b.next j [] b.subs)

  pub is_open-unsubscribe :
      (id j : ℕ) (b : Broker F)
      → is_open j (unsubscribe id b) ≡ (if id == j then false else is_open j b)
  is_open-unsubscribe id j b = ground (arith, lookup-unsubscribe id j b)
