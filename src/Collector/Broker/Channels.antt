-- ===== src/Collector/Broker/Channels.antt =====
-- broker.go: what the operations do to the channel of one subscriber, and to the validity of the broker.
use pulsebox.Base.{
  ℕ, true, List, [], ◌∷◌, ◌++◌, Option, none, some, ◌≡◌, refl, arith, if◌then◌else◌, nat_eq,
  nat_beq, nat_beq_iff, ap, ◌==◌, Option-cases, inl, inr,
}
use pulsebox.Base.Dict.{Dict, lookup, lookup-put}
use pulsebox.Topology.{Diff}
use pulsebox.Collector.Broker.{
  Broker, unsubscribe, drop_sub, Received, value, ended, blocked, receive, receive_open,
  receive_closed,
}
use pulsebox.Collector.Broker.Valid.{IsValid, taken-IsValid}

lookup-same : {V : Type 0} (i j : ℕ) (m : Dict ℕ V) → nat_beq i j ≡ true → lookup i m ≡ lookup j m
lookup-same i j m e = ap (λ k. lookup k m) ((nat_beq_iff i j).0 e)

module _ {F : Type 0} where
  -- The closed channel of a subscriber that may leave, given its open channel and the closed one before.
  abbrev pub closed_by : Option (List (Diff F)) → Option (List (Diff F)) → Option (List (Diff F))
  closed_by none old = old
  closed_by (some buffer) old = some buffer

  pub lookup-closed-unsubscribe :
      (id j : ℕ) (b : Broker F)
      → lookup j (unsubscribe id b).closed
        ≡ (if id == j then closed_by (lookup j b.subs) (lookup j b.closed) else lookup j b.closed)
  unfolding unsubscribe drop_sub
  lookup-closed-unsubscribe id j b = elim (Option-cases (lookup id b.subs)) [
    | inl e ↦ rw (e, unsubscribe) (ground (arith, e, lookup-same id j b.subs))
    | inr (buffer, e) ↦
        rw (e, unsubscribe)
          (ground (arith, e, lookup-put id j buffer b.closed, lookup-same id j b.subs))
  ]

  pub next-unsubscribe : (id : ℕ) (b : Broker F) → (unsubscribe id b).next ≡ b.next
  unfolding unsubscribe drop_sub
  next-unsubscribe id b = elim (Option-cases (lookup id b.subs)) [
    | inl e ↦ rw (e, unsubscribe) refl
    | inr (buffer, e) ↦ rw (e, unsubscribe) refl
  ]

  -- What is left of a channel when its subscriber has read it once.
  abbrev pub rest_of : Option (List (Diff F)) → Option (List (Diff F))
  rest_of none = none
  rest_of (some []) = some []
  rest_of (some (d ∷ rest)) = some rest

  -- The values with one more, if one has been read.
  abbrev pub taken : Received F → List (Diff F) → List (Diff F)
  taken (value d) got = got ++ d ∷ []
  taken ended got = got
  taken blocked got = got

  -- What a subscriber reads from its channel.
  abbrev pub head_of :
      Option (List (Diff F)) → Option (List (Diff F)) → List (Diff F) → List (Diff F)
  head_of none none got = got
  head_of none (some []) got = got
  head_of none (some (d ∷ rest)) got = got ++ d ∷ []
  head_of (some []) old got = got
  head_of (some (d ∷ rest)) old got = got ++ d ∷ []

  -- The closed channel after a read, which takes from it if there is no open one.
  abbrev pub drained_by : Option (List (Diff F)) → Option (List (Diff F)) → Option (List (Diff F))
  drained_by none old = rest_of old
  drained_by (some buffer) old = old

  -- A read by `id` as the subscriber `j` sees it.
  pub record Reads (id j : ℕ) (b : Broker F) (r : Received F × Broker F) : Type 0 where
    pub subs : lookup j r.1.subs ≡ (if id == j then rest_of (lookup j b.subs) else lookup j b.subs)
    pub closed :
        lookup j r.1.closed
        ≡ (if id == j then drained_by (lookup j b.subs) (lookup j b.closed) else lookup j b.closed)
    pub got :
        (id ≡ j)
        → (got : List (Diff F)) → taken r.0 got ≡ head_of (lookup j b.subs) (lookup j b.closed) got
    pub next : r.1.next ≡ b.next
    pub valid : IsValid b → IsValid r.1

  receive_closed-Reads :
      (id j : ℕ) (o : Option (List (Diff F))) (b : Broker F)
      → lookup id b.subs ≡ none
      → lookup id b.closed ≡ o
      → Reads id j b (receive_closed id o b)
  unfolding receive_closed
  receive_closed-Reads id j none b n e = record {
    subs = ground (arith, n, lookup-same id j b.subs);
    closed = ground (arith, n, e, lookup-same id j b.subs, lookup-same id j b.closed);
    got = λ p g. rw (← p, n, e) refl;
    next = refl;
    valid = λ v. v;
  }
  receive_closed-Reads id j (some []) b n e = record {
    subs = ground (arith, n, lookup-same id j b.subs);
    closed = ground (arith, n, e, lookup-same id j b.subs, lookup-same id j b.closed);
    got = λ p g. rw (← p, n, e) refl;
    next = refl;
    valid = λ v. v;
  }
  receive_closed-Reads id j (some (d ∷ rest)) b n e = record {
    subs = ground (arith, n, lookup-same id j b.subs);
    closed = ground (
      arith,
      n,
      e,
      lookup-put id j rest b.closed,
      lookup-same id j b.subs,
      lookup-same id j b.closed,
    );
    got = λ p g. rw (← p, n, e) refl;
    next = refl;
    valid = λ v. record { distinct = v.distinct; bounded = v.bounded };
  }

  receive_open-Reads :
      (id j : ℕ) (o : Option (List (Diff F))) (b : Broker F)
      → lookup id b.subs ≡ o
      → Reads id j b (receive_open id o b)
  unfolding receive_open
  receive_open-Reads id j none b e = receive_closed-Reads id j (lookup id b.closed) b e refl
  receive_open-Reads id j (some []) b e = record {
    subs = ground (arith, e, lookup-same id j b.subs);
    closed = ground (arith, e, lookup-same id j b.subs);
    got = λ p g. rw (← p, e) refl;
    next = refl;
    valid = λ v. v;
  }
  receive_open-Reads id j (some (d ∷ rest)) b e = record {
    subs = ground (arith, e, lookup-put id j rest b.subs, lookup-same id j b.subs);
    closed = ground (arith, e, lookup-same id j b.subs);
    got = λ p g. rw (← p, e) refl;
    next = refl;
    valid = λ v. taken-IsValid id d rest b v e;
  }

  pub receive-Reads : (id j : ℕ) (b : Broker F) → Reads id j b (receive id b)
  unfolding receive
  receive-Reads id j b = receive_open-Reads id j (lookup id b.subs) b refl
