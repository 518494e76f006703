-- ===== src/Collector/Broker/Valid.antt =====
-- broker.go: the invariant of the broker.
use pulsebox.Base.{
  ℕ, ◌+◌, ◌≤◌, ◌<◌, ◌%◌, true, List, [], ◌∷◌, Option, none, some, ◌≡◌, refl, arith, if◌then◌else◌,
  length, nat_eq, nat_beq, nat_beq_iff, length-append, ap, ◌==◌, Option-cases, inl, inr, sym, ◌∙◌,
}
use pulsebox.Base.Dict.{
  Dict, lookup, put, Distinct, lookup-put, lookup-delete, put-Distinct, delete-Distinct,
}
use pulsebox.Topology.{Diff}
use pulsebox.Collector.Broker.{
  channel_size, Broker, new_broker, subscribe, drop_sub, unsubscribe, send, deliver, deliver_all,
  broadcast,
}
use pulsebox.Collector.Broker.Delivery.{sent_to, lookup-broadcast, deliver_all-Distinct}

module _ {F : Type 0} where
  -- Ids stand once and below `next`, and no channel holds more than its size.
  pub record IsValid (b : Broker F) : Type 0 where
    pub distinct : Distinct b.subs
    pub bounded :
        (j : ℕ) (buffer : List (Diff F))
        → lookup j b.subs ≡ some buffer
        → (j < b.next) × (length buffer ≤ channel_size)

  fresh_id : (b : Broker F) → IsValid b → lookup b.next b.subs ≡ none
  fresh_id b v = elim (Option-cases (lookup b.next b.subs)) [
    | inl e ↦ e
    | inr (buffer, e) ↦ absurd (omega (arith, v.bounded b.next buffer e))
  ]

  pub new_broker-IsValid : IsValid new_broker
  unfolding new_broker lookup
  new_broker-IsValid = record { distinct = tt; bounded = λ j buffer h. cc }

  -- On a valid broker whose ids have not run out, a new subscriber's id is one that no open channel
  -- has, the next id is one more, and the broker stays valid.
  pub subscribe-IsValid :
      (b : Broker F)
      → b.next < 18446744073709551615
      → IsValid b
      → IsValid (subscribe b).0
        × (lookup (subscribe b).1 b.subs ≡ none)
        × ((subscribe b).0.next ≡ b.next + 1)
  unfolding subscribe
  subscribe-IsValid b h v =
      let e : (b.next + 1) % 18446744073709551616 ≡ b.next + 1 = omega arith in
      let empty_buffer : List (Diff F) = [] in
      (
        record {
          distinct = put-Distinct b.next [] b.subs v.distinct;
          bounded = λ j c p. ground (
            arith,
            e,
            lookup-put b.next j empty_buffer b.subs,
            v.bounded j c,
            nat_beq_iff b.next j,
          );
        },
        fresh_id b v,
        e,
      )

  pub unsubscribe-IsValid : (id : ℕ) (b : Broker F) → IsValid b → IsValid (unsubscribe id b)
  unfolding unsubscribe
  unsubscribe-IsValid id b v = elim (Option-cases (lookup id b.subs)) [
    | inl e ↦ rw (e, unsubscribe) v
    | inr (buffer, e) ↦ rw (e, unsubscribe) (dropped buffer)
  ]
    where
      dropped : (buffer : List (Diff F)) → IsValid (drop_sub id buffer b)
      dropped buffer =
          unfold drop_sub in
          record {
            distinct = delete-Distinct id b.subs v.distinct;
            bounded = λ j c h. ground (arith, lookup-delete id j b.subs, v.bounded j c);
          }

  pub next-deliver_all :
      (d : Diff F) (es : Dict ℕ (List (Diff F))) (b : Broker F) → (deliver_all d es b).next ≡ b.next
  unfolding deliver_all deliver
  next-deliver_all d [] b = refl
  next-deliver_all d ((id, buffer) ∷ rest) b =
      ground (arith, next-deliver_all d rest (deliver d id buffer b))

  send-bounded :
      (d : Diff F) (buffer buffer' : List (Diff F))
      → send d buffer ≡ some buffer'
      → length buffer' ≤ channel_size
  unfolding send
  send-bounded d buffer buffer' h = ground (arith, length-append buffer (d ∷ []))

  -- A broadcast keeps the broker valid: ids stand once and below `next`, and no channel holds more than
  -- its 32 values.
  pub broadcast-IsValid : (d : Diff F) (b : Broker F) → IsValid b → IsValid (broadcast d b)
  unfolding broadcast
  broadcast-IsValid d b v = record {
    distinct = deliver_all-Distinct d b.subs b v.distinct;
    bounded =
        λ j c h. kept j c (lookup j b.subs) refl (sym (lookup-broadcast d b j v.distinct) ∙ h);
  }
    where
      kept :
          (j : ℕ) (c : List (Diff F)) (o : Option (List (Diff F)))
          → lookup j b.subs ≡ o
          → sent_to d o ≡ some c
          → (j < (broadcast d b).next) × (length c ≤ channel_size)
      kept j c none e h = cc
      kept j c (some buffer) e h =
          ground
            (arith, next-deliver_all d b.subs b, v.bounded j buffer e, send-bounded d buffer c h)

  pub lookup-unsubscribe :
      (id j : ℕ) (b : Broker F)
      → lookup j (unsubscribe id b).subs ≡ (if id == j then none else lookup j b.subs)
  unfolding unsubscribe drop_sub
  lookup-unsubscribe id j b = elim (Option-cases (lookup id b.subs)) [
    | inl e ↦
        rw (e, unsubscribe)
          (ground (
            arith,
            λ (p : nat_beq id j ≡ true). ap (λ z. lookup z b.subs) ((nat_beq_iff id j).0 p),
          ))
    | inr (buffer, e) ↦ rw (e, unsubscribe) (lookup-delete id j b.subs)
  ]

  -- A subscriber that takes the oldest value leaves the broker valid.
  pub taken-IsValid :
      (id : ℕ) (d : Diff F) (rest : List (Diff F)) (b : Broker F)
      → IsValid b
      → lookup id b.subs ≡ some (d ∷ rest)
      → IsValid (record b { subs = put id rest b.subs })
  taken-IsValid id d rest b v e = record {
    distinct = put-Distinct id rest b.subs v.distinct;
    bounded = λ j c h. ground (
      arith,
      lookup-put id j rest b.subs,
      v.bounded j c,
      v.bounded id (d ∷ rest) e,
      nat_beq_iff id j,
    );
  }
