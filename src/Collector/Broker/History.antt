-- ===== src/Collector/Broker/History.antt =====
-- broker.go: what a subscriber gets over any sequence of calls.
use pulsebox.Base.{
  ℕ, ◌<◌, false, List, [], ◌∷◌, ◌++◌, Option, none, some, ◌≡◌, refl, sym, ◌∙◌, arith, ap, ltb,
  length, nat_eq, nat_beq_iff, ◌==◌, Bool-cases, inl, inr, append_assoc, append-nil,
}
use pulsebox.Base.Dict.{lookup, lookup-put}
use pulsebox.Topology.{Diff}
use pulsebox.Collector.Broker.{Broker, subscribe, unsubscribe, broadcast, receive}
use pulsebox.Collector.Broker.Delivery.{channel_after, closed_after, broadcast_lem}
use pulsebox.Collector.Broker.Valid.{
  IsValid, subscribe-IsValid, unsubscribe-IsValid, broadcast-IsValid, lookup-unsubscribe,
  next-deliver_all,
}
use pulsebox.Collector.Broker.Channels.{
  closed_by, lookup-closed-unsubscribe, next-unsubscribe, rest_of, taken, head_of, drained_by,
  receive-Reads,
}

-- The calls since the subscriber `id` joined, with the diffs that were broadcast since and those that it
-- has read, oldest first. The ids have not run out.
pub data History {F : Type 0} (id : ℕ) : Broker F → List (Diff F) → List (Diff F) → Type 0 where
  joins :
      (b : Broker F)
      → IsValid b
      → b.next < 18446744073709551615
      → b.next ≡ id
      → History id (subscribe b).0 [] []
  broadcasts :
      {b : Broker F} {sent got : List (Diff F)}
      → History id b sent got
      → (d : Diff F) → History id (broadcast d b) (sent ++ d ∷ []) got
  reads :
      {b : Broker F} {sent got : List (Diff F)}
      → History id b sent got
      → History id (receive id b).1 sent (taken (receive id b).0 got)
  another_reads :
      {b : Broker F} {sent got : List (Diff F)}
      → History id b sent got
      → (other : ℕ) → (other == id) ≡ false
      → History id (receive other b).1 sent got
  another_joins :
      {b : Broker F} {sent got : List (Diff F)}
      → History id b sent got
      → b.next < 18446744073709551615
      → History id (subscribe b).0 sent got
  leaves :
      {b : Broker F} {sent got : List (Diff F)}
      → History id b sent got
      → (any : ℕ) → History id (unsubscribe any b) sent got

module _ {F : Type 0} where
  -- What has been read, with what the channel holds, is what was broadcast; once the channel is closed,
  -- it is what was broadcast before.
  abbrev Kept :
      Option (List (Diff F)) → Option (List (Diff F)) → List (Diff F) → List (Diff F) → Type 0
  Kept (some buffer) old sent got = sent ≡ got ++ buffer
  Kept none (some c) sent got = (rest : List (Diff F)) × (sent ≡ got ++ c ++ rest)
  Kept none none sent got = ⊥

  Kept-after :
      (d : Diff F) (o old : Option (List (Diff F))) (sent got : List (Diff F))
      → Kept o old sent got
      → Kept (channel_after d o) (closed_after o old) (sent ++ d ∷ []) got
  Kept-after d none none sent got k = elim k [ ]
  Kept-after d none (some c) sent got (rest, e) =
      (rest ++ d ∷ [], ap (λ l. l ++ d ∷ []) e ∙ append_assoc (got ++ c) rest (d ∷ []))
  Kept-after d (some buffer) old sent got e = elim (Bool-cases (ltb (length buffer) 32)) [
    | inl p ↦ rw p (ap (λ l. l ++ d ∷ []) e ∙ append_assoc got buffer (d ∷ []))
    | inr p ↦ rw p (d ∷ [], ap (λ l. l ++ d ∷ []) e)
  ]

  Kept-read :
      (o old : Option (List (Diff F))) (sent got : List (Diff F))
      → Kept o old sent got
      → Kept (rest_of o) (drained_by o old) sent (head_of o old got)
  Kept-read none none sent got k = elim k [ ]
  Kept-read none (some []) sent got k = k
  Kept-read none (some (d ∷ c)) sent got (rest, e) =
      (rest, e ∙ ap (λ l. l ++ rest) (sym (append_assoc got (d ∷ []) c)))
  Kept-read (some []) old sent got e = e
  Kept-read (some (d ∷ c)) old sent got e = e ∙ sym (append_assoc got (d ∷ []) c)

  Kept-leave :
      (o old : Option (List (Diff F))) (sent got : List (Diff F))
      → Kept o old sent got
      → Kept none (closed_by o old) sent got
  Kept-leave none none sent got k = k
  Kept-leave none (some c) sent got k = k
  Kept-leave (some buffer) old sent got e = ([], e ∙ sym (append-nil (got ++ buffer)))

  record Holds (id : ℕ) (b : Broker F) (sent got : List (Diff F)) : Type 0 where
    valid : IsValid b
    below : id < b.next
    kept : Kept (lookup id b.subs) (lookup id b.closed) sent got

  joined-Holds :
      (id : ℕ) (b : Broker F)
      → IsValid b
      → b.next < 18446744073709551615
      → b.next ≡ id
      → Holds id (subscribe b).0 [] []
  joined-Holds id b v small e =
      let none_yet : List (Diff F) = [] in
      let s = subscribe-IsValid b small v in
      record {
        valid = s.0;
        below = omega (arith, s.2, e);
        kept =
            unfold subscribe in
            rw (lookup-put b.next id none_yet b.subs, (nat_beq_iff b.next id).1 e) refl;
      }

  sent-Holds :
      (id : ℕ) (b : Broker F) (sent got : List (Diff F)) (d : Diff F)
      → Holds id b sent got
      → Holds id (broadcast d b) (sent ++ d ∷ []) got
  sent-Holds id b sent got d h = record {
    valid = broadcast-IsValid d b h.valid;
    below = unfold broadcast in rw (next-deliver_all d b.subs b) h.below;
    kept =
        let e = broadcast_lem d b id h.valid.distinct in
        rw (e.0, e.1) (Kept-after d _ _ sent got h.kept);
  }

  read-Holds :
      (id : ℕ) (b : Broker F) (sent got : List (Diff F))
      → Holds id b sent got
      → Holds id (receive id b).1 sent (taken (receive id b).0 got)
  read-Holds id b sent got h =
      let r = receive-Reads id id b in
      record {
        valid = r.valid h.valid;
        below = rw r.next h.below;
        kept =
            rw (r.subs, r.closed, r.got refl got, (nat_beq_iff id id).1 refl)
              (Kept-read (lookup id b.subs) (lookup id b.closed) sent got h.kept);
      }

  other_read-Holds :
      (id : ℕ) (b : Broker F) (sent got : List (Diff F)) (other : ℕ)
      → (other == id) ≡ false
      → Holds id b sent got
      → Holds id (receive other b).1 sent got
  other_read-Holds id b sent got other n h =
      let r = receive-Reads other id b in
      record {
        valid = r.valid h.valid;
        below = rw r.next h.below;
        kept = rw (r.subs, r.closed, n) h.kept;
      }

  other_joined-Holds :
      (id : ℕ) (b : Broker F) (sent got : List (Diff F))
      → b.next < 18446744073709551615
      → Holds id b sent got
      → Holds id (subscribe b).0 sent got
  other_joined-Holds id b sent got small h =
      let none_yet : List (Diff F) = [] in
      let n : (b.next == id) ≡ false = ground (arith, nat_beq_iff b.next id, h.below) in
      let s = subscribe-IsValid b small h.valid in
      record {
        valid = s.0;
        below = omega (arith, s.2, h.below);
        kept = unfold subscribe in rw (lookup-put b.next id none_yet b.subs, n) h.kept;
      }

  left-Holds :
      (id : ℕ) (b : Broker F) (sent got : List (Diff F)) (any : ℕ)
      → Holds id b sent got
      → Holds id (unsubscribe any b) sent got
  left-Holds id b sent got any h = record {
    valid = unsubscribe-IsValid any b h.valid;
    below = rw (next-unsubscribe any b) h.below;
    kept =
        rw (lookup-unsubscribe any id b, lookup-closed-unsubscribe any id b)
          (elim (Bool-cases (any == id)) [
            | inl e ↦ rw e (Kept-leave _ _ sent got h.kept)
            | inr e ↦ rw e h.kept
          ]);
  }

  History-Holds :
      (id : ℕ) {b : Broker F} {sent got : List (Diff F)}
      → History id b sent got
      → Holds id b sent got
  History-Holds id (joins b v small e) = joined-Holds id b v small e
  History-Holds id (broadcasts {b} {sent} {got} l d) =
      sent-Holds id b sent got d (History-Holds id l)
  History-Holds id (reads {b} {sent} {got} l) = read-Holds id b sent got (History-Holds id l)
  History-Holds id (another_reads {b} {sent} {got} l other n) =
      other_read-Holds id b sent got other n (History-Holds id l)
  History-Holds id (another_joins {b} {sent} {got} l small) =
      other_joined-Holds id b sent got small (History-Holds id l)
  History-Holds id (leaves {b} {sent} {got} l any) =
      left-Holds id b sent got any (History-Holds id l)

  Kept-prefix :
      (o old : Option (List (Diff F))) (sent got : List (Diff F))
      → Kept o old sent got
      → (rest : List (Diff F)) × (sent ≡ got ++ rest)
  Kept-prefix none none sent got k = elim k [ ]
  Kept-prefix none (some c) sent got (rest, e) = (c ++ rest, e ∙ append_assoc got c rest)
  Kept-prefix (some buffer) old sent got e = (buffer, e)

  -- Whatever the callers do: a subscriber has read the diffs that were broadcast since it joined, in
  -- their order, up to some point, and as long as its channel is open, all but those that the channel
  -- holds, in their order. The ids have not run out.
  pub read_in_order :
      (id : ℕ) {b : Broker F} {sent got : List (Diff F)}
      → History id b sent got
      → ((rest : List (Diff F)) × (sent ≡ got ++ rest))
        × ((buffer : List (Diff F)) → lookup id b.subs ≡ some buffer → sent ≡ got ++ buffer)
  read_in_order id {b} {sent} {got} l =
      let h = History-Holds id l in
      (
        Kept-prefix (lookup id b.subs) (lookup id b.closed) sent got h.kept,
        λ buffer e. (rw e at h.kept),
      )
