-- ===== src/Collector/Broker.antt =====
-- internal/collector/broker.go. A method holds the mutex from its first line to its last, so each is
-- one step. A channel is the list of its buffered values, oldest first; it belongs to the
-- subscriber whose id it was made for. A closed channel can still be drained.
pub mod Delivery
pub mod Valid
pub mod Opens
pub mod Channels
pub mod History
use pulsebox.Base.{
  ℕ, ◌+◌, ◌%◌, Bool, true, false, List, [], ◌∷◌, ◌++◌, Option, none, some, if◌then◌else◌, ltb,
  length, nat_eq,
}
use pulsebox.Base.Dict.{Dict, lookup, put, delete}
use pulsebox.Topology.{Diff}

-- make(chan topology.Diff, 32)
abbrev pub channel_size : ℕ
channel_size = 32

pub record Broker (F : Type 0) : Type 0 where
  -- The open channels: `subs`.
  pub subs : Dict ℕ (List (Diff F))
  pub next : ℕ
  -- What is left in the channels that were closed.
  pub closed : Dict ℕ (List (Diff F))

module _ {F : Type 0} where
  unfoldable pub new_broker : Broker F
  new_broker = record { subs = []; next = 0; closed = [] }

  -- The ids count up as a 64-bit int, which wraps around.
  unfoldable pub subscribe : Broker F → Broker F × ℕ
  unfolding put
  subscribe b =
      (record b { next = (b.next + 1) % 18446744073709551616; subs = put b.next [] b.subs }, b.next)

  -- `delete(b.subs, id); close(ch)`
  unfoldable pub drop_sub : ℕ → List (Diff F) → Broker F → Broker F
  unfolding put delete
  drop_sub id buffer b = record b { subs = delete id b.subs; closed = put id buffer b.closed }

  unfoldable pub unsubscribe : ℕ → Broker F → Broker F
  unfolding lookup drop_sub
  unsubscribe id b = elim (lookup id b.subs) [ none ↦ b | some buffer ↦ drop_sub id buffer b ]

  -- `case ch <- d`, which is taken if the buffer has room.
  unfoldable pub send : Diff F → List (Diff F) → Option (List (Diff F))
  send d buffer = if ltb (length buffer) channel_size then some (buffer ++ d ∷ []) else none

  -- The body of the loop of `broadcast`.
  unfoldable pub deliver : Diff F → ℕ → List (Diff F) → Broker F → Broker F
  unfolding send put drop_sub
  deliver d id buffer b = elim (send d buffer) [
    | none ↦ drop_sub id buffer b
    | some buffer' ↦ record b { subs = put id buffer' b.subs }
  ]

  unfoldable pub deliver_all : Diff F → Dict ℕ (List (Diff F)) → Broker F → Broker F
  unfolding deliver
  deliver_all d [] b = b
  deliver_all d ((id, buffer) ∷ rest) b = deliver_all d rest (deliver d id buffer b)

  unfoldable pub broadcast : Diff F → Broker F → Broker F
  unfolding deliver_all
  broadcast d b = deliver_all d b.subs b

  unfoldable pub count : Broker F → ℕ
  count b = length b.subs

-- What `d, ok := <-ch` gives a subscriber: a value, the end of a closed channel, or nothing yet.
pub data Received (F : Type 0) : Type 0 where
  value : Diff F → Received F
  ended : Received F
  blocked : Received F

module _ {F : Type 0} where
  receive_closed : ℕ → Option (List (Diff F)) → Broker F → Received F × Broker F
  receive_closed id none b = (blocked, b)
  receive_closed id (some []) b = (ended, b)
  receive_closed id (some (d ∷ rest)) b = (value d, record b { closed = put id rest b.closed })

  receive_open : ℕ → Option (List (Diff F)) → Broker F → Received F × Broker F
  unfolding receive_closed
  receive_open id none b = receive_closed id (lookup id b.closed) b
  receive_open id (some []) b = (blocked, b)
  receive_open id (some (d ∷ rest)) b = (value d, record b { subs = put id rest b.subs })

  unfoldable pub receive : ℕ → Broker F → Received F × Broker F
  unfolding receive_open
  receive id b = receive_open id (lookup id b.subs) b
