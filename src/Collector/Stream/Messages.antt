-- ===== src/Collector/Stream/Messages.antt =====
-- graph.go: the message that `rebuild` sends, for a client that shows the old graph.
use pulsebox.Base.{true, List, [], ◌∷◌, ◌≡◌, refl, arith, nat_eq, Bool-cases, inl, inr, is_nil}
use pulsebox.Base.Float.{Float, FloatLaws}
use pulsebox.Topology.{Graph, View, index_nodes, index_edges, as_snapshot, empty, apply_message}
use pulsebox.Topology.Follow.{Shows, snapshot-Shows, diff-Shows, empty-apply_message}
use pulsebox.Collector.Stream.{is_zero_time, message_for}

-- A graph that was never built is empty.
abbrev pub IsFresh : {F : Type 0} → Graph F → Type 0
IsFresh g = is_zero_time g.updated_at ≡ true → (g.nodes ≡ []) × (g.edges ≡ [])

eq-nil : {A : Type 0} (xs : List A) → is_nil xs ≡ true → xs ≡ []
eq-nil [] h = refl
eq-nil (x ∷ xs) h = cc

Shows-same :
    {F : Type 0} (fl : Float F) (v : View F) (g prev : Graph F)
    → g.nodes ≡ prev.nodes
    → g.edges ≡ prev.edges
    → Shows fl v prev
    → Shows fl v g
unfolding index_nodes index_edges
Shows-same fl v g prev p q h = record {
  nodes = λ j. rw p (h.nodes j);
  edges = λ j. rw q (h.edges j);
}

module _ {F : Type 0} ⦃fl : Float F⦄ (laws : FloatLaws fl) where
  pub message_for-Shows :
      (g prev : Graph F) (v : View F)
      → Shows fl v prev
      → Shows fl (apply_message (message_for g prev) v) g
  unfolding message_for
  message_for-Shows g prev v h = elim (Bool-cases (is_zero_time prev.updated_at)) [
    | inl e ↦ rw e (snapshot-Shows g v)
    | inr e ↦ rw e (diff-Shows laws g prev v h)
  ]

  -- `rebuild` may keep an empty message to itself.
  pub message_for-empty :
      (g prev : Graph F) (v : View F)
      → IsFresh prev
      → empty (message_for g prev) ≡ true
      → Shows fl v prev
      → Shows fl v g
  unfolding message_for
  message_for-empty g prev v f e h = elim (Bool-cases (is_zero_time prev.updated_at)) [
    | inl z ↦ unbuilt (f z) (rw z at e)
    | inr z ↦ rw (empty-apply_message g prev v (rw z at e)) at (diff-Shows laws g prev v h)
  ]
    where
      unbuilt : (prev.nodes ≡ []) × (prev.edges ≡ []) → empty (as_snapshot g) ≡ true → Shows fl v g
      unbuilt none_yet e' =
          unfold empty as_snapshot in
          Shows-same fl v g prev (ground (arith, eq-nil g.nodes)) (ground (arith, eq-nil g.edges)) h
