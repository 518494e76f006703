-- ===== src/Topology/Same.antt =====
-- What `nodeEqual` and `!=` on edges compare.
use pulsebox.Base.{
  String, eq_self, true, false, List, [], ◌∷◌, ◌≡◌, refl, arith, string_eq, ◌⊎◌, inl, inr, ◌==◌,
  eq_iff, ◌∙◌, length, nat_beq,
}
use pulsebox.Base.Dict.{lookup}
use pulsebox.Base.Float.{Float, FloatLaws}
use pulsebox.Topology.{Node, Edge, same_reasons, meta_within, text_at, edge_equal, node_equal}

same_reasons_eq :
    (as' bs : List String)
    → nat_beq (length as') (length bs) ≡ true
    → same_reasons as' bs ≡ true
    → as' ≡ bs
unfolding same_reasons
same_reasons_eq [] [] h p = refl
same_reasons_eq [] (b ∷ bs) h p = ground arith
same_reasons_eq (a ∷ as') [] h p = cc
same_reasons_eq (a ∷ as') (b ∷ bs) h p = ground (arith, eq_iff a b, same_reasons_eq as' bs)

same_reasons_refl : (as' : List String) → same_reasons as' as' ≡ true
unfolding same_reasons
same_reasons_refl [] = refl
same_reasons_refl (a ∷ as') = ground (arith, eq_iff a a, same_reasons_refl as')

module _ {F : Type 0} ⦃fl : Float F⦄ where
  -- Equal in all that `nodeEqual` compares without a map: scores are compared by ==.
  pub record SameShown (a b : Node F) : Type 0 where
    pub id : a.id ≡ b.id
    pub kind : a.kind ≡ b.kind
    pub name : a.name ≡ b.name
    pub namespace : a.namespace ≡ b.namespace
    pub health : a.health ≡ b.health
    pub score : (a.score ≡ b.score) ⊎ (fl.eq a.score b.score ≡ true)
    pub reasons : a.reasons ≡ b.reasons

  pub SameShown-refl : (a : Node F) → SameShown a a
  SameShown-refl a = record {
    id = refl;
    kind = refl;
    name = refl;
    namespace = refl;
    health = refl;
    score = inl refl;
    reasons = refl;
  }

  score_trans :
      FloatLaws fl
      → (x y z : F) → (x ≡ y) ⊎ (fl.eq x y ≡ true)
      → (y ≡ z) ⊎ (fl.eq y z ≡ true)
      → (x ≡ z) ⊎ (fl.eq x z ≡ true)
  score_trans laws x y z (inl p) (inl q) = inl (p ∙ q)
  score_trans laws x y z (inl p) (inr q) = inr (rw p q)
  score_trans laws x y z (inr p) (inl q) = inr (rw (← q) p)
  score_trans laws x y z (inr p) (inr q) = inr (laws.eq_trans x y z p q)

  pub SameShown-trans :
      FloatLaws fl → (a b c : Node F) → SameShown a b → SameShown b c → SameShown a c
  SameShown-trans laws a b c p q = record {
    id = p.id ∙ q.id;
    kind = p.kind ∙ q.kind;
    name = p.name ∙ q.name;
    namespace = p.namespace ∙ q.namespace;
    health = p.health ∙ q.health;
    score = score_trans laws a.score b.score c.score p.score q.score;
    reasons = p.reasons ∙ q.reasons;
  }

  pub node_equal-SameShown : (a b : Node F) → node_equal a b ≡ true → SameShown a b
  unfolding node_equal
  node_equal-SameShown a b h = ground (
    arith,
    eq_iff a.id b.id,
    eq_iff a.kind b.kind,
    eq_iff a.name b.name,
    eq_iff a.namespace b.namespace,
    eq_iff a.health b.health,
    same_reasons_eq a.reasons b.reasons,
  )

meta_missed : (k j v : String) → (j == k) ≡ false → meta_within ((k, "") ∷ []) ((j, v) ∷ []) ≡ true
unfolding meta_within lookup
meta_missed k j v h =
    let no_entry : text_at k ((j, v) ∷ []) ≡ "" = rw (h, text_at) refl in rw no_entry refl

-- Two nodes that differ only in their metadata, one entry with an empty value against one entry under
-- another key, count as equal.
pub meta-missed :
    {F : Type 0} ⦃fl : Float F⦄ (n : Node F) (k j v : String)
    → fl.eq n.score n.score ≡ true
    → (j == k) ≡ false
    → node_equal (record n { meta = (k, "") ∷ [] }) (record n { meta = (j, v) ∷ [] }) ≡ true
unfolding node_equal meta_within lookup
meta-missed n k j v s h = rw (
  eq_self n.id,
  eq_self n.kind,
  eq_self n.name,
  eq_self n.namespace,
  eq_self n.health,
  s,
  eq_self (length n.reasons),
  same_reasons_refl n.reasons,
  meta_missed k j v h,
)

pub edge_equal-eq : (a b : Edge) → edge_equal a b ≡ true → a ≡ b
unfolding edge_equal
edge_equal-eq a b h = ground (
  arith,
  eq_iff a.id b.id,
  eq_iff a.source b.source,
  eq_iff a.target b.target,
  eq_iff a.kind b.kind,
)
