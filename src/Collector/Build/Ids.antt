-- ===== src/Collector/Build/Ids.antt =====
-- graph.go: the IDs that `id` makes.
use Prim.Native.String.{◌++◌ as join2}
use text.Mathlib.TextLemmas.{append-nil as join2-nil}
use pulsebox.Base.{
  String, true, ◌≡◌, refl, sym, ap, ◌∙◌, arith, if◌then◌else◌, ◌==◌, string_eq, eq_iff, Bool-cases,
  inl, inr,
}
use pulsebox.Base.Slash.{is_plain, before, after, before-join, after-join, is_plain-join}
use pulsebox.Collector.Build.{object_id}

-- What stands behind the kind.
place : String → String → String
place ns name = if ns == "" then name else join2 ns (join2 "/" name)

object_id-place :
    (kind ns name : String) → object_id kind ns name ≡ join2 kind (join2 "/" (place ns name))
unfolding object_id place
object_id-place kind ns name = elim (Bool-cases (ns == "")) [
  | inl e ↦ rw (e, object_id, place, join2-nil name) refl
  | inr e ↦ rw (e, object_id, place, join2-nil name) refl
]

place-eq :
    (ns ns' name name' : String)
    → is_plain ns ≡ true
    → is_plain name ≡ true
    → is_plain ns' ≡ true
    → is_plain name' ≡ true
    → place ns name ≡ place ns' name'
    → (ns ≡ ns') × (name ≡ name')
unfolding place
place-eq ns ns' name name' p q p' q' e = elim (Bool-cases (ns == "")) [
  | inl a ↦ elim (Bool-cases (ns' == "")) [
    | inl b ↦ ((eq_iff ns "").0 a ∙ sym ((eq_iff ns' "").0 b), rw (a, b) at e)
    | inr b ↦ absurd (ground (arith, rw (a, b) at e, is_plain-join ns' name'))
  ]
  | inr a ↦ elim (Bool-cases (ns' == "")) [
    | inl b ↦ absurd (ground (arith, rw (a, b) at e, is_plain-join ns name))
    | inr b ↦
        let both = rw (a, b) at e in
        (
          sym (before-join ns name p) ∙ ap before both ∙ before-join ns' name' p',
          sym (after-join ns name p) ∙ ap after both ∙ after-join ns' name' p',
        )
  ]
]

-- Two objects whose kinds, namespaces and names hold no slash, as those of Kubernetes objects, have
-- the same ID only if all three are the same.
pub object_id-injective :
    (kind kind' ns ns' name name' : String)
    → is_plain kind ≡ true
    → is_plain kind' ≡ true
    → is_plain ns ≡ true
    → is_plain ns' ≡ true
    → is_plain name ≡ true
    → is_plain name' ≡ true
    → object_id kind ns name ≡ object_id kind' ns' name'
    → (kind ≡ kind') × (ns ≡ ns') × (name ≡ name')
object_id-injective kind kind' ns ns' name name' k k' p p' q q' e =
    let both = sym (object_id-place kind ns name) ∙ e ∙ object_id-place kind' ns' name' in
    let (same_ns, same_name) =
      place-eq ns ns' name name' p q p' q'
        (sym (after-join kind _ k) ∙ ap after both ∙ after-join kind' _ k') in
    (sym (before-join kind _ k) ∙ ap before both ∙ before-join kind' _ k', same_ns, same_name)
