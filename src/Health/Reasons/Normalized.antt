-- ===== src/Health/Reasons/Normalized.antt =====
-- health.go: the list that `NormalizeReasons` makes.
use pulsebox.Base.{
  String, true, not, List, [], ◌∷◌, ◌++◌, ◌≡◌, refl, arith, ◌==◌, if◌then◌else◌, string_eq, eq_iff,
  elem, trim_space, keep_if, append_assoc, append-nil, ap,
}
use pulsebox.Health.Reasons.{normalize_loop, normalize_reasons}

-- Each text once, where it stands first.
abbrev pub dedupe : List String → List String
dedupe [] = []
dedupe (x ∷ xs) = x ∷ keep_if (λ y. not (x == y)) (dedupe xs)

-- The reasons without the white space around them, and without those that are nothing else.
abbrev pub nonblank : List String → List String
nonblank [] = []
nonblank (r ∷ rs) = if trim_space r == "" then nonblank rs else trim_space r ∷ nonblank rs

abbrev unseen : List String → List String → List String
unseen seen = keep_if (λ y. not (elem y seen))

unseen-drop :
    (x : String) (seen xs : List String)
    → elem x seen ≡ true
    → unseen seen (keep_if (λ y. not (x == y)) xs) ≡ unseen seen xs
unfolding keep_if
unseen-drop x seen [] h = refl
unseen-drop x seen (y ∷ ys) h = ground (
  arith,
  unseen-drop x seen ys h,
  λ (e : (x == y) ≡ true). ap (λ z. elem z seen) ((eq_iff x y).0 e),
)

unseen-cons :
    (x : String) (seen xs : List String)
    → unseen seen (keep_if (λ y. not (x == y)) xs) ≡ unseen (x ∷ seen) xs
unfolding keep_if
unseen-cons x seen [] = refl
unseen-cons x seen (y ∷ ys) = ground (arith, unseen-cons x seen ys)

normalize_loop_lem :
    (rs seen out : List String)
    → normalize_loop rs seen out ≡ out ++ unseen seen (dedupe (nonblank rs))
unfolding normalize_loop keep_if
normalize_loop_lem [] seen out = ground (arith, append-nil out)
normalize_loop_lem (r ∷ rs) seen out =
    let t = trim_space r in
    let found = nonblank rs in
    ground (
      arith,
      normalize_loop_lem rs seen out,
      normalize_loop_lem rs (t ∷ seen) (out ++ t ∷ []),
      unseen-drop t seen (dedupe found),
      unseen-cons t seen (dedupe found),
      append_assoc out (t ∷ []) (unseen (t ∷ seen) (dedupe found)),
    )

unseen-nil : (xs : List String) → unseen [] xs ≡ xs
unfolding keep_if
unseen-nil [] = refl
unseen-nil (x ∷ xs) = ground (arith, unseen-nil xs)

-- The normalized reasons are those that are not blank, without the white space around them, each once
-- where it stands first.
pub normalize_reasons-eq : (rs : List String) → normalize_reasons rs ≡ dedupe (nonblank rs)
unfolding normalize_reasons
normalize_reasons-eq rs =
    ground (arith, normalize_loop_lem rs [] [], unseen-nil (dedupe (nonblank rs)))
