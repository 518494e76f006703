-- ===== src/Collector/Events/Recent.antt =====
-- accessors.go: the order of the messages of `WarningEvents`.
use mathlib.Core.List.{Perm}
use mathlib.Core.List.Perm
use pulsebox.Base.{
  ℕ, zero, suc, ◌≤◌, false, List, [], ◌∷◌, ◌≡◌, refl, arith, if◌then◌else◌, length, Bool-cases, inl,
  inr,
}
use pulsebox.Collector.Events.{Message, is_later, exchange, exchange_sort}

-- None of the messages is later than a given one.
abbrev pub NoneLater : Message → List Message → Type 0
NoneLater m [] = Unit {0}
NoneLater m (x ∷ rest) = (is_later x m ≡ false) × NoneLater m rest

abbrev pub LatestFirst : List Message → Type 0
LatestFirst [] = Unit {0}
LatestFirst (m ∷ rest) = NoneLater m rest × LatestFirst rest

exchange-length : (m : Message) (l : List Message) → length (exchange m l).1 ≡ length l
unfolding exchange
exchange-length m [] = refl
exchange-length m (x ∷ rest) = omega (arith, exchange-length (if is_later x m then x else m) rest)

exchange-perm :
    (m : Message) (l : List Message) → Perm ((exchange m l).0 ∷ (exchange m l).1) (m ∷ l)
unfolding exchange
exchange-perm m [] = Perm.refl _
exchange-perm m (x ∷ rest) = elim (Bool-cases (is_later x m)) [
  | inl e ↦ rw (e, exchange) (Perm.trans (Perm.swap m _ _) (Perm.cons m (exchange-perm x rest)))
  | inr e ↦
      rw (e, exchange)
        (Perm.trans (Perm.swap x _ _)
          (Perm.trans (Perm.cons x (exchange-perm m rest)) (Perm.swap m x rest)))
]

-- What ends up at the front is no earlier than what stood there and than all that is behind.
exchange-latest :
    (m : Message) (l : List Message)
    → (is_later m (exchange m l).0 ≡ false) × NoneLater (exchange m l).0 (exchange m l).1
unfolding exchange
exchange-latest m [] = (ground arith, tt)
exchange-latest m (x ∷ rest) = ground (arith, exchange-latest (if is_later x m then x else m) rest)

NoneLater-exchange :
    (z m : Message) (l : List Message)
    → NoneLater z (m ∷ l)
    → NoneLater z ((exchange m l).0 ∷ (exchange m l).1)
unfolding exchange
NoneLater-exchange z m [] h = h
NoneLater-exchange z m (x ∷ rest) h =
    ground (arith, NoneLater-exchange z (if is_later x m then x else m) rest)

NoneLater-exchange_sort :
    (z : Message) (n : ℕ) (l : List Message) → NoneLater z l → NoneLater z (exchange_sort n l)
unfolding exchange_sort
NoneLater-exchange_sort z zero l h = h
NoneLater-exchange_sort z (suc n) [] h = tt
NoneLater-exchange_sort z (suc n) (m ∷ rest) h =
    let e = NoneLater-exchange z m rest h in
    (e.0, NoneLater-exchange_sort z n (exchange m rest).1 e.1)

-- With a step of the outer loop for each message, the messages are sorted, the latest first, and none
-- is lost or repeated.
pub exchange_sort-LatestFirst :
    (n : ℕ) (l : List Message)
    → length l ≤ n
    → LatestFirst (exchange_sort n l) × Perm (exchange_sort n l) l
unfolding exchange_sort
exchange_sort-LatestFirst zero [] h = (tt, Perm.refl _)
exchange_sort-LatestFirst zero (m ∷ rest) h = absurd (omega arith)
exchange_sort-LatestFirst (suc n) [] h = (tt, Perm.refl _)
exchange_sort-LatestFirst (suc n) (m ∷ rest) h =
    let (first, behind) = exchange m rest in
    let ih = exchange_sort-LatestFirst n behind (omega (arith, exchange-length m rest)) in
    (
      (NoneLater-exchange_sort first n behind (exchange-latest m rest).1, ih.0),
      Perm.trans (Perm.cons first ih.1) (exchange-perm m rest),
    )
