-- ===== src/Metrics/Series.antt =====
-- metrics.go: two samples are of the same series if they have the same name and the same labels, and
-- the registry rejects a scrape that has a series twice.
use pulsebox.Base.{
  ℕ, suc, ◌≤◌, String, Bool, true, false, ◌&&◌, List, [], ◌∷◌, ◌++◌, ◌≡◌, refl, sym, ◌∙◌, ap, arith,
  ◌==◌, string_eq, eq_iff, All, Bool-cases, inl, inr,
}
use pulsebox.Metrics.{Sample, each, flatten}
use pulsebox.Metrics.Labels.{All-append}

abbrev pub same_labels : List String → List String → Bool
same_labels [] [] = true
same_labels [] (b ∷ m) = false
same_labels (a ∷ l) [] = false
same_labels (a ∷ l) (b ∷ m) = a == b && same_labels l m

same_labels-eq : (l m : List String) → same_labels l m ≡ true → l ≡ m
same_labels-eq [] [] h = refl
same_labels-eq [] (b ∷ m) h = absurd (ground (arith, h))
same_labels-eq (a ∷ l) [] h = absurd (ground (arith, h))
same_labels-eq (a ∷ l) (b ∷ m) h = ground (arith, eq_iff a b, same_labels-eq l m)

same_labels_self : (l : List String) → same_labels l l ≡ true
same_labels_self [] = refl
same_labels_self (a ∷ l) = ground (arith, eq_iff a a, same_labels_self l)

-- No two elements have the same key.
abbrev pub KeysOnce : {A : Type 0} → (A → List String) → List A → Type 0
KeysOnce key [] = Unit
KeysOnce key (x ∷ xs) = All (λ y. same_labels (key x) (key y) ≡ false) xs × KeysOnce key xs

module _ {F : Type 0} where
  abbrev pub same_series : Sample F → Sample F → Bool
  same_series s t = s.desc.name == t.desc.name && same_labels s.labels t.labels

  -- No series stands twice.
  abbrev pub SeriesOnce : List (Sample F) → Type 0
  SeriesOnce [] = Unit
  SeriesOnce (s ∷ ss) = All (λ t. same_series s t ≡ false) ss × SeriesOnce ss

  -- What a series decides, tells two apart.
  apart :
      {X : Type 0} (part : String → List String → X) (s t : Sample F)
      → (part s.desc.name s.labels ≡ part t.desc.name t.labels → ⊥)
      → same_series s t ≡ false
  apart part s t differ = elim (Bool-cases (same_series s t)) [
    | inr e ↦ e
    | inl e ↦
        let (n, l) = both (s.desc.name == t.desc.name) (same_labels s.labels t.labels) e in
        absurd (
          differ (
            ap (λ z. part z s.labels) ((eq_iff s.desc.name t.desc.name).0 n)
            ∙ ap (part t.desc.name) (same_labels-eq s.labels t.labels l)))
  ]
    where
      both : (a b : Bool) → (a && b) ≡ true → (a ≡ true) × (b ≡ true)
      both a b h = ground arith

  All-map :
      (P Q : Sample F → Type 0) (ss : List (Sample F))
      → ((s : Sample F) → P s → Q s)
      → All P ss
      → All Q ss
  All-map P Q [] f h = tt
  All-map P Q (s ∷ ss) f h = (f s h.0, All-map P Q ss f h.1)

  -- Two lists whose series are apart.
  append-SeriesOnce :
      (ss ts : List (Sample F))
      → SeriesOnce ss
      → SeriesOnce ts
      → All (λ s. All (λ t. same_series s t ≡ false) ts) ss
      → SeriesOnce (ss ++ ts)
  append-SeriesOnce [] ts p q h = q
  append-SeriesOnce (s ∷ ss) ts p q h =
      (All-append (λ t. same_series s t ≡ false) ss ts p.0 h.0, append-SeriesOnce ss ts p.1 q h.1)

  -- The samples of elements with other keys, where a series decides the key.
  each-apart :
      {A : Type 0} (key : A → List String) (part : String → List String → List String)
      (samples : A → List (Sample F)) (s : Sample F) (x : A) (ys : List A)
      → ((y : A) → All (λ t. part t.desc.name t.labels ≡ key y) (samples y))
      → part s.desc.name s.labels ≡ key x
      → All (λ y. same_labels (key x) (key y) ≡ false) ys
      → All (λ t. same_series s t ≡ false) (each samples ys)
  unfolding each
  each-apart key part samples s x [] of_key p h = tt
  each-apart key part samples s x (y ∷ ys) of_key p h =
      All-append (λ t. same_series s t ≡ false) (samples y) _
        (All-map _ _ (samples y)
          (λ t q. apart part s t (λ e. other (key x) (key y) h.0 (sym p ∙ e ∙ q))) (of_key y))
        (each-apart key part samples s x ys of_key p h.1)
    where
      other : (l m : List String) → same_labels l m ≡ false → l ≡ m → ⊥
      other l m h e = ground (arith, h, same_labels_self m, rw e at h)

  pub each-SeriesOnce :
      {A : Type 0} (key : A → List String) (part : String → List String → List String)
      (samples : A → List (Sample F)) (xs : List A)
      → ((x : A) → All (λ s. part s.desc.name s.labels ≡ key x) (samples x))
      → All (λ x. SeriesOnce (samples x)) xs
      → KeysOnce key xs
      → SeriesOnce (each samples xs)
  unfolding each
  each-SeriesOnce key part samples [] of_key own once = tt
  each-SeriesOnce key part samples (x ∷ xs) of_key own once =
      append-SeriesOnce (samples x) _ own.0
        (each-SeriesOnce key part samples xs of_key own.1 once.1)
        (All-map _ _ (samples x) (λ s p. each-apart key part samples s x xs of_key p once.0)
          (of_key x))

  -- Loops that are numbered upwards, where a series decides the number.
  abbrev pub Numbered : (String → List String → ℕ) → ℕ → List (List (Sample F)) → Type 0
  Numbered number k [] = Unit
  Numbered number k (ss ∷ rest) =
      (SeriesOnce ss × All (λ s. number s.desc.name s.labels ≡ k) ss) × Numbered number (suc k) rest

  Above : (String → List String → ℕ) → ℕ → List (Sample F) → Type 0
  Above number k ss = All (λ s. k ≤ number s.desc.name s.labels) ss

  flatten-Above :
      (number : String → List String → ℕ) (k : ℕ) (lists : List (List (Sample F)))
      → Numbered number k lists
      → Above number k (flatten lists)
  unfolding flatten Above
  flatten-Above number k [] h = tt
  flatten-Above number k (ss ∷ rest) h =
      All-append (λ s. k ≤ number s.desc.name s.labels) ss _
        (All-map _ _ ss (λ s e. omega (arith, e)) h.0.1)
        (All-map _ _ (flatten rest) (λ s e. omega (arith, e))
          (flatten-Above number (suc k) rest h.1))

  pub flatten-SeriesOnce :
      (number : String → List String → ℕ) (k : ℕ) (lists : List (List (Sample F)))
      → Numbered number k lists
      → SeriesOnce (flatten lists)
  unfolding flatten Above
  flatten-SeriesOnce number k [] h = tt
  flatten-SeriesOnce number k (ss ∷ rest) h =
      append-SeriesOnce ss _ h.0.0 (flatten-SeriesOnce number (suc k) rest h.1)
        (All-map _ _ ss (λ s e. later s e (flatten-Above number (suc k) rest h.1)) h.0.1)
    where
      later :
          (s : Sample F)
          → number s.desc.name s.labels ≡ k
          → Above number (suc k) (flatten rest)
          → All (λ t. same_series s t ≡ false) (flatten rest)
      later s e above =
          All-map _ _ (flatten rest) (λ t q. apart number s t (λ f. omega (arith, e, q, f))) above
