-- ===== src/Prelude/Lists.antt =====
-- Lists measured by native numbers, membership and universal predicates by recursion.
use Prim.Native.Nat.{ℕ, zero, suc}
use mathlib.Core.Path.{◌≡◌, refl, sym, ◌∙◌}
use mathlib.Core.Logic.{◌⊎◌, inl, inr}
use mathlib.Core.Bool.{Bool, true, false, ◌||◌, false≢true}
use mathlib.Core.List.{◌++◌, List, [], ◌∷◌}
use nestjs_microservice_mono.Prelude.Tests.{if◌then◌else◌, Bool-cases}

module _ {ℓ} {A : Type ℓ} where
  abbrev pub length : List A → ℕ
  length [] = 0
  length (x ∷ xs) = suc (length xs)

  abbrev pub take : ℕ → List A → List A
  take zero xs = []
  take (suc n) [] = []
  take (suc n) (x ∷ xs) = x ∷ take n xs

  -- The elements that pass a Boolean test.
  abbrev pub keep : (A → Bool) → List A → List A
  keep p [] = []
  keep p (x ∷ xs) = let rest = keep p xs in if p x then x ∷ rest else rest

  abbrev pub any : (A → Bool) → List A → Bool
  any p [] = false
  any p (x ∷ xs) = p x || any p xs

abbrev pub In : {A : Type 0} → A → List A → Type 0
In a [] = ⊥
In a (x ∷ xs) = (a ≡ x) ⊎ In a xs

module _ {κ} {A : Type 0} where
  abbrev pub All : (A → Type κ) → List A → Type κ
  All P [] = Unit
  All P (x ∷ xs) = P x × All P xs

  pub All-In : (P : A → Type κ) (a : A) (xs : List A) → All P xs → In a xs → P a
  All-In P a [] h i = elim i [ ]
  All-In P a (x ∷ xs) h (inl e) = rw e h.0
  All-In P a (x ∷ xs) h (inr i) = All-In P a xs h.1 i

module _ {A : Type 0} where
  pub member-any : (f : A → Bool) (a : A) (xs : List A) → In a xs → f a ≡ true → any f xs ≡ true
  member-any f a [] i h = absurd i
  member-any f a (x ∷ xs) (inl e) h = rw (← e, h) refl
  member-any f a (x ∷ xs) (inr i) h = elim (Bool-cases (f x)) [
    | inl found ↦ rw found refl
    | inr other ↦ rw other (member-any f a xs i h)
  ]

  pub none_of-any : (f : A → Bool) (a : A) (xs : List A) → In a xs → any f xs ≡ false → f a ≡ false
  none_of-any f a xs i h = elim (Bool-cases (f a)) [
    | inl found ↦ absurd (false≢true (sym h ∙ member-any f a xs i found))
    | inr other ↦ other
  ]

  pub any-append : (f : A → Bool) (xs : List A) (x : A) → f x ≡ true → any f (xs ++ x ∷ []) ≡ true
  any-append f [] x h = rw h refl
  any-append f (y ∷ ys) x h = elim (Bool-cases (f y)) [
    | inl found ↦ rw found refl
    | inr other ↦ rw other (any-append f ys x h)
  ]
