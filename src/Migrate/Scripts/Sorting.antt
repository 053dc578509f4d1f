-- ===== src/Migrate/Scripts/Sorting.antt =====
-- The sorted list of the files.
use nestjs_microservice_mono.Prelude.{
  ◌≡◌, ◌↔◌, refl, ◌⊎◌, inl, inr, true, false, Bool-cases, List, [], ◌∷◌, In, All, arith,
}
use nestjs_microservice_mono.Migrate.Scripts.{FileName, comes_before, inserted, sorted}

-- Each name comes before all that follow it.
abbrev pub IsAscending : List FileName → Type 0
IsAscending [] = Unit
IsAscending (f ∷ fs) = All (λ g. comes_before f g ≡ true) fs × IsAscending fs

-- One of two names comes before the other.
comes_before_total : (a b : FileName) → comes_before a b ≡ false → comes_before b a ≡ true
unfolding comes_before
comes_before_total [] b h = cc
comes_before_total (c ∷ cs) [] h = refl
comes_before_total (c ∷ cs) (d ∷ ds) h = ground (arith, comes_before_total cs ds)

comes_before_trans :
    (a b c : FileName) → comes_before a b ≡ true → comes_before b c ≡ true → comes_before a c ≡ true
unfolding comes_before
comes_before_trans [] b c h k = refl
comes_before_trans (x ∷ xs) [] c h k = cc
comes_before_trans (x ∷ xs) (y ∷ ys) [] h k = cc
comes_before_trans (x ∷ xs) (y ∷ ys) (z ∷ zs) h k = ground (arith, comes_before_trans xs ys zs)

module _ (P : FileName → Type 0) where
  inserted-All : (f : FileName) (fs : List FileName) → P f → All P fs → All P (inserted f fs)
  unfolding inserted
  inserted-All f [] p h = (p, tt)
  inserted-All f (g ∷ gs) p h = elim (Bool-cases (comes_before f g)) [
    | inl first ↦ rw first (p, h)
    | inr later ↦ rw later (h.0, inserted-All f gs p h.1)
  ]

after_all :
    (f g : FileName) (gs : List FileName)
    → comes_before f g ≡ true
    → All (λ h. comes_before g h ≡ true) gs
    → All (λ h. comes_before f h ≡ true) gs
after_all f g [] p h = tt
after_all f g (x ∷ xs) p h = (comes_before_trans f g x p h.0, after_all f g xs p h.1)

inserted-IsAscending :
    (f : FileName) (fs : List FileName) → IsAscending fs → IsAscending (inserted f fs)
unfolding inserted
inserted-IsAscending f [] h = (tt, tt)
inserted-IsAscending f (g ∷ gs) h = elim (Bool-cases (comes_before f g)) [
  | inl first ↦ rw first ((first, after_all f g gs first h.0), h)
  | inr later ↦ rw later (
    inserted-All (λ x. comes_before g x ≡ true) f gs (comes_before_total f g later) h.0,
    inserted-IsAscending f gs h.1,
  )
]

pub sorted-IsAscending : (fs : List FileName) → IsAscending (sorted fs)
unfolding sorted
sorted-IsAscending [] = tt
sorted-IsAscending (f ∷ fs) = inserted-IsAscending f (sorted fs) (sorted-IsAscending fs)

In-inserted : (x f : FileName) (fs : List FileName) → In x (inserted f fs) ↔ ((x ≡ f) ⊎ In x fs)
unfolding inserted
In-inserted x f [] = (λ i. i, λ i. i)
In-inserted x f (g ∷ gs) = elim (Bool-cases (comes_before f g)) [
  | inl first ↦ rw first (λ i. i, λ i. i)
  | inr later ↦
      let (to, from) = In-inserted x f gs in
      rw later (
        λ i. elim i [
          | inl e ↦ inr (inl e)
          | inr j ↦ elim (to j) [ inl e ↦ inl e | inr k ↦ inr (inr k) ]
        ],
        λ i. elim i [
          | inl e ↦ inr (from (inl e))
          | inr j ↦ elim j [ inl e ↦ inl e | inr k ↦ inr (from (inr k)) ]
        ],
      )
]

pub In-sorted : (x : FileName) (fs : List FileName) → In x (sorted fs) ↔ In x fs
unfolding sorted
In-sorted x [] = (λ i. i, λ i. i)
In-sorted x (f ∷ fs) =
    let (to, from) = In-inserted x f (sorted fs) in
    let (down, up) = In-sorted x fs in
    (
      λ i. elim (to i) [ inl e ↦ inl e | inr j ↦ inr (down j) ],
      λ i. elim i [ inl e ↦ from (inl e) | inr j ↦ from (inr (up j)) ],
    )
