-- ===== src/Gateway/OAuth/Retry.antt =====
-- How the verifiers' `fetch` with one retry ends.
use nestjs_microservice_mono.Prelude.{
  ℕ, String, ◌≡◌, refl, Bool, true, false, ◌&&◌, Option, leb, ◌⊎◌, inl, inr, Bool-cases,
}
use nestjs_microservice_mono.Errors.Defs.{Outcome, ok}
use nestjs_microservice_mono.Gateway.OAuth.{
  Fetched, network, response, upstream_unavailable, retried, attempted, fetch_with_retry,
}

module _ {B : Type 0} where
  -- An attempt that says nothing about the token: `fetch` threw, or the status is 5xx.
  abbrev pub is_down : Fetched B → Bool
  is_down (network _) = true
  is_down (response s _) = leb 500 s

  -- The provider is down: the only attempt threw, or both attempts failed.
  abbrev pub gave_up : Fetched B → Fetched B → Bool
  gave_up (network _) again = true
  gave_up (response s _) again = leb 500 s && is_down again

  pub data Ended (m : String) (first again : Fetched B) (r : Outcome (ℕ × Option B)) : Type 0 where
    down : gave_up first again ≡ true → r ≡ upstream_unavailable m → Ended m first again r
    failing :
        (s : ℕ) (b : Option B)
        → gave_up first again ≡ true
        → leb 500 s ≡ true
        → r ≡ ok (s, b)
        → Ended m first again r
    answered :
        (s : ℕ) (b : Option B)
        → (first ≡ response s b) ⊎ (again ≡ response s b)
        → leb 500 s ≡ false
        → r ≡ ok (s, b)
        → Ended m first again r

  retried-Ended :
      (m : String) (s : ℕ) (b : Option B) (again : Fetched B)
      → leb 500 s ≡ true
      → Ended m (response s b) again (retried m again)
  retried-Ended m s b (network x) h = down (rw h refl) refl
  retried-Ended m s b (response t c) h = elim (Bool-cases (leb 500 t)) [
    | inl broken ↦ failing t c (rw (h, broken) refl) broken refl
    | inr fine ↦ answered t c (inr refl) fine refl
  ]

  pub attempted-Ended :
      (m : String) (first again : Fetched B) → Ended m first again (attempted m first again)
  attempted-Ended m (network x) again = down refl refl
  attempted-Ended m (response s b) again = elim (Bool-cases (leb 500 s)) [
    | inl broken ↦ rw broken (retried-Ended m s b again broken)
    | inr fine ↦ answered s b (inl refl) fine (rw fine refl)
  ]

  -- A first attempt that answers 5xx leaves no trace where the second one answers something else:
  -- the fetch ends as it does where the second answer had come at once.
  pub fetch_with_retry-transient :
      (m : String) (f g : ℕ → Fetched B) (s t : ℕ) (b c : Option B)
      → f 0 ≡ response s b
      → leb 500 s ≡ true
      → f 1 ≡ response t c
      → leb 500 t ≡ false
      → g 0 ≡ response t c
      → fetch_with_retry m f ≡ fetch_with_retry m g
  unfolding fetch_with_retry
  fetch_with_retry-transient m f g s t b c first broken second fine once =
      rw (first, second, once, broken, fine) refl
