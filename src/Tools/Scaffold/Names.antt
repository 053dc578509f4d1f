-- ===== src/Tools/Scaffold/Names.antt =====
-- What the derived names keep apart.
use nestjs_microservice_mono.Prelude.{
  ℕ, ◌≡◌, ◌≢◌, refl, not, Bool, true, false, [], ◌∷◌, All, arith, nat_eq, Bool-cases, inl, inr,
  ◌&&◌,
}
use mathlib.Core.List.{append_cancel_right}
use nestjs_microservice_mono.Words.{codes}
use nestjs_microservice_mono.Users.Common.{and-true}
use nestjs_microservice_mono.Tools.Scaffold.{
  Text, is_lower, is_alnum, is_kebab_rest, is_kebab, snake_char, snake, derived_queue,
}

abbrev IsPlain : Text → Type 0
IsPlain = All (λ c. c ≢ b'_')

alnum_plain : (c : ℕ) → is_alnum c ≡ true → c ≢ b'_'
alnum_plain c h e = ground arith

dash_plain : (c : ℕ) → nat_eq c b'-' ≡ true → c ≢ b'_'
dash_plain c h e = ground arith

lower_plain : (c : ℕ) → is_lower c ≡ true → c ≢ b'_'
lower_plain c h e = ground arith

kebab_head :
    (after_dash : Bool) (c : ℕ) (cs : Text)
    → is_kebab_rest after_dash (c ∷ cs) ≡ true
    → (b : Bool) × (c ≢ b'_') × (is_kebab_rest b cs ≡ true)
unfolding is_kebab_rest
kebab_head after_dash c cs h = elim (Bool-cases (is_alnum c && is_kebab_rest false cs)) [
  | inl letter ↦
      let (alnum, more) = and-true (is_alnum c) _ letter in (false, alnum_plain c alnum, more)
  | inr other ↦
      let (_, dash) = and-true (not after_dash) _ (rw other at h) in
      let (is_dash, more) = and-true (nat_eq c b'-') _ dash in (true, dash_plain c is_dash, more)
]

rest-IsPlain : (after_dash : Bool) (cs : Text) → is_kebab_rest after_dash cs ≡ true → IsPlain cs
rest-IsPlain after_dash [] h = tt
rest-IsPlain after_dash (c ∷ cs) h =
    let (b, plain, more) = kebab_head after_dash c cs h in (plain, rest-IsPlain b cs more)

kebab-IsPlain : (cs : Text) → is_kebab cs ≡ true → IsPlain cs
unfolding is_kebab
kebab-IsPlain [] h = tt
kebab-IsPlain (c ∷ cs) h =
    let (letter, more) = and-true (is_lower c) _ h in
    (lower_plain c letter, rest-IsPlain false cs more)

snake_char-injective : (c d : ℕ) → c ≢ b'_' → d ≢ b'_' → snake_char c ≡ snake_char d → c ≡ d
snake_char-injective c d p q e = ground arith

snake-injective : (a b : Text) → IsPlain a → IsPlain b → snake a ≡ snake b → a ≡ b
unfolding snake
snake-injective [] [] p q e = refl
snake-injective [] (d ∷ ds) p q e = cc
snake-injective (c ∷ cs) [] p q e = cc
snake-injective (c ∷ cs) (d ∷ ds) p q e =
    let same : snake_char c ≡ snake_char d = cc in
    let more : snake cs ≡ snake ds = cc in
    let first = snake_char-injective c d p.0 q.0 same in
    let rest = snake-injective cs ds p.1 q.1 more in cc

-- Two services whose names the script accepts never share a derived_queue.
pub derived_queue-injective :
    (a b : Text) → is_kebab a ≡ true → is_kebab b ≡ true → derived_queue a ≡ derived_queue b → a ≡ b
unfolding derived_queue
derived_queue-injective a b p q e =
    snake-injective a b (kebab-IsPlain a p) (kebab-IsPlain b q)
      (append_cancel_right (snake a) (snake b) (codes "_service_queue") e)
