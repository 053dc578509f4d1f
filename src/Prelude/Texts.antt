-- ===== src/Prelude/Texts.antt =====
-- Template literals, and the truth value of an optional text.
use Prim.Native.String
use Prim.Native.String.{String}
use mathlib.Core.Path.{◌≡◌, refl, sym, ◌∙◌}
use mathlib.Core.Bool.{Bool, true, false, not, false≢true}
use mathlib.Core.Option.{Option, none, some}
use mathlib.Core.List.{List, [], ◌∷◌}
use text.Mathlib.Text.{◌==◌}
use text.Mathlib.TextEquality.{eq_iff}

-- The parts of a template literal, joined.
abbrev pub template : List String → String
template [] = ""
template (s ∷ ss) = String.◌++◌ s (template ss)

-- `!!s` of a text that may be undefined: the empty text is falsy.
abbrev pub truthy : Option String → Bool
truthy none = false
truthy (some s) = not (s == "")

-- `s ?? d`
abbrev pub or_else {ℓ} : {A : Type ℓ} → Option A → A → A
or_else none d = d
or_else (some a) d = a

-- `a ?? b` of two optional values.
abbrev pub or_option {ℓ} : {A : Type ℓ} → Option A → Option A → Option A
or_option none b = b
or_option (some a) b = some a

-- Two texts that compare as different are not equal.
pub differ-absurd : (a b : String) → (a == b) ≡ false → a ≡ b → ⊥
differ-absurd a b h e = false≢true (sym h ∙ (eq_iff a b).1 e)

pub truthy-some : (o : Option String) → truthy o ≡ true → o ≡ some (or_else o "")
truthy-some none h = cc
truthy-some (some s) h = refl
