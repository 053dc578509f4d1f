-- ===== src/Tools/Scaffold.antt =====
-- tools/scaffold-service.mjs: the names that it derives. A text is the list of its code points.
pub mod Names
pub mod Edits
use nestjs_microservice_mono.Prelude.{
  ℕ, ◌-◌, String, ◌≡◌, refl, Bool, true, false, not, ◌&&◌, ◌||◌, Option, none, some, List, [], ◌∷◌,
  ◌++◌, leb, nat_eq, ◌==◌, template, if◌then◌else◌,
}
use nestjs_microservice_mono.Words.{codes}

abbrev pub Text : Type 0
Text = List ℕ

abbrev pub is_lower : ℕ → Bool
is_lower c = leb b'a' c && leb c b'z'

abbrev pub is_alnum : ℕ → Bool
is_alnum c = is_lower c || (leb b'0' c && leb c b'9')

-- /^[a-z][a-z0-9]*(-[a-z0-9]+)*$/, from the second character on; the flag is set right after a dash.
unfoldable pub is_kebab_rest : Bool → Text → Bool
is_kebab_rest after_dash [] = not after_dash
is_kebab_rest after_dash (c ∷ cs) =
    (is_alnum c && is_kebab_rest false cs)
    || (not after_dash && (nat_eq c b'-' && is_kebab_rest true cs))

unfoldable pub is_kebab : Text → Bool
unfolding is_kebab_rest
is_kebab [] = false
is_kebab (c ∷ cs) = is_lower c && is_kebab_rest false cs

-- `kebab.replaceAll('-', '_')`
abbrev pub snake_char : ℕ → ℕ
snake_char c = if nat_eq c b'-' then b'_' else c

unfoldable pub snake : Text → Text
snake [] = []
snake (c ∷ cs) = snake_char c ∷ snake cs

-- `toUpperCase` on the characters of a name.
abbrev pub upper_char : ℕ → ℕ
upper_char c = if is_lower c then c - 32 else c

unfoldable pub upper_snake : Text → Text
upper_snake [] = []
upper_snake (c ∷ cs) = upper_char c ∷ upper_snake cs

unfoldable pub const_name : Text → Text
unfolding snake upper_snake
const_name kebab = upper_snake (snake kebab) ++ codes "_SERVICE"

-- `snake.replace(/_([a-z0-9])/g, (_, c) => c.toUpperCase())`; the flag is set right after an underscore.
camel_from : Bool → Text → Text
camel_from true [] = b'_' ∷ []
camel_from false [] = []
camel_from true (c ∷ cs) =
    if is_alnum c
    then upper_char c ∷ camel_from false cs
    else if nat_eq c b'_'
    then b'_' ∷ camel_from true cs
    else b'_' ∷ c ∷ camel_from false cs
camel_from false (c ∷ cs) = if nat_eq c b'_' then camel_from true cs else c ∷ camel_from false cs

unfoldable pub camel : Text → Text
unfolding camel_from snake
camel kebab = camel_from false (snake kebab)

capitalised : Text → Text
capitalised [] = []
capitalised (c ∷ cs) = upper_char c ∷ cs

pascal : Text → Text
unfolding capitalised camel
pascal kebab = capitalised (camel kebab)

unfoldable pub derived_queue : Text → Text
unfolding snake
derived_queue kebab = snake kebab ++ codes "_service_queue"

habit_test : const_name (codes "habit-tracker") ≡ codes "HABIT_TRACKER_SERVICE"
unfolding const_name
habit_test = refl

habit_camel_test : camel (codes "habit-tracker") ≡ codes "habitTracker"
unfolding camel
habit_camel_test = refl

habit_pascal_test : pascal (codes "habit-tracker") ≡ codes "HabitTracker"
unfolding pascal
habit_pascal_test = refl

-- Two names may have one method on the RPC client.
same_camel_test : camel (codes "plan-2") ≡ camel (codes "plan2")
unfolding camel
same_camel_test = refl
