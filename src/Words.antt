-- ===== src/Words.antt =====
-- Texts as lists of code points, and the word boundaries of the regular expressions in
-- libs/common/src/db/duplicate-key.ts and apps/gateway/src/common/utils/parse-platform.ts.
use Prim.Native.Char.{code}
use nestjs_microservice_mono.Prelude.{
  ℕ, String, Bool, false, not, ◌&&◌, ◌||◌, Option, none, some, List, [], ◌∷◌, leb, nat_eq,
  if◌then◌else◌,
}

abbrev pub codes : String → List ℕ
codes String.[] = []
codes (String.◌∷◌ c s) = code c ∷ codes s

-- \w
unfoldable pub is_word : ℕ → Bool
is_word c =
    (leb b'a' c && leb c b'z')
    || (leb b'A' c && leb c b'Z')
    || (leb b'0' c && leb c b'9')
    || nat_eq c b'_'

unfoldable pub word_at : Option ℕ → Bool
unfolding is_word
word_at none = false
word_at (some c) = is_word c

-- \b between the character before and the character after.
unfoldable pub is_boundary : Option ℕ → Option ℕ → Bool
unfolding word_at
is_boundary before after = if word_at before then not (word_at after) else word_at after

abbrev pub head : List ℕ → Option ℕ
head [] = none
head (c ∷ cs) = some c

-- What follows a text that starts with the given one, with the last character that was read.
unfoldable pub strip : Option ℕ → List ℕ → List ℕ → Option (Option ℕ × List ℕ)
strip last [] s = some (last, s)
strip last (p ∷ ps) [] = none
strip last (p ∷ ps) (c ∷ s) = let rest = strip (some c) ps s in if nat_eq p c then rest else none

-- Does the pattern match at some position? It sees the character before.
unfoldable pub search_from : (Option ℕ → List ℕ → Bool) → Option ℕ → List ℕ → Bool
search_from matches before [] = matches before []
search_from matches before (c ∷ s) = matches before (c ∷ s) || search_from matches (some c) s

-- \bword\b
unfoldable pub whole_word : List ℕ → Option ℕ → List ℕ → Bool
unfolding is_boundary strip
whole_word w before s =
    is_boundary before (head s)
    && (elim (strip before w s) [ none ↦ false | some (last, rest) ↦ is_boundary last (head rest) ])

abbrev pub is_char : ℕ → Option ℕ → Bool
is_char k none = false
is_char k (some c) = nat_eq k c
