-- ===== src/Gateway/Platforms.antt =====
-- apps/gateway/src/common/utils/parse-platform.ts: the platform that a User-Agent hints at.
use nestjs_microservice_mono.Prelude.{
  ℕ, String, ◌≡◌, refl, Bool, false, ◌+◌, ◌&&◌, ◌||◌, Option, none, some, List, [], ◌∷◌, any, leb,
  nat_eq, truthy, or_else, not, if◌then◌else◌,
}
use mathlib.Core.List.{map}
use nestjs_microservice_mono.Trim.{is_space}
use nestjs_microservice_mono.Entities.{Platform, android, ios}
use nestjs_microservice_mono.Words.{codes, head, is_boundary, strip, search_from, whole_word}

-- `toLowerCase` on Latin-1, which a header's value is made of.
unfoldable pub lower : ℕ → ℕ
lower c =
    if leb b'A' c && leb c b'Z' || leb 192 c && leb c 222 && not (nat_eq c 215) then c + 32 else c

-- \s*, where what follows does not start with white space.
unfoldable pub skip_spaces : List ℕ → List ℕ
unfolding is_space
skip_spaces [] = []
skip_spaces (c ∷ s) = let rest = skip_spaces s in if is_space c then rest else c ∷ s

-- \biphone\s*os\b
unfoldable pub iphone_os : Option ℕ → List ℕ → Bool
unfolding is_boundary strip skip_spaces
iphone_os before s = is_boundary before (head s) && (elim (strip before (codes "iphone") s) [
  | none ↦ false
  | some (_, rest) ↦ elim (strip none (codes "os") (skip_spaces rest)) [
    | none ↦ false
    | some (last, rest') ↦ is_boundary last (head rest')
  ]
])

-- [;)\s]
abbrev closes_ios : Option ℕ → Bool
closes_ios none = false
closes_ios (some c) = nat_eq c b';' || nat_eq c b')' || is_space c

-- ;\s*ios[;)\s]
unfoldable pub ios_parameter : Option ℕ → List ℕ → Bool
unfolding strip skip_spaces is_space
ios_parameter before s = elim (strip before (codes ";") s) [
  | none ↦ false
  | some (_, rest) ↦ elim (strip none (codes "ios") (skip_spaces rest)) [
    | none ↦ false
    | some (_, rest') ↦ closes_ios (head rest')
  ]
]

unfoldable pub is_ios : List ℕ → Bool
unfolding whole_word iphone_os ios_parameter search_from
is_ios s =
    any (λ w. search_from (whole_word (codes w)) none s)
      ("darwin" ∷ "cfnetwork" ∷ "cupertino" ∷ "ios" ∷ [])
    || search_from iphone_os none s
    || search_from ios_parameter none s

unfoldable pub parse_platform_from_user_agent : Option String → Option Platform
unfolding lower is_ios whole_word search_from
parse_platform_from_user_agent ua =
    let s = map lower (codes (or_else ua "")) in
    if not (truthy ua)
    then none
    else if is_ios s
    then some ios
    else if search_from (whole_word (codes "android")) none s
    then some android
    else none

native_ios_test :
    parse_platform_from_user_agent (some "App/1 CFNetwork/1410 Darwin/22.6") ≡ some ios
unfolding parse_platform_from_user_agent
native_ios_test = refl

iphone_test : parse_platform_from_user_agent (some "Mozilla (iPhone OS 17)") ≡ some ios
unfolding parse_platform_from_user_agent
iphone_test = refl

dart_test : parse_platform_from_user_agent (some "Dart/3.2 (dart:io; Android)") ≡ some android
unfolding parse_platform_from_user_agent
dart_test = refl

browser_test : parse_platform_from_user_agent (some "Mozilla Curiosity/1 (X11; Linux)") ≡ none
unfolding parse_platform_from_user_agent
browser_test = refl
