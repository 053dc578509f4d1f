-- ===== src/Trim.antt =====
-- `String.prototype.trim`, which the device header goes through.
use Prim.Native.Char.{code}
use nestjs_microservice_mono.Prelude.{
  ℕ, String, ◌≡◌, refl, Bool, true, ◌&&◌, ◌||◌, leb, nat_eq, if◌then◌else◌,
}

-- WhiteSpace and LineTerminator of ECMAScript.
unfoldable pub is_space : ℕ → Bool
is_space c =
    (leb 9 c && leb c 13)
    || nat_eq c 32
    || nat_eq c 160
    || nat_eq c 0x1680
    || (leb 0x2000 c && leb c 0x200a)
    || nat_eq c 0x2028
    || nat_eq c 0x2029
    || nat_eq c 0x202f
    || nat_eq c 0x205f
    || nat_eq c 0x3000
    || nat_eq c 0xfeff

-- Is the text nothing but white space?
unfoldable pub is_blank : String → Bool
unfolding is_space
is_blank String.[] = true
is_blank (String.◌∷◌ c s) = is_space (code c) && is_blank s

unfoldable pub trim_end : String → String
unfolding is_blank
trim_end String.[] = ""
trim_end (String.◌∷◌ c s) =
    let rest = String.◌∷◌ c (trim_end s) in if is_space (code c) && is_blank s then "" else rest

unfoldable pub trim_start : String → String
unfolding is_space
trim_start String.[] = ""
trim_start (String.◌∷◌ c s) =
    let rest = trim_start s in if is_space (code c) then rest else String.◌∷◌ c s

unfoldable pub trim : String → String
unfolding trim_end trim_start
trim s = trim_end (trim_start s)

trim_test : trim "  a b \n" ≡ "a b"
unfolding trim
trim_test = refl
