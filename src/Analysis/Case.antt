-- ===== src/Analysis/Case.antt =====
-- core/analysisutil/ast.go: `SnakeToPascal` and `PascalToSnake`. `Unicode` holds the functions of the
-- package unicode, whose tables are Go's.
pub mod Ascii
pub mod RoundTrip
use Prim.Native.Char.{Char, code}
use Prim.Native.String
use go_arch_guard.Prelude.{
  String, Bool, true, false, ◌&&◌, ◌||◌, ltb, Option, none, some, List, [], ◌∷◌, ◌^^◌, char_eq,
  if◌then◌else◌,
}

pub record Unicode : Type 0 where
  pub is_upper : Char → Bool
  pub is_lower : Char → Bool
  pub is_digit : Char → Bool
  pub to_upper : Char → Char
  pub to_lower : Char → Char

-- strings.Split(s, string(c))
abbrev pub extend : Char → List String → List String
extend c [] = String.◌∷◌ c "" ∷ []
extend c (p ∷ ps) = String.◌∷◌ c p ∷ ps

unfoldable pub split_on : Char → String → List String
split_on c String.[] = "" ∷ []
split_on c (String.◌∷◌ d s) =
    let rest = split_on c s in if char_eq d c then "" ∷ rest else extend d rest

-- every part begins with a character in ASCII, or is empty
unfoldable pub start_ascii : List String → Bool
start_ascii [] = true
start_ascii (String.[] ∷ parts) = start_ascii parts
start_ascii (String.◌∷◌ c s ∷ parts) = ltb (code c) 128 && start_ascii parts

module _ (u : Unicode) where
  -- `strings.ToUpper(part[:1]) + part[1:]`, for a first character in ASCII
  abbrev pub capitalize : String → String
  capitalize String.[] = ""
  capitalize (String.◌∷◌ c s) = String.◌∷◌ (u.to_upper c) s

  -- the loop over the parts, whose builder takes nothing of an empty one
  unfoldable pub pascal_parts : List String → String
  pascal_parts [] = ""
  pascal_parts (part ∷ parts) = capitalize part ^^ pascal_parts parts

  -- `none` is a result that is no text: `part[:1]` of a first character outside ASCII is the first of
  -- its bytes, which strings.ToUpper replaces by U+FFFD, and its other bytes follow.
  unfoldable pub snake_to_pascal : String → Option String
  unfolding split_on start_ascii pascal_parts
  snake_to_pascal s =
      let parts = split_on "_" s in if start_ascii parts then some (pascal_parts parts) else none

  abbrev pub starts_lower : String → Bool
  starts_lower String.[] = false
  starts_lower (String.◌∷◌ c s) = u.is_lower c

  -- the loop from the second character on, with the one before
  unfoldable pub snake_loop : Char → String → String
  snake_loop prev String.[] = ""
  snake_loop prev (String.◌∷◌ r s) =
      let rest = String.◌∷◌ (u.to_lower r) (snake_loop r s) in
      if u.is_upper r && (u.is_lower prev || u.is_digit prev || (u.is_upper prev && starts_lower s))
      then String.◌∷◌ "_" rest
      else rest

  unfoldable pub pascal_to_snake : String → String
  unfolding snake_loop
  pascal_to_snake String.[] = ""
  pascal_to_snake (String.◌∷◌ r s) = String.◌∷◌ (u.to_lower r) (snake_loop r s)
