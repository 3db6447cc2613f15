-- ===== src/Alias.antt =====
-- The alias policy, packages/contracts/src/alias-policy.ts: the regular expressions for short codes
-- and for the paths that lead to them, matched over code points.
pub mod Shape
mod Tests
use Prim.Native.Char.{code}
use Prim.Native.String
use urlfy_cc.Common.{
  ℕ, zero, suc, ◌-◌, Bool, true, false, ◌&&◌, ◌||◌, String, List, [], ◌∷◌, ◌++◌, ◌==◌, leb,
}

-- The code points of a text.
abbrev pub codes : String → List ℕ
codes String.[] = []
codes (String.◌∷◌ c s) = code c ∷ codes s

-- A regular expression as the policy uses them: characters that have to come, and some that may.
pub data Item : Type 0 where
  need may : (ℕ → Bool) → Item

abbrev pub copies : ℕ → Item → List Item
copies zero i = []
copies (suc n) i = i ∷ copies n i

-- `x{lo,hi}`
abbrev pub repeat : ℕ → ℕ → (ℕ → Bool) → List Item
repeat lo hi p = copies lo (need p) ++ copies (hi - lo) (may p)

-- `^…$` against a whole text, with backtracking over the characters that may come.
unfoldable pub matches : List Item → List ℕ → Bool
matches [] [] = true
matches [] (c ∷ cs) = false
matches (need p ∷ is) [] = false
matches (need p ∷ is) (c ∷ cs) = p c && matches is cs
matches (may p ∷ is) [] = matches is []
matches (may p ∷ is) (c ∷ cs) = elim (matches is (c ∷ cs)) [
  | true ↦ true
  | false ↦ p c && matches is cs
]

abbrev pub alias_min_length : ℕ
alias_min_length = 3

abbrev pub alias_max_length : ℕ
alias_max_length = 20

-- `[a-zA-Z0-9]`
unfoldable pub is_alphanumeric : ℕ → Bool
is_alphanumeric c =
    (leb b'a' c && leb c b'z') || (leb b'A' c && leb c b'Z') || (leb b'0' c && leb c b'9')

-- `[a-zA-Z0-9-]`
abbrev pub is_alias_character : ℕ → Bool
is_alias_character c = is_alphanumeric c || c == b'-'

abbrev pub is_slash : ℕ → Bool
is_slash c = c == b'/'

-- `[a-zA-Z0-9][a-zA-Z0-9-]{1,18}[a-zA-Z0-9]`
abbrev pub alias_pattern : List Item
alias_pattern =
    need is_alphanumeric ∷ (repeat 1 18 is_alias_character ++ (need is_alphanumeric ∷ []))

-- `^/…/?$` and `^/r/…/?$`
abbrev pub alias_path_segment_regex : List Item
alias_path_segment_regex = need is_slash ∷ (alias_pattern ++ (may is_slash ∷ []))

abbrev pub alias_redirect_path_regex : List Item
alias_redirect_path_regex =
    need is_slash ∷ need (λ c. c == b'r') ∷ need is_slash ∷ (alias_pattern ++ (may is_slash ∷ []))

unfoldable pub is_alias_format : String → Bool
unfolding matches
is_alias_format value = matches alias_pattern (codes value)
