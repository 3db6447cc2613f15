-- ===== src/Alias/Shape.antt =====
-- What the regular expressions of packages/contracts/src/alias-policy.ts accept.
use urlfy_cc.Common.{
  ℕ, zero, suc, ◌≤◌, ◌≡◌, refl, ◌↔◌, Bool, true, false, ◌&&◌, String, List, [], ◌∷◌, ◌++◌, leb,
  length, arith, all, ap, ◌∙◌,
}
use urlfy_cc.Alias.{
  codes, Item, need, may, copies, matches, is_alphanumeric, is_alias_character, is_slash,
  alias_pattern, alias_path_segment_regex, alias_redirect_path_regex, is_alias_format,
  alias_min_length, alias_max_length,
}

abbrev pub starts_with : (ℕ → Bool) → List ℕ → Bool
starts_with p [] = false
starts_with p (c ∷ cs) = p c

abbrev pub ends_with : (ℕ → Bool) → List ℕ → Bool
ends_with p [] = false
ends_with p (c ∷ []) = p c
ends_with p (c ∷ (d ∷ cs)) = ends_with p (d ∷ cs)

-- All but the last character satisfy `q`, and the last, which is there, `p`.
body_ok : (ℕ → Bool) → (ℕ → Bool) → List ℕ → Bool
body_ok q p [] = false
body_ok q p (c ∷ []) = p c
body_ok q p (c ∷ (d ∷ cs)) = q c && body_ok q p (d ∷ cs)

module _ (q p : ℕ → Bool) where
  matches-body :
      (k : ℕ) (cs : List ℕ)
      → matches (copies k (may q) ++ (need p ∷ [])) cs ≡ (leb (length cs) (suc k) && body_ok q p cs)
  unfolding matches body_ok
  matches-body zero [] = refl
  matches-body zero (c ∷ []) = ground arith
  matches-body zero (c ∷ (d ∷ cs)) = ground arith
  matches-body (suc k) [] = ground (arith, matches-body k [])
  matches-body (suc k) (c ∷ []) = ground (arith, matches-body k (c ∷ []), matches-body k [])
  matches-body (suc k) (c ∷ (d ∷ cs)) =
      ground (arith, matches-body k (c ∷ (d ∷ cs)), matches-body k (d ∷ cs))

body_ok-split :
    (q p : ℕ → Bool) (cs : List ℕ)
    → ((c : ℕ) → p c ≡ true → q c ≡ true)
    → body_ok q p cs ≡ (all q cs && ends_with p cs)
unfolding body_ok
body_ok-split q p [] h = refl
body_ok-split q p (c ∷ []) h = ground (arith, h c)
body_ok-split q p (c ∷ (d ∷ cs)) h = ground (arith, body_ok-split q p (d ∷ cs) h)

-- What an alias is, in words: 3 to 20 letters, digits and hyphens, none at the ends.
pub record IsAlias (cs : List ℕ) : Type 0 where
  pub long_enough : alias_min_length ≤ length cs
  pub short_enough : length cs ≤ alias_max_length
  pub characters : all is_alias_character cs ≡ true
  pub first : starts_with is_alphanumeric cs ≡ true
  pub last : ends_with is_alphanumeric cs ≡ true

alias_body :
    (cs : List ℕ)
    → matches (copies 17 (may is_alias_character) ++ (need is_alphanumeric ∷ [])) cs
      ≡ (leb (length cs) 18 && (all is_alias_character cs && ends_with is_alphanumeric cs))
alias_body cs =
    matches-body is_alias_character is_alphanumeric 17 cs
    ∙ ap (λ b. leb (length cs) 18 && b)
        (body_ok-split is_alias_character is_alphanumeric cs (λ c h. rw h))

alias_value :
    (c d : ℕ) (cs : List ℕ)
    → matches alias_pattern (c ∷ (d ∷ cs)) ≡ (
        is_alphanumeric c
        && (is_alias_character d
            && (leb (length cs) 18 && (all is_alias_character cs && ends_with is_alphanumeric cs))))
unfolding matches
alias_value c d cs = ap (λ b. is_alphanumeric c && (is_alias_character d && b)) (alias_body cs)

alias_short :
    (c : ℕ) → (matches alias_pattern [] ≡ false) × (matches alias_pattern (c ∷ []) ≡ false)
unfolding matches
alias_short c = ground arith

IsAlias-iff : (cs : List ℕ) → (matches alias_pattern cs ≡ true) ↔ IsAlias cs
IsAlias-iff [] = ground (arith, alias_short 0)
IsAlias-iff (c ∷ []) = ground (arith, alias_short c)
IsAlias-iff (c ∷ (d ∷ [])) = ground (arith, alias_value c d [])
IsAlias-iff (c ∷ (d ∷ (e ∷ cs))) =
    rw (alias_value c d (e ∷ cs)) (λ h. ground arith, λ a. ground arith)

-- The regular expression accepts exactly the texts of 3 to 20 characters, the policy's two bounds,
-- that are letters, digits and hyphens with a letter or digit at both ends.
pub is_alias_format_iff : (value : String) → (is_alias_format value ≡ true) ↔ IsAlias (codes value)
unfolding is_alias_format
is_alias_format_iff value = IsAlias-iff (codes value)

-- What an expression accepts it accepts with a character that may follow.
matches-may :
    (is : List Item) (p : ℕ → Bool) (cs : List ℕ)
    → matches is cs ≡ true
    → matches (is ++ (may p ∷ [])) cs ≡ true
unfolding matches
matches-may [] p [] h = refl
matches-may [] p (c ∷ cs) h = cc
matches-may (need q ∷ is) p [] h = cc
matches-may (need q ∷ is) p (c ∷ cs) h = ground (arith, matches-may is p cs)
matches-may (may q ∷ is) p [] h = matches-may is p [] h
matches-may (may q ∷ is) p (c ∷ cs) h =
    ground (arith, matches-may is p (c ∷ cs), matches-may is p cs)

-- The two paths of an alias, `/alias` and `/r/alias`, are recognised.
pub alias_paths :
    (value : String)
    → is_alias_format value ≡ true
    → (matches alias_path_segment_regex (b'/' ∷ codes value) ≡ true)
      × (matches alias_redirect_path_regex (b'/' ∷ b'r' ∷ b'/' ∷ codes value) ≡ true)
unfolding is_alias_format
alias_paths value h =
    let follows = matches-may alias_pattern is_slash (codes value) h in (follows, follows)
