-- ===== src/Cache/Scan.antt =====
-- The loop of `scanKeys`, and `flushLinks`, in packages/redirect-domain/src/cache-service.ts.
use package.text.Mathlib.Text.{◌==◌ as str_eq}
use urlfy_cc.Common.{
  ℕ, zero, suc, ◌+◌, ◌≤◌, ◌≡◌, refl, ap, ◌∙◌, false, Option, none, some, String, List, [], ◌∷◌,
  ◌++◌, append_assoc, length, if◌then◌else◌, arith,
}
use urlfy_cc.Common.Effects.{returned, Eff, pure, ◌>>=◌, ◌>>◌}

-- What `scanKeys` needs of Redis: a cursor, a pattern and a count give the next cursor and a page.
abbrev pub ScanCommand : Type 0 → Type 0 → Type 0
ScanCommand W E = String → String → ℕ → Eff W E (String × List String)

module _ {W E : Type 0} (scan : ScanCommand W E) (pattern : String) (count : ℕ) where
  -- What a page leaves to do, with `next` for the rest of the loop.
  abbrev pub after_page :
      (String → List String → Eff W E (Option (List String)))
      → List String
      → String × List String
      → Eff W E (Option (List String))
  after_page next keys (cursor, batch) =
      if str_eq cursor "0" then pure (some (keys ++ batch)) else next cursor (keys ++ batch)

  -- `do { … } while (cursor !== '0')` with fuel; `none` means that it ran out.
  unfoldable pub scan_loop : ℕ → String → List String → Eff W E (Option (List String))
  scan_loop zero cursor keys = pure none
  scan_loop (suc fuel) cursor keys = scan cursor pattern count >>= after_page (scan_loop fuel) keys

  -- `scanKeys`
  abbrev pub scan_keys : ℕ → Eff W E (Option (List String))
  scan_keys fuel = scan_loop fuel "0" []

  -- The pages that Redis gives one after the other, each at the cursor that came with the one before,
  -- until the cursor is 0 again.
  pub data Walk : ℕ → String → W → List String → W → Type 0 where
    last :
        (cursor : String) (w w' : W) (page : List String)
        → scan cursor pattern count w ≡ (returned ("0", page), w')
        → Walk 1 cursor w page w'
    page_then :
        (n : ℕ) (cursor next : String) (w w1 w' : W) (page rest : List String)
        → scan cursor pattern count w ≡ (returned (next, page), w1)
        → str_eq next "0" ≡ false
        → Walk n next w1 rest w'
        → Walk (suc n) cursor w (page ++ rest) w'

  loop-walks :
      (n : ℕ) (cursor : String) (w w' : W) (found : List String) (fuel : ℕ) (keys : List String)
      → Walk n cursor w found w'
      → n ≤ fuel
      → scan_loop fuel cursor keys w ≡ (returned (some (keys ++ found)), w')
  unfolding scan_loop
  loop-walks n cursor w w' found zero keys (last c v v' page e) h = absurd (omega arith)
  loop-walks n cursor w w' found (suc fuel) keys (last c v v' page e) h = rw e refl
  loop-walks n cursor w w' found zero keys (page_then m c next v v1 v' page rest e more walk) h =
      absurd (omega arith)
  loop-walks n cursor w w' found (suc fuel) keys (page_then m c next v v1 v' page rest e more walk)
        h =
      rw e (
        rw more (
          loop-walks m next v1 v' rest fuel (keys ++ page) walk (omega arith)
          ∙ ap (λ l. (returned (some l), v')) (append_assoc keys page rest)))

  -- If Redis comes back to cursor 0 after some pages, the loop ends, with the keys of all the pages in
  -- their order, in as many rounds as there are pages.
  pub scan_keys-walks :
      (n : ℕ) (w w' : W) (found : List String) (fuel : ℕ)
      → Walk n "0" w found w'
      → n ≤ fuel
      → scan_keys fuel w ≡ (returned (some found), w')
  scan_keys-walks n w w' found fuel walk h = loop-walks n "0" w w' found fuel [] walk h

module _ {W E : Type 0} (scan : ScanCommand W E) (del : List String → Eff W E (Unit {0})) where
  -- One round of the loop over the patterns: the sum of the removed keys.
  abbrev pub remove_keys : ℕ → Option (List String) → Eff W E (Option ℕ)
  remove_keys total none = pure none
  remove_keys total (some []) = pure (some total)
  remove_keys total (some (key ∷ keys)) =
      del (key ∷ keys) >> pure (some (total + length (key ∷ keys)))

  abbrev pub go_on : (ℕ → Eff W E (Option ℕ)) → Option ℕ → Eff W E (Option ℕ)
  go_on rest none = pure none
  go_on rest (some total) = rest total

  unfoldable pub flush_patterns : ℕ → List String → ℕ → Eff W E (Option ℕ)
  flush_patterns fuel [] total = pure (some total)
  flush_patterns fuel (pattern ∷ patterns) total =
      scan_keys scan pattern 100 fuel >>= remove_keys total >>= go_on (flush_patterns fuel patterns)

  abbrev pub link_patterns : List String
  link_patterns = "link:*" ∷ "link:meta:*" ∷ "link:404:*" ∷ "link:banned:*" ∷ []

  -- `flushLinks`, which throws again what it catches; the count of removed keys is logged.
  abbrev pub flush_links : ℕ → Eff W E (Option ℕ)
  flush_links fuel = flush_patterns fuel link_patterns 0

  -- The way of one pattern after the other: the pages of each, and the deletion of what they hold.
  pub data Flushes (fuel : ℕ) : List String → W → ℕ → W → Type 0 where
    all_done : (w : W) → Flushes fuel [] w 0 w
    nothing_found :
        (n : ℕ) (pattern : String) (patterns : List String) (w w1 w' : W) (m : ℕ)
        → Walk scan pattern 100 n "0" w [] w1
        → n ≤ fuel
        → Flushes fuel patterns w1 m w'
        → Flushes fuel (pattern ∷ patterns) w m w'
    removed :
        (n : ℕ) (pattern : String) (patterns : List String) (w w1 w2 w' : W) (key : String)
        (keys : List String) (m : ℕ)
        → Walk scan pattern 100 n "0" w (key ∷ keys) w1
        → n ≤ fuel
        → del (key ∷ keys) w1 ≡ (returned tt, w2)
        → Flushes fuel patterns w2 m w'
        → Flushes fuel (pattern ∷ patterns) w (suc (length keys) + m) w'

  flush-patterns :
      (fuel : ℕ) (patterns : List String) (w w' : W) (m total : ℕ)
      → Flushes fuel patterns w m w'
      → flush_patterns fuel patterns total w ≡ (returned (some (total + m)), w')
  unfolding flush_patterns
  flush-patterns fuel patterns w w' m total (all_done v) =
      ap (λ k. (returned (some k), v)) (omega arith)
  flush-patterns fuel patterns w w' m total (nothing_found n p ps v v1 v' k walk enough rest) =
      rw (scan_keys-walks scan p 100 n v v1 [] fuel walk enough)
        (flush-patterns fuel ps v1 v' k total rest)
  flush-patterns fuel patterns w w' m total
        (removed n p ps v v1 v2 v' key keys k walk enough gone rest) =
      rw (scan_keys-walks scan p 100 n v v1 (key ∷ keys) fuel walk enough) (
        rw gone (
          flush-patterns fuel ps v2 v' k (total + suc (length keys)) rest
          ∙ ap (λ x. (returned (some x), v')) (omega arith)))
