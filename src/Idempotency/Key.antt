-- ===== src/Idempotency/Key.antt =====
-- Which idempotency keys apps/api/src/server/lib/idempotency.ts accepts.
use urlfy_cc.Common.{
  ℕ, zero, suc, ◌+◌, ◌≤◌, ◌≡◌, refl, ◌↔◌, Bool, true, false, ◌&&◌, ◌||◌, String, List, [], ◌∷◌,
  ◌++◌, leb, length, arith, all,
}
use urlfy_cc.Alias.{codes, Item, need, may, copies, matches, is_alphanumeric}
use urlfy_cc.Idempotency.{is_hex, is_key_character, is_hyphen, uuid_regex, validate_idempotency_key}

-- `x{0,n}` against a whole text.
matches-may :
    (p : ℕ → Bool) (n : ℕ) (cs : List ℕ)
    → matches (copies n (may p)) cs ≡ (leb (length cs) n && all p cs)
unfolding matches
matches-may p zero [] = refl
matches-may p zero (c ∷ cs) = ground arith
matches-may p (suc n) [] = ground (arith, matches-may p n [])
matches-may p (suc n) (c ∷ cs) = ground (arith, matches-may p n (c ∷ cs), matches-may p n cs)

-- `x{k,k+n}`
matches-repeat :
    (p : ℕ → Bool) (k n : ℕ) (cs : List ℕ)
    → matches (copies k (need p) ++ copies n (may p)) cs
      ≡ (leb k (length cs) && (leb (length cs) (k + n) && all p cs))
unfolding matches
matches-repeat p zero n cs = ground (arith, matches-may p n cs)
matches-repeat p (suc k) n [] = ground arith
matches-repeat p (suc k) n (c ∷ cs) = ground (arith, matches-repeat p k n cs)

-- A text of fixed length: each character has to match its item.
abbrev AllNeed : (ℕ → Bool) → List Item → Type 0
AllNeed q [] = Unit
AllNeed q (need p ∷ items) = ((c : ℕ) → p c ≡ true → q c ≡ true) × AllNeed q items
AllNeed q (may p ∷ items) = ⊥

matches-AllNeed :
    (q : ℕ → Bool) (items : List Item) (cs : List ℕ)
    → AllNeed q items
    → matches items cs ≡ true
    → (length cs ≡ length items) × (all q cs ≡ true)
unfolding matches
matches-AllNeed q [] [] a h = (refl, refl)
matches-AllNeed q [] (c ∷ cs) a h = cc
matches-AllNeed q (need p ∷ items) [] a h = cc
matches-AllNeed q (may p ∷ items) cs a h = elim a [ ]
matches-AllNeed q (need p ∷ items) (c ∷ cs) (pq, a) h =
    ground (arith, pq c, matches-AllNeed q items cs a)

hex_key : (c : ℕ) → is_hex c ≡ true → is_key_character c ≡ true
unfolding is_alphanumeric
hex_key c h = ground (arith, h)

hyphen_key : (c : ℕ) → is_hyphen c ≡ true → is_key_character c ≡ true
hyphen_key c h = ground (arith, h)

copies-AllNeed :
    (q p : ℕ → Bool) (n : ℕ) (items : List Item)
    → ((c : ℕ) → p c ≡ true → q c ≡ true)
    → AllNeed q items
    → AllNeed q (copies n (need p) ++ items)
copies-AllNeed q p zero items pq a = a
copies-AllNeed q p (suc n) items pq a = (pq, copies-AllNeed q p n items pq a)

-- Some hexadecimal digits, a hyphen, and the rest.
abbrev then_hyphen : ℕ → List Item → List Item
then_hyphen n items = copies n (need is_hex) ++ (need is_hyphen ∷ items)

then_hyphen-AllNeed :
    (n : ℕ) (items : List Item)
    → AllNeed is_key_character items
    → AllNeed is_key_character (then_hyphen n items)
then_hyphen-AllNeed n items a =
    copies-AllNeed is_key_character is_hex n (need is_hyphen ∷ items) hex_key (hyphen_key, a)

abbrev last_part : List Item
last_part = copies 12 (need is_hex)

uuid-AllNeed : AllNeed is_key_character uuid_regex
uuid-AllNeed = then_hyphen-AllNeed 8 (then_hyphen 4 (then_hyphen 4 (then_hyphen 4 last_part))) (
    then_hyphen-AllNeed 4 (then_hyphen 4 (then_hyphen 4 last_part)) (
      then_hyphen-AllNeed 4 (then_hyphen 4 last_part) (
        then_hyphen-AllNeed 4 last_part (copies-AllNeed is_key_character is_hex 12 [] hex_key tt))))

-- A UUID has 36 characters that a key may have.
uuid_key :
    (cs : List ℕ)
    → matches uuid_regex cs ≡ true
    → (length cs ≡ 36) × (all is_key_character cs ≡ true)
uuid_key cs h = matches-AllNeed is_key_character uuid_regex cs uuid-AllNeed h

either_regex :
    (cs : List ℕ) (u : Bool)
    → (u ≡ true → (length cs ≡ 36) × (all is_key_character cs ≡ true))
    → ((u || (leb 16 (length cs) && (leb (length cs) 64 && all is_key_character cs))) ≡ true)
      ↔ ((16 ≤ length cs) × (length cs ≤ 64) × (all is_key_character cs ≡ true))
either_regex cs true h =
    let (n, a) = h refl in (λ _. (omega (arith, n), omega (arith, n), a), λ _. refl)
either_regex cs false h = ground arith

-- A key is accepted exactly if it has 16 to 64 characters, each a letter, a digit, a hyphen or an
-- underscore: a UUID is such a key already.
pub validate_idempotency_key_iff :
    (key : String)
    → (validate_idempotency_key key ≡ true) ↔ (
        (16 ≤ length (codes key))
        × (length (codes key) ≤ 64)
        × (all is_key_character (codes key) ≡ true))
unfolding validate_idempotency_key
validate_idempotency_key_iff key =
    rw (matches-repeat is_key_character 16 48 (codes key))
      (either_regex (codes key) (matches uuid_regex (codes key)) (uuid_key (codes key)))
