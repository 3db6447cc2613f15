-- ===== src/Limiter/Memory/Quota.antt =====
-- The memory limiter of packages/cache/src/rate-limiter-core.ts lets through no more requests for
-- a key in one window than its limit.
use urlfy_cc.Common.{
  ℕ, suc, ◌≤◌, ◌<◌, ◌+◌, ◌-◌, ◌≡◌, refl, true, false, some, String, List, [], ◌∷◌, length, leb,
  arith, max, All, Option-cases, Bool-cases, inl, inr, if◌then◌else◌, ◌∙◌, subst,
}
use text.Mathlib.Text.{◌==◌ as str_eq}
use text.Mathlib.TextEquality.{eq_iff}
use urlfy_cc.Common.JsMap.{get, get-set, length-set-le}
use urlfy_cc.Limiter.Memory.{Counter, Counters, evict, check, max_entries, fresh_counter}

-- A check of a key at a time.
abbrev pub Request : Type 0
Request = String × ℕ

-- How many of the checks of `key` are allowed, among checks of any keys.
pub allowed_count : String → ℕ → ℕ → List Request → Counters → ℕ
allowed_count key points d [] m = 0
allowed_count key points d ((k, now) ∷ rs) m =
    let (v, m') = check k points d now m in
    let rest = allowed_count key points d rs m' in
    if str_eq k key then (if v.allowed then suc rest else rest) else rest

-- The map has room for the requests to come, so no entry is evicted.
abbrev pub HasRoom : List Request → Counters → Type 0
HasRoom rs m = length m + length rs ≤ max_entries

evict_of_room : (m : Counters) → length m < max_entries → evict m ≡ m
unfolding evict
evict_of_room m h = ground arith

check-length :
    (k : String) (points d now : ℕ) (m : Counters)
    → length m < max_entries
    → length (check k points d now m).1 ≤ length m + 1
unfolding check
check-length k points d now m h = elim (Option-cases (get k m)) [
  | inl missing ↦ rw (missing, check, evict_of_room m h) (length-set-le k _ m)
  | inr (c, found) ↦
      rw (found, check)
        (elim (Bool-cases (leb c.reset_at now)) [
          | inl over ↦ rw over (length-set-le k _ m)
          | inr current ↦ rw current (length-set-le k _ m)
        ])
]

-- A check of another key leaves the counter of `key` alone.
check-get_ne :
    (k key : String) (points d now : ℕ) (m : Counters)
    → length m < max_entries
    → str_eq k key ≡ false
    → get key (check k points d now m).1 ≡ get key m
unfolding check
check-get_ne k key points d now m h ne = elim (Option-cases (get k m)) [
  | inl missing ↦ rw (missing, check, evict_of_room m h, get-set, ne)
  | inr (c, found) ↦
      rw (found, check)
        (elim (Bool-cases (leb c.reset_at now)) [
          | inl over ↦ rw (over, get-set, ne)
          | inr current ↦ rw (current, get-set, ne)
        ])
]

-- A check of `key` itself, within its window.
check_current :
    (key : String) (points d now : ℕ) (m : Counters) (c : Counter)
    → get key m ≡ some c
    → now < c.reset_at
    → ((check key points d now m).0
        ≡ record { allowed = leb (c.count + 1) points; count = c.count + 1 })
      × (get key (check key points d now m).1 ≡ some (record c { count = c.count + 1 }))
unfolding check
check_current key points d now m c found h =
    ground (arith, get-set key key (record c { count = c.count + 1 }) m, eq_iff key key)

check_fresh :
    (key : String) (points d now : ℕ) (m : Counters)
    → length m < max_entries
    → ((c : Counter) → get key m ≡ some c → c.reset_at ≤ now)
    → ((check key points d now m).0 ≡ record { allowed = true; count = 1 })
      × (get key (check key points d now m).1 ≡ some (fresh_counter d now))
unfolding check
check_fresh key points d now m h over = elim (Option-cases (get key m)) [
  | inl missing ↦
      rw (missing, check, evict_of_room m h)
        (refl, ground (arith, get-set key key (fresh_counter d now) m, eq_iff key key))
  | inr (c, found) ↦
      ground (arith, over c found, get-set key key (fresh_counter d now) m, eq_iff key key)
]

allowed_count-le :
    (key : String) (points d : ℕ) (rs : List Request) (m : Counters) (c : Counter)
    → get key m ≡ some c
    → All (λ r. r.1 < c.reset_at) rs
    → HasRoom rs m
    → allowed_count key points d rs m ≤ points - c.count
unfolding allowed_count
allowed_count-le key points d [] m c found soon room = omega arith
allowed_count-le key points d ((k, now) ∷ rs) m c found (here, soon) room =
    let m' = (check k points d now m).1 in
    let small = check-length k points d now m (omega arith) in
    elim (Bool-cases (str_eq k key)) [
      | inr other ↦ rw other (
          allowed_count-le key points d rs m' c
            (check-get_ne k key points d now m (omega arith) other ∙ found) soon (omega arith))
      | inl same ↦
          let e : k ≡ key = (eq_iff k key).0 same in
          let (verdict, counted) = check_current k points d now m c (rw e found) here in
          let rest =
            allowed_count-le key points d rs m' (record c { count = c.count + 1 })
              (subst (λ j. get j m' ≡ some (record c { count = c.count + 1 })) e counted) soon
              (omega arith) in
          ground (arith, same, verdict, rest)
    ]

-- Of the checks of a key in one window at most the limit are allowed (of a limit of 0, one): the first
-- opens the window at the time `now`, the others come before the window's end, and checks of other
-- keys may come between them, as long as no entry has to be evicted.
pub window_quota :
    (key : String) (points d now : ℕ) (rs : List Request) (m : Counters)
    → ((c : Counter) → get key m ≡ some c → c.reset_at ≤ now)
    → All (λ r. r.1 < now + d) rs
    → HasRoom ((key, now) ∷ rs) m
    → allowed_count key points d ((key, now) ∷ rs) m ≤ max 1 points
unfolding allowed_count
window_quota key points d now rs m over soon room =
    let (verdict, opened) = check_fresh key points d now m (omega arith) over in
    let small = check-length key points d now m (omega arith) in
    let rest =
      allowed_count-le key points d rs (check key points d now m).1 (fresh_counter d now) opened
        soon (omega arith) in
    ground (arith, eq_iff key key, verdict, rest)
