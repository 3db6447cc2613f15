-- ===== src/Limiter/Window/Quota.antt =====
-- The sliding window of packages/cache/src/rate-limiter-core.ts keeps its promise.
use urlfy_cc.Common.{
  ℕ, ◌+◌, ◌-◌, ◌*◌, ◌≤◌, ◌<◌, ◌≡◌, refl, String, List, [], ◌∷◌, ◌++◌, ltb, if◌then◌else◌, length,
  keep, arith, Bool-cases, inl, inr, ◌⊎◌, All, sym, ap, subst, ◌∙◌,
}
use urlfy_cc.Limiter.Window.{SortedSets, IsNew, sliding_window_lua}
use urlfy_cc.Limiter.Window.Spec.{
  count_after, entries_after, entries_after-append, entries_after-keep, entries_after-le, hit,
  History, start, let_through, turned_away, expired, Knows,
}

count_after-zero : (s : ℕ) (ts : List ℕ) → All (λ p. p ≤ s) ts → count_after s ts ≡ 0
unfolding count_after
count_after-zero s [] h = refl
count_after-zero s (t ∷ ts) (h, hs) = ground (arith, count_after-zero s ts hs)

count_after_mono : (s s' : ℕ) (ts : List ℕ) → s ≤ s' → count_after s' ts ≤ count_after s ts
unfolding count_after
count_after_mono s s' [] h = omega arith
count_after_mono s s' (t ∷ ts) h = ground (arith, count_after_mono s s' ts h)

All-le_trans : {a b : ℕ} (ts : List ℕ) → a ≤ b → All (λ p. p ≤ a) ts → All (λ p. p ≤ b) ts
All-le_trans [] h a = tt
All-le_trans (t ∷ ts) h (p, a) = (omega arith, All-le_trans ts h a)

All-le-sub : (d t s : ℕ) (ts : List ℕ) → t - d ≤ s → All (λ p. p + d ≤ t) ts → All (λ p. p ≤ s) ts
All-le-sub d t s [] h a = tt
All-le-sub d t s (p ∷ ps) h (q, a) = (omega arith, All-le-sub d t s ps h a)

module _ (r : SortedSets) (key : String) (points duration : ℕ) where
  open r use {Store, entries}

  kept : ℕ → Store → List (ℕ × String)
  kept t w = keep (λ e. ltb (t - duration * 1000) e.0) (entries key w)

  hit_lem :
      (t : ℕ) (member : String) (w : Store)
      → IsNew member (kept t w)
      → ((length (kept t w) < points)
          × ((hit r key points duration t member w).0 ≡ (1, length (kept t w) + 1))
          × (entries key (hit r key points duration t member w).1 ≡ kept t w ++ (t, member) ∷ []))
        ⊎ ((points ≤ length (kept t w))
            × ((hit r key points duration t member w).0 ≡ (0, length (kept t w)))
            × (entries key (hit r key points duration t member w).1 ≡ kept t w))
  unfolding sliding_window_lua kept
  hit_lem t member w new =
      let w1 = r.zremrangebyscore key (t - duration * 1000) w in
      let trimmed : entries key w1 ≡ kept t w =
        r.entries-zremrangebyscore key (t - duration * 1000) w in
      let counted : r.zcard key w1 ≡ length (kept t w) = r.zcard_lem key w1 ∙ ap length trimmed in
      let added : entries key (r.zadd key t member w1) ≡ kept t w ++ (t, member) ∷ [] =
        r.entries-zadd key t member w1 (subst (IsNew member) (sym trimmed) new)
        ∙ ap (λ es. es ++ (t, member) ∷ []) trimmed in
      let kept_alive = r.entries-expire key duration (r.zadd key t member w1) in
      elim (Bool-cases (ltb (length (kept t w)) points)) [
        | inl room ↦ inl (ground arith, rw (counted, room), rw (counted, room) (kept_alive ∙ added))
        | inr full ↦ inr (ground arith, rw (counted, full), rw (counted, full) trimmed)
      ]

  turned_away_lem :
      (t : ℕ) (member : String) (w : Store) (n : ℕ) (w' : Store)
      → hit r key points duration t member w ≡ ((0, n), w')
      → entries key w' ≡ kept t w
  unfolding sliding_window_lua kept
  turned_away_lem t member w n w' e =
      let w1 = r.zremrangebyscore key (t - duration * 1000) w in
      let same : w1 ≡ w' = ground arith in
      rw (← same) (r.entries-zremrangebyscore key (t - duration * 1000) w)

  passed_lem :
      (t : ℕ) (member : String) (w : Store) (n : ℕ) (w' : Store)
      → IsNew member (kept t w)
      → hit r key points duration t member w ≡ ((1, n), w')
      → (length (kept t w) < points) × (entries key w' ≡ kept t w ++ (t, member) ∷ [])
  passed_lem t member w n w' new e = elim (hit_lem t member w new) [
    | inl (room, said, after) ↦
        (room, subst (λ p. entries key p.1 ≡ kept t w ++ (t, member) ∷ []) e after)
    | inr (full, said, after) ↦ absurd (omega (arith, ap (λ p. p.0) (sym said ∙ ap (λ p. p.0) e)))
  ]

  start-Knows : {w : Store} (now : ℕ) → entries key w ≡ [] → Knows r key points duration now [] w
  unfolding count_after
  start-Knows now e = record {
    counted = λ s h. rw e (unfold entries_after in refl);
    past = tt;
    within = omega arith;
  }

  let_through-Knows :
      {now : ℕ} {passed : List ℕ} {w : Store} (t : ℕ) (w' : Store) (member : String)
      → Knows r key points duration now passed w
      → now ≤ t
      → length (kept t w) < points
      → entries key w' ≡ kept t w ++ (t, member) ∷ []
      → Knows r key points duration t (t ∷ passed) w'
  unfolding kept count_after
  let_through-Knows {now} {passed} {w} t w' member k later room e =
      let old : (s : ℕ)
          → t - duration * 1000 ≤ s
          → count_after s passed ≡ entries_after s (kept t w) =
        (λ s h. omega (
          arith,
          k.counted s (omega arith),
          entries_after-keep s (t - duration * 1000) (entries key w) h,
        )) in
      record {
        counted = λ s h. rw e (ground (arith, old s h, entries_after-append s t member (kept t w)));
        past = (omega arith, All-le_trans passed later k.past);
        within = ground (
          arith,
          old (t - duration * 1000) (omega arith),
          entries_after-le (t - duration * 1000) (kept t w),
        );
      }

  turned_away-Knows :
      {now : ℕ} {passed : List ℕ} {w : Store} (t : ℕ) (w' : Store)
      → Knows r key points duration now passed w
      → now ≤ t
      → entries key w' ≡ kept t w
      → Knows r key points duration t passed w'
  unfolding kept
  turned_away-Knows {now} {passed} {w} t w' k later e = record {
    counted = λ s h. rw e (
        omega (
          arith,
          k.counted s (omega arith),
          entries_after-keep s (t - duration * 1000) (entries key w) h,
        ));
    past = All-le_trans passed later k.past;
    within = omega (
      arith,
      k.within,
      count_after_mono (now - duration * 1000) (t - duration * 1000) passed (omega arith),
    );
  }

  expired-Knows :
      {now : ℕ} {passed : List ℕ} {w : Store} (t : ℕ) (w' : Store)
      → Knows r key points duration now passed w
      → now ≤ t
      → All (λ p. p + duration * 1000 ≤ t) passed
      → entries key w' ≡ []
      → Knows r key points duration t passed w'
  expired-Knows {passed} t w' k later old e =
      let gone : (s : ℕ) → t - duration * 1000 ≤ s → count_after s passed ≡ 0 =
        (λ s h. count_after-zero s passed (All-le-sub (duration * 1000) t s passed h old)) in
      record {
        counted = λ s h. rw (e, gone s h) (unfold entries_after in refl);
        past = All-le_trans passed later k.past;
        within = omega (arith, gone (t - duration * 1000) (omega arith));
      }

  History-Knows :
      {now : ℕ} {passed : List ℕ} {w : Store}
      → History r key points duration now passed w
      → Knows r key points duration now passed w
  unfolding kept
  History-Knows (start now e) = start-Knows now e
  History-Knows (let_through {w} t member count w' h later new e) =
      let (room, after) = passed_lem t member w count w' new e in
      let_through-Knows t w' member (History-Knows h) later room after
  History-Knows (turned_away {w} t member count w' h later e) =
      turned_away-Knows t w' (History-Knows h) later (turned_away_lem t member w count w' e)
  History-Knows (expired t w' h later old e) = expired-Knows t w' (History-Knows h) later old e

-- Whenever the history ends, at most `points` of the requests let through lie in the last window.
pub sliding_window_quota :
    (r : SortedSets) (key : String) (points duration now : ℕ) (passed : List ℕ) (w : r.Store)
    → History r key points duration now passed w
    → count_after (now - duration * 1000) passed ≤ points
sliding_window_quota r key points duration now passed w h =
    (History-Knows r key points duration h).within

-- After any history, a request (with a new member, at a time not before) is let through exactly
-- when fewer than `points` of those let through lie in the window that ends with it, and the
-- answer's count is the number of those in the window with the request, if it was let through.
pub sliding_window_exact :
    (r : SortedSets) (key : String) (points duration now : ℕ) (passed : List ℕ) (w : r.Store)
    (t : ℕ) (member : String)
    → History r key points duration now passed w
    → now ≤ t
    → IsNew member (keep (λ e. ltb (t - duration * 1000) e.0) (r.entries key w))
    → (hit r key points duration t member w).0 ≡ (
        let n = count_after (t - duration * 1000) passed in
        if ltb n points then (1, n + 1) else (0, n))
unfolding kept entries_after
sliding_window_exact r key points duration now passed w t member h later new =
    let known : count_after (t - duration * 1000) passed ≡ length (kept r key points duration t w) =
      (History-Knows r key points duration h).counted (t - duration * 1000) (omega arith) in
    ground (arith, known, hit_lem r key points duration t member w new)
