-- ===== src/Cache/States.antt =====
-- What the redirect path reads after packages/redirect-domain/src/cache-service.ts invalidated a link.
use Prim.Native.String.{◌++◌ as ◌<>◌}
use package.text.Mathlib.Text.{◌==◌ as str_eq}
use text.Mathlib.TextEquality.{eq_iff}
use text.Mathlib.TextLemmas.{append_cancel_right}
use urlfy_cc.Common.{
  ℕ, ◌≡◌, ◌≢◌, refl, ap, ◌∙◌, sym, Bool, true, false, Option, none, some, String, if◌then◌else◌,
  inl, inr, ◌⊎◌, arith, subst,
}
use urlfy_cc.Common.Effects.{
  Outcome, returned, threw, pure, bind_outcome, bind_outcome-returned, handle_outcome,
}
use urlfy_cc.Redirect.Fetcher.{LinkState, FetcherDependencies, banned_link, fetch_result, by_state}
use urlfy_cc.Redirect.Fetcher
use urlfy_cc.Cache.Keys.{link_key, link_404_key, link_banned_key}
use urlfy_cc.Cache.{
  CacheRedis, Reason, ban, deleted, not_found, parse_if_there, set_not_found, set_banned,
  link_state, get_link_state, get_cached_link, set_link, invalidate_link, invalidate_link_and_qr,
  mark, invalidate_and_ban, not_found_ttl, banned_ttl,
}
use urlfy_cc.Cache.Forget.{CacheLaws, present, IsForgotten, invalidated-IsForgotten}

-- The state of a code after its link was invalidated for a reason.
abbrev pub expected : Option Reason → LinkState
expected none = record { is_not_found = false; is_banned = false; link = none }
expected (some ban) = record { is_not_found = false; is_banned = true; link = none }
expected (some deleted) = record { is_not_found = true; is_banned = false; link = none }
expected (some not_found) = record { is_not_found = true; is_banned = false; link = none }

module _ {W E : Type 0} (redis : CacheRedis W E) (value : String → W → Option String)
    (laws : CacheLaws redis value) where
  open laws use {get-reads, exists-reads, setex-writes}

  -- The command that marks a code throws, which the service only logs.
  pub data MarkFails (code : String) : Option Reason → Type 0 where
    ban_fails :
        (w : W) (e : E)
        → (redis.setex (link_banned_key code) banned_ttl "1" w).0 ≡ threw e
        → MarkFails code (some ban)
    deleted_fails :
        (w : W) (e : E)
        → (redis.setex (link_404_key code) not_found_ttl "1" w).0 ≡ threw e
        → MarkFails code (some deleted)
    not_found_fails :
        (w : W) (e : E)
        → (redis.setex (link_404_key code) not_found_ttl "1" w).0 ≡ threw e
        → MarkFails code (some not_found)

  -- The state that the keys tell, for a code without a link.
  state_of_keys :
      (refresh : Bool) (code : String) (w w' : W) (st : LinkState)
      → value (link_key code) w ≡ none
      → get_link_state redis refresh code w ≡ (returned st, w')
      → st
        ≡ link_state redis
            (present (value (link_404_key code) w))
            (present (value (link_banned_key code) w))
            none
  unfolding get_link_state
  state_of_keys refresh code w w' st empty e =
      let (n, w1, first, e1) =
        bind_outcome-returned (redis.exists (link_404_key code) w) _ st w' e in
      let (m, w2, second, e2) =
        bind_outcome-returned (redis.exists (link_banned_key code) w1) _ st w' e1 in
      let (v, w3, third, e3) = bind_outcome-returned (redis.get (link_key code) w2) _ st w' e2 in
      let read404 = exists-reads (link_404_key code) w w1 n first in
      let read_ban = exists-reads (link_banned_key code) w1 w2 m second in
      let read_link = get-reads (link_key code) w2 w3 v third in
      let nothing : v ≡ none =
        read_link.0 ∙ read_ban.1 (link_key code) ∙ read404.1 (link_key code) ∙ empty in
      let last : (returned (link_state redis n m none), w3) ≡ (returned st, w') =
        subst
          (λ (o : Option String).
            bind_outcome (parse_if_there redis refresh (link_key code) o w3)
              (λ link. pure (link_state redis n m link))
            ≡ (returned st, w'))
          nothing e3 in
      let same : link_state redis n m none ≡ st = ground (arith, last) in
      sym same
      ∙ ap (λ k. link_state redis k m none) read404.0
      ∙ ap (λ k. link_state redis (present (value (link_404_key code) w)) k none)
          (read_ban.0 ∙ ap present (read404.1 (link_banned_key code)))

  -- A key that was written, and the keys of the code under other prefixes.
  written :
      (p q code : String) (ttl : ℕ) (w w' : W)
      → redis.setex (p <> code) ttl "1" w ≡ (returned tt, w')
      → value (q <> code) w ≡ none
      → value (q <> code) w' ≡ (if str_eq p q then some "1" else none)
  written p q code ttl w w' e h =
      setex-writes (p <> code) ttl "1" w w' e (q <> code)
      ∙ ground (
        arith,
        h,
        eq_iff p q,
        eq_iff (p <> code) (q <> code),
        λ (s : (p <> code) ≡ (q <> code)). append_cancel_right p q code s,
      )

  handled-returned :
      (r : Outcome E (Unit {0}) × W) (w' : W)
      → handle_outcome r (λ _. pure tt) ≡ (returned tt, w')
      → (r ≡ (returned tt, w')) ⊎ ((e : E) × (r.0 ≡ threw e))
  handled-returned (returned _, w) w' h = inl h
  handled-returned (threw e, w) w' h = inr (e, refl)

  -- The keys after the code was marked, if the command was answered.
  abbrev MarkedKeys : String → Option Reason → W → Type 0
  MarkedKeys code reason w =
      (value (link_key code) w ≡ none)
      × (present (value (link_404_key code) w) ≡ (if (expected reason).is_not_found then 1 else 0))
      × (present (value (link_banned_key code) w) ≡ (if (expected reason).is_banned then 1 else 0))

  banned-MarkedKeys :
      (code : String) (w w' : W)
      → IsForgotten redis value laws code w
      → set_banned redis code w ≡ (returned tt, w')
      → MarkedKeys code (some ban) w' ⊎ MarkFails code (some ban)
  unfolding set_banned
  banned-MarkedKeys code w w' f e =
      elim (handled-returned (redis.setex (link_banned_key code) banned_ttl "1" w) w' e) [
        | inl ran ↦ inl (
          written "link:banned:" "link:" code banned_ttl w w' ran f.no_link,
          ap present (written "link:banned:" "link:404:" code banned_ttl w w' ran f.no_404),
          ap present (written "link:banned:" "link:banned:" code banned_ttl w w' ran f.no_ban),
        )
        | inr (x, failed) ↦ inr (ban_fails w x failed)
      ]

  missing-MarkedKeys :
      (code : String) (reason : Reason) (w w' : W)
      → expected (some reason) ≡ expected (some deleted)
      → ((v : W) (e : E)
          → (redis.setex (link_404_key code) not_found_ttl "1" v).0 ≡ threw e
          → MarkFails code (some reason))
      → IsForgotten redis value laws code w
      → set_not_found redis code w ≡ (returned tt, w')
      → MarkedKeys code (some reason) w' ⊎ MarkFails code (some reason)
  unfolding set_not_found
  missing-MarkedKeys code reason w w' same fails f e =
      elim (handled-returned (redis.setex (link_404_key code) not_found_ttl "1" w) w' e) [
        | inl ran ↦ rw same (
            inl (
              written "link:404:" "link:" code not_found_ttl w w' ran f.no_link,
              ap present (written "link:404:" "link:404:" code not_found_ttl w w' ran f.no_404),
              ap present (written "link:404:" "link:banned:" code not_found_ttl w w' ran f.no_ban),
            ))
        | inr (x, failed) ↦ inr (fails w x failed)
      ]

  marked-MarkedKeys :
      (code : String) (reason : Option Reason) (w w' : W)
      → IsForgotten redis value laws code w
      → mark redis code reason w ≡ (returned tt, w')
      → MarkedKeys code reason w' ⊎ MarkFails code reason
  marked-MarkedKeys code none w w' f e = inl (
    subst (λ v. value (link_key code) v ≡ none) (ap (λ r. r.1) e) f.no_link,
    ap present (subst (λ v. value (link_404_key code) v ≡ none) (ap (λ r. r.1) e) f.no_404),
    ap present (subst (λ v. value (link_banned_key code) v ≡ none) (ap (λ r. r.1) e) f.no_ban),
  )
  marked-MarkedKeys code (some ban) w w' f e = banned-MarkedKeys code w w' f e
  marked-MarkedKeys code (some deleted) w w' f e =
      missing-MarkedKeys code deleted w w' refl (λ v x h. deleted_fails v x h) f e
  marked-MarkedKeys code (some not_found) w w' f e =
      missing-MarkedKeys code not_found w w' refl (λ v x h. not_found_fails v x h) f e

  state_of_marks :
      (reason : Option Reason) (n m : ℕ)
      → n ≡ (if (expected reason).is_not_found then 1 else 0)
      → m ≡ (if (expected reason).is_banned then 1 else 0)
      → link_state redis n m none ≡ expected reason
  state_of_marks none n m p q = rw (p, q) refl
  state_of_marks (some ban) n m p q = rw (p, q) refl
  state_of_marks (some deleted) n m p q = rw (p, q) refl
  state_of_marks (some not_found) n m p q = rw (p, q) refl

  -- After a link was invalidated and nothing threw, the redirect path reads of its code that it has no
  -- cached link, that it is banned exactly if the reason was a ban, and that it does not exist exactly
  -- if the reason was that the link was deleted or not found; unless the command that marks the code
  -- threw, which the service swallows. Nothing else writes in between and no key expires.
  pub invalidated-reads :
      (code : String) (reason : Option Reason) (refresh : Bool) (w w1 w2 : W) (st : LinkState)
      → invalidate_link_and_qr redis code reason w ≡ (returned tt, w1)
      → get_link_state redis refresh code w1 ≡ (returned st, w2)
      → (st ≡ expected reason) ⊎ MarkFails code reason
  unfolding invalidate_link_and_qr
  invalidated-reads code reason refresh w w1 w2 st e read =
      let (_, v, gone, rest) =
        bind_outcome-returned (invalidate_link redis code w) (λ _. mark redis code reason) tt w1
          e in
      elim (marked-MarkedKeys code reason v w1
        (invalidated-IsForgotten redis value laws code w v gone) rest) [
          | inl marked ↦ inl (
              state_of_keys refresh code w1 w2 st marked.0 read
              ∙ state_of_marks reason _ _ marked.1 marked.2)
          | inr fails ↦ inr fails
        ]

  reason_given : (code : String) (reason : Option Reason) → MarkFails code reason → reason ≢ none
  reason_given code reason (ban_fails w e h) = λ (x : some ban ≡ none). cc
  reason_given code reason (deleted_fails w e h) = λ (x : some deleted ≡ none). cc
  reason_given code reason (not_found_fails w e h) = λ (x : some not_found ≡ none). cc

  -- No key is written for a link that is there again.
  pub no_mark :
      (code : String) (st : LinkState)
      → (st ≡ expected none) ⊎ MarkFails code none
      → st ≡ expected none
  no_mark code st (inl same) = same
  no_mark code st (inr fails) = absurd (reason_given code none fails refl)

  -- The redirect path over this cache.
  abbrev pub with_cache : FetcherDependencies W E → FetcherDependencies W E
  with_cache deps = record deps {
    get_link_state = get_link_state redis true;
    get_cached_link = get_cached_link redis true;
    set_link = set_link redis;
    set_not_found = set_not_found redis;
  }

  -- Once a link was banned and the ban was marked, the redirect path answers with the banned link
  -- without asking the database: nothing but the three reads of the cache happens. Nothing else
  -- writes in between and no key expires.
  pub banned-stops :
      (deps : FetcherDependencies W E) (code : String) (w w1 w2 : W) (st : LinkState)
      → invalidate_and_ban redis code w ≡ (returned tt, w1)
      → get_link_state redis true code w1 ≡ (returned st, w2)
      → (Fetcher.get_link (with_cache deps) code w1
          ≡ (returned (fetch_result true (some banned_link)), w2))
        ⊎ MarkFails code (some ban)
  unfolding Fetcher.get_link by_state
  banned-stops deps code w w1 w2 st e read =
      elim (invalidated-reads code (some ban) true w w1 w2 st e read) [
        | inl same ↦ inl (rw (read, same) refl)
        | inr fails ↦ inr fails
      ]
