-- ===== src/Cache/Forget.antt =====
-- What invalidation leaves of the keys of packages/redirect-domain/src/cache-service.ts, and
-- what Redis is to do.
use package.text.Mathlib.Text.{◌==◌ as str_eq}
use text.Mathlib.TextEquality.{eq_iff}
use urlfy_cc.Common.{
  ℕ, suc, ◌≡◌, refl, ap, ◌∙◌, true, false, Option, none, some, String, List, [], ◌∷◌, ◌++◌, any,
  if◌then◌else◌, Bool-cases, inl, inr, subst,
}
use urlfy_cc.Common.Effects.{
  Outcome, returned, threw, Eff, pure, bind_outcome, bind_outcome-returned,
}
use urlfy_cc.Redirect.Link.{CachedLink}
use urlfy_cc.Cache.Keys.{link_key, link_meta_key, link_404_key, link_banned_key, qr_keys_set}
use urlfy_cc.Cache.{
  CacheRedis, removed_qr, invalidate_qr, delete_link_keys, both, first_error, invalidate_link,
}

abbrev pub present : Option String → ℕ
present none = 0
present (some v) = 1

-- What Redis documents of the commands that answer, while no key expires and no other client writes;
-- `value` is what a key holds. The JSON of a link is read back, and is not empty.
pub record CacheLaws {W E : Type 0} (redis : CacheRedis W E) (value : String → W → Option String)
    : Type 0 where
  pub get-reads :
      (key : String) (w w' : W) (v : Option String)
      → redis.get key w ≡ (returned v, w')
      → (v ≡ value key w) × ((j : String) → value j w' ≡ value j w)
  pub exists-reads :
      (key : String) (w w' : W) (n : ℕ)
      → redis.exists key w ≡ (returned n, w')
      → (n ≡ present (value key w)) × ((j : String) → value j w' ≡ value j w)
  pub ttl-reads :
      (key : String) (w w' : W) (n : ℕ)
      → redis.ttl key w ≡ (returned n, w')
      → (j : String) → value j w' ≡ value j w
  pub smembers-reads :
      (key : String) (w w' : W) (members : List String)
      → redis.smembers key w ≡ (returned members, w')
      → (j : String) → value j w' ≡ value j w
  pub setex-writes :
      (key : String) (ttl : ℕ) (v : String) (w w' : W)
      → redis.setex key ttl v w ≡ (returned tt, w')
      → (j : String) → value j w' ≡ (if str_eq key j then some v else value j w)
  pub del-removes :
      (keys : List String) (w w' : W)
      → redis.del keys w ≡ (returned tt, w')
      → (j : String) → value j w' ≡ (if any (str_eq j) keys then none else value j w)
  pub parse-stringify : (link : CachedLink) → redis.parse (redis.stringify link) ≡ returned link
  pub stringify-text : (link : CachedLink) → str_eq (redis.stringify link) "" ≡ false

module _ {W E : Type 0} (redis : CacheRedis W E) (value : String → W → Option String)
    (laws : CacheLaws redis value) where
  open laws use {
    get-reads, exists-reads, ttl-reads, smembers-reads, setex-writes, del-removes, parse-stringify,
    stringify-text,
  }

  -- A deleted key holds nothing, and a key that holds nothing stays so.
  del-none :
      (keys : List String) (w w' : W) (j : String)
      → redis.del keys w ≡ (returned tt, w')
      → value j w ≡ none
      → value j w' ≡ none
  del-none keys w w' j e h = elim (Bool-cases (any (str_eq j) keys)) [
    | inl gone ↦ del-removes keys w w' e j ∙ rw gone refl
    | inr kept ↦ del-removes keys w w' e j ∙ rw kept h
  ]

  del-one :
      (key : String) (w w' : W) → redis.del (key ∷ []) w ≡ (returned tt, w') → value key w' ≡ none
  del-one key w w' e =
      let self : str_eq key key ≡ true = (eq_iff key key).1 refl in
      del-removes (key ∷ []) w w' e key ∙ rw self refl

  first_error-returned :
      (r : Outcome E (Unit {0})) (s : Outcome E (Unit {0}) × W) (w' : W)
      → first_error redis r s ≡ (returned tt, w')
      → (r ≡ returned tt) × (s ≡ (returned tt, w'))
  first_error-returned (returned _) s w' h = (refl, h)
  first_error-returned (threw e) (r, w) w' h = cc

  -- The two commands that were sent together, of which none threw.
  both-returned :
      (m k : Eff W E (Unit {0})) (w w' : W)
      → both redis m k w ≡ (returned tt, w')
      → (m w ≡ (returned tt, (m w).1)) × (k (m w).1 ≡ (returned tt, w'))
  both-returned m k w w' e =
      let (first, second) = first_error-returned (m w).0 (k (m w).1) w' e in
      (ap (λ r. (r, (m w).1)) first, second)

  -- The keys of a code that are read on the redirect path hold nothing.
  pub record IsForgotten (code : String) (w : W) : Type 0 where
    pub no_link : value (link_key code) w ≡ none
    pub no_404 : value (link_404_key code) w ≡ none
    pub no_ban : value (link_banned_key code) w ≡ none

  deleted-IsForgotten :
      (code : String) (w w' : W)
      → delete_link_keys redis code w ≡ (returned tt, w')
      → IsForgotten code w'
  deleted-IsForgotten code w w' e =
      let del_key : String → Eff W E (Unit {0}) = λ key. redis.del (key ∷ []) in
      let last_two = both redis (del_key (link_404_key code)) (del_key (link_banned_key code)) in
      let last_three = both redis (del_key (link_meta_key code)) last_two in
      let (one, e1) = both-returned (del_key (link_key code)) last_three w w' e in
      let w1 = (redis.del (link_key code ∷ []) w).1 in
      let (two, e2) = both-returned (del_key (link_meta_key code)) last_two w1 w' e1 in
      let w2 = (redis.del (link_meta_key code ∷ []) w1).1 in
      let (three, four) =
        both-returned (del_key (link_404_key code)) (del_key (link_banned_key code)) w2 w' e2 in
      let w3 = (redis.del (link_404_key code ∷ []) w2).1 in
      let link1 = del-one (link_key code) w w1 one in
      let link2 = del-none (link_meta_key code ∷ []) w1 w2 (link_key code) two link1 in
      let link3 = del-none (link_404_key code ∷ []) w2 w3 (link_key code) three link2 in
      let missing3 = del-one (link_404_key code) w2 w3 three in
      record {
        no_link = del-none (link_banned_key code ∷ []) w3 w' (link_key code) four link3;
        no_404 = del-none (link_banned_key code ∷ []) w3 w' (link_404_key code) four missing3;
        no_ban = del-one (link_banned_key code) w3 w' four;
      }

  kept-IsForgotten :
      (code : String) (w w' : W)
      → ((j : String) → value j w ≡ none → value j w' ≡ none)
      → IsForgotten code w
      → IsForgotten code w'
  kept-IsForgotten code w w' keep f = record {
    no_link = keep (link_key code) f.no_link;
    no_404 = keep (link_404_key code) f.no_404;
    no_ban = keep (link_banned_key code) f.no_ban;
  }

  removed-none :
      (key : String) (members : List String) (n : ℕ) (w w' : W) (j : String)
      → removed_qr redis key members w ≡ (returned n, w')
      → value j w ≡ none
      → value j w' ≡ none
  removed-none key [] n w w' j e h =
      let (_, w1, gone, last) =
        bind_outcome-returned (redis.del (key ∷ []) w) (λ _. pure 0) n w' e in
      subst (λ v. value j v ≡ none) (ap (λ r. r.1) last) (del-none (key ∷ []) w w1 j gone h)
  removed-none key (m ∷ members) n w w' j e h =
      let keys = (m ∷ members) ++ (key ∷ []) in
      let (_, w1, gone, last) =
        bind_outcome-returned (redis.del keys w) (λ _. pure (suc _)) n w' e in
      subst (λ v. value j v ≡ none) (ap (λ r. r.1) last) (del-none keys w w1 j gone h)

  qr-none :
      (code : String) (n : ℕ) (w w' : W) (j : String)
      → invalidate_qr redis code w ≡ (returned n, w')
      → value j w ≡ none
      → value j w' ≡ none
  unfolding invalidate_qr
  qr-none code n w w' j e h =
      let (members, w1, read, rest) =
        bind_outcome-returned (redis.smembers (qr_keys_set code) w)
          (removed_qr redis (qr_keys_set code)) n w' e in
      removed-none (qr_keys_set code) members n w1 w' j rest
        (smembers-reads (qr_keys_set code) w w1 members read j ∙ h)

  pub invalidated-IsForgotten :
      (code : String) (w w' : W)
      → invalidate_link redis code w ≡ (returned tt, w')
      → IsForgotten code w'
  unfolding invalidate_link
  invalidated-IsForgotten code w w' e =
      let (_, w1, gone, rest) =
        bind_outcome-returned (delete_link_keys redis code w)
          (λ _ v. bind_outcome (invalidate_qr redis code v) (λ _. pure tt)) tt w' e in
      let (n, w2, qr, last) =
        bind_outcome-returned (invalidate_qr redis code w1) (λ _. pure tt) tt w' rest in
      subst (IsForgotten code) (ap (λ r. r.1) last) (
        kept-IsForgotten code w1 w2 (λ j h. qr-none code n w1 w2 j qr h)
          (deleted-IsForgotten code w w1 gone))
