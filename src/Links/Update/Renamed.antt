-- ===== src/Links/Update/Renamed.antt =====
-- What the redirect path reads under the code of a link after
-- apps/api/src/server/modules/links/services/update-link.ts has updated it.
use package.text.Mathlib.Text.{◌==◌ as str_eq}
use urlfy_cc.Common.{
  ltb, ◌≡◌, refl, ap, ◌∙◌, sym, subst, Bool, true, false, not, ◌&&◌, Option, none, some, String,
  inl, inr, ◌⊎◌, truthy_text, or_else, Bool-cases, if◌then◌else◌,
}
use mathlib.Core.Bool.{true≢false}
use text.Mathlib.TextEquality.{eq_iff}
use urlfy_cc.Common.Effects.{
  returned, pure, ◌>>=◌, ◌>>◌, bind_outcome, bind_outcome-returned, Ensures, Ensures-eq,
  Ensures-bind,
}
use urlfy_cc.Alias.{codes, is_alias_format, matches, is_alphanumeric}
use urlfy_cc.Redirect.Fetcher.{LinkState}
use urlfy_cc.Cache.{CacheRedis, deleted, get_link_state, invalidate_link_and_qr}
use urlfy_cc.Cache.Forget.{CacheLaws}
use urlfy_cc.Cache.States.{expected, no_mark, invalidated-reads}
use urlfy_cc.Links.Types.{Link}
use urlfy_cc.Links.{LinkServices, validate_custom_alias}
use urlfy_cc.Links.Lifecycle.{LifecycleServices}
use urlfy_cc.UrlCheck.{utf16_length}
use urlfy_cc.Links.Update.{
  LinkChanges, is_undefined, if_defined, new_expiry, new_meta, or_null, UpdateLinkInput,
  UpdateServices, get_link_by_id, take_new_alias, new_short_code, new_password_hash, changes_of,
  has_no_keys, forget_codes, store_changes, update_link,
}

empty-unformatted : is_alias_format "" ≡ false
unfolding is_alias_format matches is_alphanumeric
empty-unformatted = refl

formatted-given : (alias : String) → is_alias_format alias ≡ true → truthy_text (some alias) ≡ true
formatted-given alias ok = elim (Bool-cases (str_eq alias "")) [
  | inr given ↦ rw given refl
  | inl empty ↦
      let same : alias ≡ "" = (eq_iff alias "").0 empty in
      absurd (true≢false (sym ok ∙ ap is_alias_format same ∙ empty-unformatted))
]

module _ {W E T : Type 0} (updates : UpdateServices W E T) (links : LinkServices W E T)
    (lifecycle : LifecycleServices W E T) (redis : CacheRedis W E) where
  -- The code that the link has after the update: the alias, if one was given.
  abbrev pub code_after : Option String → String → String
  code_after alias code = or_else alias code

  -- What `updateLink` keeps of the alias: nothing if it is the code that the link has, and otherwise
  -- an alias that is not empty and another.
  abbrev IsNewCode : Option String → String → Option String → Type 0
  IsNewCode alias code none = code_after alias code ≡ code
  IsNewCode alias code (some c) =
      (code_after alias code ≡ c) × (truthy_text (some c) ≡ true) × (str_eq c code ≡ false)

  -- No password, or an empty one, leaves the hash as it is.
  abbrev pub gives_no_password : Option (Option String) → Bool
  gives_no_password none = true
  gives_no_password (some none) = false
  gives_no_password (some (some p)) = not (truthy_text (some p))

  -- The input asks for no change of a link with this code.
  abbrev pub asks_nothing : String → UpdateLinkInput → Bool
  asks_nothing code input =
      str_eq (code_after input.custom_alias code) code
      && is_undefined input.is_active
      && is_undefined input.expires_at
      && is_undefined input.max_clicks
      && gives_no_password input.password
      && is_undefined input.redirect_type
      && is_undefined input.meta_title
      && is_undefined input.meta_description
      && is_undefined input.meta_image
      && is_undefined input.utm_source
      && is_undefined input.utm_medium
      && is_undefined input.utm_campaign
      && is_undefined input.tags
      && is_undefined input.notes

  abbrev IsHash : Option (Option String) → Option (Option String) → Type 0
  IsHash password hash = is_undefined hash ≡ gives_no_password password

  new_password_hash-IsHash :
      (password : Option (Option String)) (w : W)
      → Ensures (IsHash password) (new_password_hash updates links lifecycle redis password w)
  new_password_hash-IsHash none w = refl
  new_password_hash-IsHash (some none) w = refl
  new_password_hash-IsHash (some (some p)) w = elim (Bool-cases (truthy_text (some p))) [
    | inr empty ↦ rw empty (rw empty refl)
    | inl given ↦ rw given (elim (Bool-cases (ltb (utf16_length (codes p)) 8)) [
      | inl short ↦ rw short tt
      | inr long ↦ rw long (
          Ensures-bind (IsHash (some (some p))) (links.hash_password p w)
            (λ hash. pure (some (some hash))) (λ hash w1 _. rw given refl))
    ])
  ]

  undefined-if_defined :
      {A B : Type 0} (a : Option A) (b : B) → is_undefined (if_defined a b) ≡ is_undefined a
  undefined-if_defined none b = refl
  undefined-if_defined (some a) b = refl

  undefined-new_expiry :
      (e : Option (Option String))
      → is_undefined (new_expiry updates links lifecycle redis e) ≡ is_undefined e
  undefined-new_expiry none = refl
  undefined-new_expiry (some none) = refl
  undefined-new_expiry (some (some s)) = refl

  -- The code that is written, if any.
  abbrev written : Option String → Option String
  written c = if truthy_text c then c else none

  written_code :
      (alias : Option String) (code : String) (c : Option String)
      → IsNewCode alias code c
      → (is_undefined (written c) ≡ str_eq (code_after alias code) code)
        × (or_else (written c) code ≡ code_after alias code)
  written_code alias code none h = (sym ((eq_iff (code_after alias code) code).1 h), sym h)
  written_code alias code (some c) (same, given, other) = rw (given, same, other) (refl, refl)

  has_no_keys-asks :
      (input : UpdateLinkInput) (code : String) (c : Option String) (hash : Option (Option String))
      → IsNewCode input.custom_alias code c
      → IsHash input.password hash
      → has_no_keys (changes_of updates links lifecycle redis input c hash)
        ≡ asks_nothing code input
  has_no_keys-asks input code c hash h kept =
      rw
        (
          (written_code input.custom_alias code c h).0,
          kept,
          undefined-new_expiry input.expires_at,
          undefined-if_defined input.meta_title
              (new_meta updates links lifecycle redis input).title,
          undefined-if_defined input.meta_description
              (new_meta updates links lifecycle redis input).description,
          undefined-if_defined input.meta_image
              (new_meta updates links lifecycle redis input).image,
          undefined-if_defined input.tags (links.sanitize_tags (or_null input.tags)),
          undefined-if_defined input.notes (links.sanitize_notes (or_null input.notes)),
        )
        refl

  other_taken :
      (alias code : String) (available : Bool) (w : W)
      → truthy_text (some alias) ≡ true
      → str_eq alias code ≡ false
      → Ensures
          (IsNewCode (some alias) code)
          (take_new_alias updates links lifecycle redis alias available w)
  other_taken alias code true w given other = (refl, given, other)
  other_taken alias code false w given other = tt

  new_short_code-IsNewCode :
      (alias : Option String) (code : String) (w : W)
      → Ensures (IsNewCode alias code) (new_short_code updates links lifecycle redis alias code w)
  new_short_code-IsNewCode none code w = refl
  new_short_code-IsNewCode (some alias) code w = elim (Bool-cases (is_alias_format alias)) [
    | inr bad ↦ rw bad tt
    | inl ok ↦ rw ok (elim (Bool-cases (str_eq alias code)) [
      | inl same ↦ rw same ((eq_iff alias code).0 same)
      | inr other ↦ rw other (
          Ensures-bind (IsNewCode (some alias) code) (validate_custom_alias links alias w)
            (take_new_alias updates links lifecycle redis alias)
            (λ available w1 _.
              other_taken alias code available w1 (formatted-given alias ok) other))
    ])
  ]

  module _ (value : String → W → Option String) (laws : CacheLaws redis value) where
    forgotten-reads :
        (alias : Option String) (code : String) (new_code : Option String) (refresh : Bool)
        (st : LinkState) (w w1 w2 : W)
        → IsNewCode alias code new_code
        → forget_codes updates links lifecycle redis code new_code w ≡ (returned tt, w1)
        → get_link_state redis refresh (code_after alias code) w1 ≡ (returned st, w2)
        → st ≡ expected none
    forgotten-reads alias code none refresh st w w1 w2 h e read = no_mark redis value laws code st (
        invalidated-reads redis value laws code none refresh w w1 w2 st e
          (ap (λ c. get_link_state redis refresh c w1) (sym h) ∙ read))
    forgotten-reads alias code (some c) refresh st w w1 w2 (same, given, other) e read =
        let both = truthy_text (some c) && not (str_eq c code) in
        let renamed : both ≡ true = rw given (rw other refl) in
        let run =
          subst
            (λ b.
              (if b
                  then (invalidate_link_and_qr redis code (some deleted)
                      >> invalidate_link_and_qr redis c none)
                  else invalidate_link_and_qr redis code none)
                w
              ≡ (returned tt, w1))
            renamed e in
        let (_, v, _, last) =
          bind_outcome-returned (invalidate_link_and_qr redis code (some deleted) w)
            (λ _. invalidate_link_and_qr redis c none) tt w1 run in
        no_mark redis value laws c st (
          invalidated-reads redis value laws c none refresh v w1 w2 st last
            (ap (λ d. get_link_state redis refresh d w1) (sym same) ∙ read))

    -- A row is answered that the database gave for an update, under the code that the link is to have,
    -- with the activity and the limit of the input, and with a hash exactly if a password, or its
    -- removal, is asked for.
    pub record IsWritten (id code : String) (input : UpdateLinkInput) (row : Option (Link T))
        : Type 0 where
      pub changes : LinkChanges T
      pub stored : (v : W) × ((updates.update_row id changes v).0 ≡ returned row)
      pub new_code : or_else changes.short_code code ≡ code_after input.custom_alias code
      pub activity : changes.is_active ≡ input.is_active
      pub limit : changes.max_clicks ≡ input.max_clicks
      pub password : is_undefined changes.password_hash ≡ gives_no_password input.password

    stored-reads :
        (id : String) (input : UpdateLinkInput) (link : Link T) (new_code : Option String)
        (hash : Option (Option String)) (refresh : Bool) (st : LinkState) (w w1 w2 : W)
        (row : Option (Link T))
        → IsNewCode input.custom_alias link.new.short_code new_code
        → IsHash input.password hash
        → store_changes updates links lifecycle redis id link new_code
            (changes_of updates links lifecycle redis input new_code hash)
            w
          ≡ (returned row, w1)
        → get_link_state redis refresh (code_after input.custom_alias link.new.short_code) w1
          ≡ (returned st, w2)
        → ((asks_nothing link.new.short_code input ≡ true) × (row ≡ some link))
          ⊎ ((asks_nothing link.new.short_code input ≡ false)
              × IsWritten id link.new.short_code input row
              × (st ≡ expected none))
    stored-reads id input link new_code hash refresh st w w1 w2 row h kept e read =
        let changes = changes_of updates links lifecycle redis input new_code hash in
        let asked = has_no_keys-asks input link.new.short_code new_code hash h kept in
        let store = λ (b : Bool).
          (if b
              then pure (some link)
              else (updates.update_row id changes >>= λ r.
                  forget_codes updates links lifecycle redis link.new.short_code new_code
                  >> pure r))
            w in
        elim (Bool-cases (asks_nothing link.new.short_code input)) [
          | inl none_given ↦
              inl
                (none_given, cc (subst (λ b. store b ≡ (returned row, w1)) (asked ∙ none_given) e))
          | inr some_given ↦
              let (r, v, updated, rest) =
                bind_outcome-returned (updates.update_row id changes w)
                  (λ r.
                    forget_codes updates links lifecycle redis link.new.short_code new_code
                    >> pure r)
                  row w1 (subst (λ b. store b ≡ (returned row, w1)) (asked ∙ some_given) e) in
              let (_, u, gone, last) =
                bind_outcome-returned
                  (forget_codes updates links lifecycle redis link.new.short_code new_code v)
                  (λ _. pure r) row w1 rest in
              inr (
                some_given,
                record {
                  changes = changes;
                  stored = (w, ap (λ q. q.0) updated ∙ ap (λ q. q.0) last);
                  new_code = (written_code input.custom_alias link.new.short_code new_code h).1;
                  activity = refl;
                  limit = refl;
                  password = kept;
                },
                forgotten-reads input.custom_alias link.new.short_code new_code refresh st v u w2 h
                    gone
                    (subst
                      (λ x.
                        get_link_state redis refresh
                          (code_after input.custom_alias link.new.short_code) x
                        ≡ (returned st, w2))
                      (sym (ap (λ r. r.1) last)) read),
              )
        ]

    -- A user updates a link. If the input asks for no change, which is read off the input, the link is
    -- answered as it was read. Otherwise the row is answered that the database gave for an update
    -- under which the link has the code of the alias, if one was given, the activity and the limit of
    -- the input, and a new hash or none exactly if the password is to change; and the cache then holds
    -- neither a copy nor a mark under the code that the link has now, so that the next request reads
    -- the database. All commands are answered.
    pub updated-reads :
        (id user_id : String) (input : UpdateLinkInput) (link : Link T) (refresh : Bool)
        (st : LinkState) (w v w1 w2 : W) (row : Option (Link T))
        → get_link_by_id updates links lifecycle redis id user_id w ≡ (returned link, v)
        → update_link updates links lifecycle redis id user_id input w ≡ (returned row, w1)
        → get_link_state redis refresh (code_after input.custom_alias link.new.short_code) w1
          ≡ (returned st, w2)
        → ((asks_nothing link.new.short_code input ≡ true) × (row ≡ some link))
          ⊎ ((asks_nothing link.new.short_code input ≡ false)
              × IsWritten id link.new.short_code input row
              × (st ≡ expected none))
    unfolding update_link
    updated-reads id user_id input link refresh st w v w1 w2 row found e read =
        let code = new_short_code updates links lifecycle redis input.custom_alias in
        let run =
          subst
            (λ r.
              bind_outcome r (λ l. code l.new.short_code >>= λ c.
              new_password_hash updates links lifecycle redis input.password >>= λ hash.
              store_changes updates links lifecycle redis id l c
                (changes_of updates links lifecycle redis input c hash))
              ≡ (returned row, w1))
            found e in
        let (c, v1, chosen, rest) =
          bind_outcome-returned (code link.new.short_code v) _ row w1 run in
        let (hash, v2, hashed, last) =
          bind_outcome-returned (new_password_hash updates links lifecycle redis input.password v1)
            _ row w1 rest in
        stored-reads id input link c hash refresh st v2 w1 w2 row
          (Ensures-eq (IsNewCode input.custom_alias link.new.short_code)
            (code link.new.short_code v) c
            (new_short_code-IsNewCode input.custom_alias link.new.short_code v)
            (ap (λ r. r.0) chosen))
          (Ensures-eq (IsHash input.password)
            (new_password_hash updates links lifecycle redis input.password v1) hash
            (new_password_hash-IsHash input.password v1) (ap (λ r. r.0) hashed))
          last read
