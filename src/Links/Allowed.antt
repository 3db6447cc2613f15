-- ===== src/Links/Allowed.antt =====
-- What is checked before `createLink` of apps/api/src/server/modules/links/services/create-link.ts
-- answers with a link.
use urlfy_cc.Common.{
  ℕ, zero, suc, ◌≤◌, ◌≡◌, refl, ap, Bool, true, false, not, Option, none, some, String, ltb, ◌==◌,
  if◌then◌else◌, truthy_text, or_else, Bool-cases, inl, inr, ◌⊎◌, arith,
}
use urlfy_cc.Common.Effects.{
  Outcome, returned, threw, Eff, pure, catch, Ensures, Ensures-bind, Ensures-if, Ensures-eq,
  Outcome-cases, ◌>>=◌,
}
use urlfy_cc.Alias.{codes, is_alias_format}
use urlfy_cc.UrlCheck.{ValidationResult, valid, invalid, utf16_length}
use urlfy_cc.Links.Types.{CreateLinkInput, NewLink, Link}
use urlfy_cc.Links.{
  LinkServices, validate_custom_alias, unless_reserved, take_if_free, generate_loop,
  generate_unique_code, check_valid, take_alias, checked_alias, choose_code, hash_if_given,
  new_link, after_insert, insert_loop, answer_link, finish, at_now, create_link, max_insert_retries,
}

module _ {W E T : Type 0} (services : LinkServices W E T) where
  open services use {
    validate_url_safe, has_link, has_reserved_slug, insert_link, is_unique_constraint_violation,
  }

  -- At some time no link had the code, and at some time it was no reserved slug.
  pub record IsFree (code : String) : Type 0 where
    pub no_link : (v : W) × ((has_link code v).0 ≡ returned false)
    pub not_reserved : (v : W) × ((has_reserved_slug code v).0 ≡ returned false)

  -- The code is free; it is the alias, of a user and in its format, if one was asked for.
  pub record IsChosen (input : CreateLinkInput) (user_id : Option String) (code : String)
      : Type 0 where
    pub free : IsFree code
    pub alias :
        (truthy_text input.custom_alias ≡ false)
        ⊎ ((code ≡ or_else input.custom_alias "")
            × (truthy_text user_id ≡ true)
            × (is_alias_format code ≡ true))

  -- A password is a user's, and has eight units of text or more.
  abbrev pub MayProtect : CreateLinkInput → Option String → Type 0
  MayProtect input user_id =
      (truthy_text input.password ≡ false)
      ⊎ ((truthy_text user_id ≡ true) × (8 ≤ utf16_length (codes (or_else input.password ""))))

  pub record IsAllowed (input : CreateLinkInput) (user_id : Option String) (link : Link T)
      : Type 0 where
    pub validated : (v : W) × ((validate_url_safe input.url v).0 ≡ returned valid)
    pub protected : MayProtect input user_id
    pub inserted :
        (new : NewLink T) × (row : Link T) × (v : W) × ((insert_link new v).0 ≡ returned (some row))
        × (link ≡ answer_link services new row)
        × (new.original_url ≡ input.url)
        × (new.user_id ≡ user_id)
        × IsChosen input user_id new.short_code

  -- `validateCustomAlias` answers that the alias may be taken.
  abbrev AliasAnswer : String → Bool → Type 0
  AliasAnswer alias false = Unit
  AliasAnswer alias true = IsFree alias × (is_alias_format alias ≡ true)

  reserved_answer :
      (alias : String) (v w : W) (there : Bool)
      → is_alias_format alias ≡ true
      → (has_link alias v).0 ≡ returned there
      → Ensures (AliasAnswer alias) (unless_reserved services alias there w)
  reserved_answer alias v w true ok e = tt
  reserved_answer alias v w false ok e =
      Ensures-bind (AliasAnswer alias) (has_reserved_slug alias w) (λ reserved. pure (not reserved))
        (λ reserved w1 got. answer reserved w1 (ap (λ r. r.0) got))
    where
      answer :
          (reserved : Bool) (w1 : W)
          → (has_reserved_slug alias w).0 ≡ returned reserved
          → Ensures (AliasAnswer alias) (pure {W = W} {E = E} (not reserved) w1)
      answer true w1 got = tt
      answer false w1 got = (record { no_link = (v, e); not_reserved = (w, got) }, ok)

  alias-Answer :
      (alias : String) (w : W)
      → Ensures (AliasAnswer alias) (validate_custom_alias services alias w)
  unfolding validate_custom_alias
  alias-Answer alias w = elim (Bool-cases (is_alias_format alias)) [
    | inr bad ↦ rw bad tt
    | inl ok ↦ rw ok (
        Ensures-bind (AliasAnswer alias) (has_link alias w) (unless_reserved services alias)
          (λ there w1 got. reserved_answer alias w w1 there ok (ap (λ r. r.0) got)))
  ]

  taken-IsFree :
      (next : Eff W E String) (code : String) (v w : W) (there : Bool)
      → ((u : W) → Ensures IsFree (next u))
      → (has_link code v).0 ≡ returned there
      → Ensures IsFree (take_if_free services next code there w)
  taken-IsFree next code v w true more e = more w
  taken-IsFree next code v w false more e =
      Ensures-bind IsFree (has_reserved_slug code w)
        (λ reserved. if reserved then next else pure code)
        (λ reserved w1 got. answer reserved w1 (ap (λ r. r.0) got))
    where
      answer :
          (reserved : Bool) (w1 : W)
          → (has_reserved_slug code w).0 ≡ returned reserved
          → Ensures IsFree ((if reserved then next else pure code) w1)
      answer true w1 got = more w1
      answer false w1 got = record { no_link = (v, e); not_reserved = (w, got) }

  generated-IsFree : (left : ℕ) (w : W) → Ensures IsFree (generate_loop services left w)
  unfolding generate_loop
  generated-IsFree zero w = tt
  generated-IsFree (suc left) w =
      Ensures-bind IsFree (services.generate_short_code w)
        (λ code. has_link code >>= take_if_free services (generate_loop services left) code)
        (λ code w1 _.
          Ensures-bind IsFree (has_link code w1)
            (take_if_free services (generate_loop services left) code)
            (λ there w2 got.
              taken-IsFree (generate_loop services left) code w1 w2 there
                (λ u. generated-IsFree left u) (ap (λ r. r.0) got)))

  module _ (input : CreateLinkInput) (user_id : Option String) where
    alias_taken :
        (alias : String) (free : Bool) (v w : W)
        → truthy_text user_id ≡ true
        → alias ≡ or_else input.custom_alias ""
        → (validate_custom_alias services alias v).0 ≡ returned free
        → Ensures (IsChosen input user_id) (take_alias services alias free w)
    alias_taken alias false v w user same e = tt
    alias_taken alias true v w user same e =
        let (free, ok) =
          Ensures-eq (AliasAnswer alias) (validate_custom_alias services alias v) true
            (alias-Answer alias v) e in
        record { free = free; alias = inr (same, user, ok) }

    alias-IsChosen :
        (w : W)
        → Ensures
            (IsChosen input user_id)
            (checked_alias services (or_else input.custom_alias "") user_id w)
    alias-IsChosen w =
        let alias = or_else input.custom_alias "" in
        elim (Bool-cases (truthy_text user_id)) [
          | inr guest ↦ rw guest tt
          | inl user ↦ rw user (elim (Bool-cases (is_alias_format alias)) [
            | inr bad ↦ rw bad tt
            | inl ok ↦ rw ok (
                Ensures-bind (IsChosen input user_id) (validate_custom_alias services alias w)
                  (take_alias services alias)
                  (λ free w1 got. alias_taken alias free w w1 user refl (ap (λ r. r.0) got)))
          ])
        ]

    choose-IsChosen :
        (w : W) → Ensures (IsChosen input user_id) (choose_code services input user_id w)
    choose-IsChosen w =
        Ensures-if (IsChosen input user_id) (truthy_text input.custom_alias)
          (checked_alias services (or_else input.custom_alias "") user_id)
          (generate_unique_code services) w (λ _. alias-IsChosen w)
          (λ none_given.
            generated-IsChosen (generate_unique_code services w) none_given (generated-IsFree 5 w))
      where
        generated-IsChosen :
            (r : Outcome E String × W)
            → truthy_text input.custom_alias ≡ false
            → Ensures IsFree r
            → Ensures (IsChosen input user_id) r
        generated-IsChosen (returned code, v) none_given h = record {
          free = h;
          alias = inl none_given;
        }
        generated-IsChosen (threw e, v) none_given h = tt

    hash-MayProtect :
        (w : W) → Ensures (λ _. MayProtect input user_id) (hash_if_given services input user_id w)
    hash-MayProtect w =
        let password = or_else input.password "" in
        elim (Bool-cases (truthy_text input.password)) [
          | inr none_given ↦ rw none_given (inl refl)
          | inl given ↦ rw given (elim (Bool-cases (truthy_text user_id)) [
            | inr guest ↦ rw guest tt
            | inl user ↦ rw user (elim (Bool-cases (ltb (utf16_length (codes password)) 8)) [
              | inl short ↦ rw short tt
              | inr long ↦ rw long (
                  Ensures-bind
                    (λ _. (true ≡ false) ⊎ ((true ≡ true) × (8 ≤ utf16_length (codes password))))
                    (services.hash_password password w) (λ hash. pure (some hash))
                    (λ hash w1 _. inr (refl, ground (arith, long))))
            ])
          ])
        ]

    -- The row that the loop ends with was inserted with a code that may be taken.
    abbrev Inserted : (String → NewLink T) → Option (Link T) × String → Type 0
    Inserted row (none, code) = Unit
    Inserted row (some link, code) =
        ((v : W) × ((insert_link (row code) v).0 ≡ returned (some link)))
        × IsChosen input user_id code

    row-Inserted :
        (row : String → NewLink T) (code : String) (v w : W) (link : Option (Link T))
        → IsChosen input user_id code
        → (insert_link (row code) v).0 ≡ returned link
        → Inserted row (link, code)
    row-Inserted row code v w none h e = tt
    row-Inserted row code v w (some link) h e = ((v, e), h)

    refused_or_again :
        (row : String → NewLink T) (left : ℕ) (code : String) (e : E) (w : W)
        (next : String → Eff W E (Option (Link T) × String))
        → ((u : W) (again : String)
            → IsChosen input user_id again
            → Ensures (Inserted row) (next again u))
        → Ensures (Inserted row) (after_insert services input left next code (threw e, w))
    refused_or_again row left code e w next go =
        elim (Bool-cases (is_unique_constraint_violation e)) [
          | inr other ↦ rw other tt
          | inl twice ↦ rw twice (elim (Bool-cases (truthy_text input.custom_alias)) [
            | inl given ↦ rw given tt
            | inr none_given ↦ rw none_given (elim (Bool-cases (left == 0)) [
              | inl last ↦ rw last tt
              | inr more ↦ rw more (
                  Ensures-bind (Inserted row) (generate_unique_code services w) next (λ again u got.
                    go u again (record {
                      free =
                          Ensures-eq IsFree (generate_unique_code services w) again
                            (generated-IsFree 5 w) (ap (λ r. r.0) got);
                      alias = inl none_given;
                    })))
            ])
          ])
        ]

    loop-Inserted :
        (row : String → NewLink T) (left : ℕ) (code : String) (w : W)
        → IsChosen input user_id code
        → Ensures (Inserted row) (insert_loop services input row left code w)
    unfolding insert_loop
    loop-Inserted row zero code w h = tt
    loop-Inserted row (suc left) code w h = elim (Outcome-cases (insert_link (row code) w)) [
      | inl (link, w1, got) ↦ rw got (row-Inserted row code w w1 link h (ap (λ r. r.0) got))
      | inr (e, w1, got) ↦ rw got (
          refused_or_again row left code e w1 (insert_loop services input row left)
            (λ u again chosen. loop-Inserted row left again u chosen))
    ]

    finished-IsAllowed :
        (id : String) (ip_hash hash : Option String) (at : T) (v0 w : W)
        (got : Option (Link T) × String)
        → MayProtect input user_id
        → (validate_url_safe input.url v0).0 ≡ returned valid
        → Inserted (new_link services id input user_id ip_hash hash at) got
        → Ensures
            (IsAllowed input user_id)
            (finish services (new_link services id input user_id ip_hash hash at) got w)
    finished-IsAllowed id ip_hash hash at v0 w (none, code) p checked h = tt
    finished-IsAllowed id ip_hash hash at v0 w (some link, code) p checked ((v, e), chosen) =
        let new = new_link services id input user_id ip_hash hash at code in
        Ensures-bind (IsAllowed input user_id)
          (catch (services.invalidate_link code) (λ _. pure tt) w)
          (λ _. pure (answer_link services new link))
          (λ _ w1 _. record {
            validated = (v0, checked);
            protected = p;
            inserted = (new, link, v, e, refl, refl, refl, chosen);
          })

    inserted-IsAllowed :
        (id : String) (ip_hash : Option String) (code : String) (hash : Option String) (v0 w : W)
        → IsChosen input user_id code
        → MayProtect input user_id
        → (validate_url_safe input.url v0).0 ≡ returned valid
        → Ensures (IsAllowed input user_id) (at_now services id input user_id ip_hash code hash w)
    inserted-IsAllowed id ip_hash code hash v0 w chosen p checked =
        let row = new_link services id input user_id ip_hash hash (services.now w) in
        Ensures-bind (IsAllowed input user_id)
          (insert_loop services input row max_insert_retries code w) (finish services row)
          (λ done u got. finished-IsAllowed id ip_hash hash (services.now w) v0 u done p checked (
            Ensures-eq (Inserted row) (insert_loop services input row max_insert_retries code w)
              done (loop-Inserted row max_insert_retries code w chosen) (ap (λ r. r.0) got)))

    checked-IsAllowed :
        (id : String) (ip_hash : Option String) (v0 w : W) (validation : ValidationResult)
        → (validate_url_safe input.url v0).0 ≡ returned validation
        → Ensures (IsAllowed input user_id) (
            (check_valid services validation >>= λ _. choose_code services input user_id >>= λ code.
            hash_if_given services input user_id >>= at_now services id input user_id ip_hash code)
              w)
    checked-IsAllowed id ip_hash v0 w (invalid e) checked = tt
    checked-IsAllowed id ip_hash v0 w valid checked =
        let allowed = IsAllowed input user_id in
        Ensures-bind allowed (choose_code services input user_id w)
          (λ code.
            hash_if_given services input user_id >>= at_now services id input user_id ip_hash code)
          (λ code w1 got.
            Ensures-bind allowed (hash_if_given services input user_id w1)
              (at_now services id input user_id ip_hash code)
              (λ hash w2 got_hash.
                inserted-IsAllowed id ip_hash code hash v0 w2
                  (Ensures-eq (IsChosen input user_id) (choose_code services input user_id w) code
                    (choose-IsChosen w) (ap (λ r. r.0) got))
                  (Ensures-eq (λ _. MayProtect input user_id)
                    (hash_if_given services input user_id w1) hash (hash-MayProtect w1)
                    (ap (λ r. r.0) got_hash))
                  checked))

    -- A link that `createLink` answers with is one that the database returned for an insert of the
    -- address that was asked for, in the name of its user. The address was found valid and safe. Its
    -- code was found to be neither the code of a link nor a reserved slug, and it is the alias that
    -- was asked for, by a user and in the format of aliases, if one was. A password was given by a
    -- user and has eight units of text or more, or none was given.
    pub create_link-IsAllowed :
        (ip_hash : Option String) (w : W)
        → Ensures (IsAllowed input user_id) (create_link services input user_id ip_hash w)
    unfolding create_link
    create_link-IsAllowed ip_hash w =
        Ensures-bind (IsAllowed input user_id) (validate_url_safe input.url w)
          (λ validation. check_valid services validation >>= λ _.
            choose_code services input user_id >>= λ code.
            hash_if_given services input user_id
            >>= at_now services (services.random_uuid w) input user_id ip_hash code)
          (λ validation w1 got.
            checked-IsAllowed (services.random_uuid w) ip_hash w w1 validation (ap (λ r. r.0) got))
