-- ===== src/Cache/Codec.antt =====
-- A text for each cached link that is read back, for the runs of
-- packages/redirect-domain/src/cache-service.ts.
use Prim.Native.Char.{code}
use package.text.Mathlib.Text.{◌==◌ as str_eq}
use urlfy_cc.Common.{
  ℕ, zero, suc, ◌≡◌, refl, ap, ◌∙◌, Bool, true, false, Option, none, some, String, ◌==◌,
  if◌then◌else◌,
}
use urlfy_cc.Common.Texts.{cons-ne_empty}
use urlfy_cc.Common.Effects.{Outcome, returned, threw}
use urlfy_cc.Redirect.Link.{CachedLink, RedirectType, moved_301, found_302}

-- A writer in front of a rest, and a reader that gives the value and the rest back.
record Codec (A : Type 0) : Type 0 where
  write : A → String → String
  read : String → Option (A × String)
  read-write : (a : A) (rest : String) → read (write a rest) ≡ some (a, rest)

data Both (A B : Type 0) : Type 0 where
  both : A → B → Both A B

after : {A B : Type 0} → (A → B) → Option (A × String) → Option (B × String)
after f none = none
after f (some (a, rest)) = some (f a, rest)

then_read :
    {A B C : Type 0}
    → (A → B → C)
    → (String → Option (B × String))
    → Option (A × String)
    → Option (C × String)
then_read f read none = none
then_read f read (some (a, rest)) = after (f a) (read rest)

write_text : String → String → String
write_text String.[] rest = String.◌∷◌ "." rest
write_text (String.◌∷◌ c s) rest = String.◌∷◌ "," (String.◌∷◌ c (write_text s rest))

read_text : String → Option (String × String)
read_text String.[] = none
read_text (String.◌∷◌ m String.[]) = some ("", "")
read_text (String.◌∷◌ m (String.◌∷◌ c s)) =
    let rest = after (λ t. String.◌∷◌ c t) (read_text s) in
    if code m == 44 then rest else some ("", String.◌∷◌ c s)

read-write_text : (s rest : String) → read_text (write_text s rest) ≡ some (s, rest)
unfolding read_text write_text after
read-write_text String.[] String.[] = refl
read-write_text String.[] (String.◌∷◌ c rest) = refl
read-write_text (String.◌∷◌ c s) rest = ap (after (λ t. String.◌∷◌ c t)) (read-write_text s rest)

text_codec : Codec String
text_codec = record { write = write_text; read = read_text; read-write = read-write_text }

write_number : ℕ → String → String
write_number zero rest = String.◌∷◌ "." rest
write_number (suc n) rest = String.◌∷◌ "," (write_number n rest)

read_number : String → Option (ℕ × String)
read_number String.[] = none
read_number (String.◌∷◌ m s) =
    let more = after suc (read_number s) in if code m == 44 then more else some (0, s)

read-write_number : (n : ℕ) (rest : String) → read_number (write_number n rest) ≡ some (n, rest)
unfolding read_number write_number after
read-write_number zero rest = refl
read-write_number (suc n) rest = ap (after suc) (read-write_number n rest)

number_codec : Codec ℕ
number_codec = record { write = write_number; read = read_number; read-write = read-write_number }

-- A mark or none, before a value.
module _ {A : Type 0} (c : Codec A) where
  write_option : Option A → String → String
  write_option none rest = String.◌∷◌ "." rest
  write_option (some a) rest = String.◌∷◌ "," (c.write a rest)

  read_option : String → Option (Option A × String)
  read_option String.[] = none
  read_option (String.◌∷◌ m s) =
      if code m == 44 then after (λ a. some a) (c.read s) else some (none, s)

  read-write_option :
      (o : Option A) (rest : String) → read_option (write_option o rest) ≡ some (o, rest)
  unfolding read_option write_option after
  read-write_option none rest = refl
  read-write_option (some a) rest = ap (after (λ a. some a)) (c.read-write a rest)

  option_codec : Codec (Option A)
  option_codec = record { write = write_option; read = read_option; read-write = read-write_option }

module _ {A B : Type 0} (c : Codec A) (d : Codec B) where
  write_both : Both A B → String → String
  write_both (both a b) rest = c.write a (d.write b rest)

  read_both : String → Option (Both A B × String)
  read_both s = then_read (λ a b. both a b) d.read (c.read s)

  read-write_both : (p : Both A B) (rest : String) → read_both (write_both p rest) ≡ some (p, rest)
  unfolding read_both write_both then_read after
  read-write_both (both a b) rest =
      ap (then_read (λ a b. both a b) d.read) (c.read-write a (d.write b rest))
      ∙ ap (after (λ b. both a b)) (d.read-write b rest)

  both_codec : Codec (Both A B)
  both_codec = record { write = write_both; read = read_both; read-write = read-write_both }

flag : Bool → ℕ
flag true = 1
flag false = 0

type_number : RedirectType → ℕ
type_number moved_301 = 1
type_number found_302 = 0

is_one : ℕ → Bool
is_one n = n == 1

type_of : ℕ → RedirectType
type_of n = if n == 1 then moved_301 else found_302

is_one-flag : (b : Bool) → is_one (flag b) ≡ b
unfolding is_one flag
is_one-flag true = refl
is_one-flag false = refl

type_of-number : (t : RedirectType) → type_of (type_number t) ≡ t
unfolding type_of type_number
type_of-number moved_301 = refl
type_of-number found_302 = refl

abbrev Texts : Type 0
Texts = Both String (
    Both String (
      Both (Option String)
        (Both (Option String) (Both (Option String) (Both (Option String) (Option String))))))

abbrev Numbers : Type 0
Numbers = Both ℕ (Both ℕ (Both ℕ (Both (Option ℕ) (Both ℕ (Option ℕ)))))

texts_codec : Codec Texts
texts_codec = both_codec text_codec (
    both_codec text_codec (
      both_codec (option_codec text_codec) (
        both_codec (option_codec text_codec) (
          both_codec (option_codec text_codec)
            (both_codec (option_codec text_codec) (option_codec text_codec))))))

numbers_codec : Codec Numbers
numbers_codec = both_codec number_codec (
    both_codec number_codec (
      both_codec number_codec (
        both_codec (option_codec number_codec)
          (both_codec number_codec (option_codec number_codec)))))

link_codec : Codec (Both Texts Numbers)
link_codec = both_codec texts_codec numbers_codec

parts : CachedLink → Both Texts Numbers
parts l =
    both
      (both l.id (
        both l.original_url (
          both l.expires_at
            (both l.password_hash (both l.utm_source (both l.utm_medium l.utm_campaign))))))
      (both (type_number l.redirect_type) (
        both (flag l.is_active)
          (both (flag l.is_banned) (both l.max_clicks (both l.clicks_count l.cached_at)))))

join : Both Texts Numbers → CachedLink
join
      (both
        (both id (both url (both expires (both hash (both source (both medium campaign))))))
        (both t (both active (both banned (both limit (both clicks at)))))) =
    record {
      id = id;
      original_url = url;
      redirect_type = type_of t;
      is_active = is_one active;
      is_banned = is_one banned;
      expires_at = expires;
      max_clicks = limit;
      clicks_count = clicks;
      password_hash = hash;
      utm_source = source;
      utm_medium = medium;
      utm_campaign = campaign;
      cached_at = at;
    }

join-parts : (l : CachedLink) → join (parts l) ≡ l
unfolding join parts
join-parts l =
    ap
      (λ t. record l {
        redirect_type = t;
        is_active = is_one (flag l.is_active);
        is_banned = is_one (flag l.is_banned);
      })
      (type_of-number l.redirect_type)
    ∙ ap (λ b. record l { is_active = b; is_banned = is_one (flag l.is_banned) })
        (is_one-flag l.is_active)
    ∙ ap (λ b. record l { is_banned = b }) (is_one-flag l.is_banned)

-- The first character keeps the text from being empty.
pub stringify : CachedLink → String
stringify l = String.◌∷◌ "{" (link_codec.write (parts l) "")

read_link : Option (Both Texts Numbers × String) → Outcome String CachedLink
read_link none = threw "JSON"
read_link (some (p, rest)) = returned (join p)

pub parse : String → Outcome String CachedLink
parse String.[] = threw "JSON"
parse (String.◌∷◌ c s) = read_link (link_codec.read s)

pub parse-stringify : (l : CachedLink) → parse (stringify l) ≡ returned l
unfolding parse stringify read_link
parse-stringify l =
    ap read_link (link_codec.read-write (parts l) "") ∙ ap (λ k. returned k) (join-parts l)

pub stringify-text : (l : CachedLink) → str_eq (stringify l) "" ≡ false
unfolding stringify
stringify-text l = cons-ne_empty "{" (link_codec.write (parts l) "")
