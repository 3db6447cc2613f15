-- ===== src/Worker/Ledger.antt =====
-- What the worker of apps/worker/src/server/lib/worker-base.ts acknowledges: its services with a ledger
-- of the calls that succeeded, the last one first.
use urlfy_cc.Common.{
  ℕ, ◌≤◌, ◌≡◌, refl, false, Option, some, String, List, [], ◌∷◌, truthy_text, ◌+◌, ◌<◌, subst, ap,
}
use urlfy_cc.Common.Effects.{Outcome, returned, threw, Eff, bind_outcome}
use urlfy_cc.Worker.{
  Fields, Message, WorkerConfig, WorkerServices, get_retry_count, build_retry_payload, dead_letter,
}

pub data Call : Type 0 where
  handled : String → Fields → Call
  added : String → Fields → Call
  acked : List String → Call

abbrev pub note_success :
    {W E : Type 0}
    → Call
    → List Call
    → Outcome E (Unit {0}) × W
    → Outcome E (Unit {0}) × (List Call × W)
note_success call calls (returned u, w) = (returned u, (call ∷ calls, w))
note_success call calls (threw e, w) = (threw e, (calls, w))

abbrev pub pass_on :
    {W E : Type 0} → List Call → Outcome E (Unit {0}) × W → Outcome E (Unit {0}) × (List Call × W)
pass_on calls (r, w) = (r, (calls, w))

abbrev pub recorded : {W E : Type 0} → WorkerServices W E → WorkerServices (List Call × W) E
recorded services = record {
  process_message = λ id fields (calls, w).
      note_success (handled id fields) calls (services.process_message id fields w);
  add = λ stream fields maxlen (calls, w).
      note_success (added stream fields) calls (services.add stream fields maxlen w);
  ack = λ ids (calls, w). note_success (acked ids) calls (services.ack ids w);
  sleep = λ ms (calls, w). pass_on calls (services.sleep ms w);
  now_iso = λ (calls, w). services.now_iso w;
  parse_int = services.parse_int;
  stringify = services.stringify;
}

pub data Contains (call : Call) : List Call → Type 0 where
  here : (calls : List Call) → Contains call (call ∷ calls)
  later : (other : Call) (calls : List Call) → Contains call calls → Contains call (other ∷ calls)

abbrev pub Grows : List Call → List Call → Type 0
Grows calls calls' = (call : Call) → Contains call calls → Contains call calls'

-- Each of the ids was handled.
abbrev pub AllHandled : List String → List Call → Type 0
AllHandled [] calls = Unit
AllHandled (id ∷ ids) calls =
    ((fields : Fields) × Contains (handled id fields) calls) × AllHandled ids calls

module _ (parse_int : String → Option ℕ) (stringify : Fields → String) (config : WorkerConfig)
    (Delivered : Message → Type 0) where
  -- Why a message that was delivered may be acknowledged: its handler succeeded, a copy that counts one more retry is in
  -- the stream, a copy is with the dead letters, or its retries are used up and there are no dead
  -- letters.
  pub data Reason (id : String) (earlier : List Call) : Type 0 where
    succeeded : (fields : Fields) → Contains (handled id fields) earlier → Reason id earlier
    requeued :
        (m : Message) (now : String)
        → Delivered m
        → m.id ≡ id
        → get_retry_count parse_int m < config.max_retries
        → Contains
            (added config.stream (build_retry_payload now m (get_retry_count parse_int m + 1)))
            earlier
        → Reason id earlier
    dead_lettered :
        (m : Message) (now : String)
        → Delivered m
        → m.id ≡ id
        → config.max_retries ≤ get_retry_count parse_int m
        → Contains
            (added config.dead_letter_stream
              (dead_letter stringify config m (get_retry_count parse_int m) now))
            earlier
        → Reason id earlier
    dropped :
        (m : Message)
        → Delivered m
        → m.id ≡ id
        → config.max_retries ≤ get_retry_count parse_int m
        → truthy_text (some config.dead_letter_stream) ≡ false
        → Reason id earlier

  abbrev pub AllReasons : List String → List Call → Type 0
  AllReasons [] earlier = Unit
  AllReasons (id ∷ ids) earlier = Reason id earlier × AllReasons ids earlier

  -- Every acknowledgement has its reason among the calls before it.
  abbrev pub IsJustified : List Call → Type 0
  IsJustified [] = Unit
  IsJustified (handled id fields ∷ calls) = IsJustified calls
  IsJustified (added stream fields ∷ calls) = IsJustified calls
  IsJustified (acked ids ∷ calls) = AllReasons ids calls × IsJustified calls

  abbrev pub Keeps : List Call → List Call → Type 0
  Keeps calls calls' = (IsJustified calls → IsJustified calls') × Grows calls calls'

  pub Keeps-refl : (calls : List Call) → Keeps calls calls
  Keeps-refl calls = (λ j. j, λ call c. c)

  pub Keeps-trans : (a b c : List Call) → Keeps a b → Keeps b c → Keeps a c
  Keeps-trans a b c (f, g) (f', g') = (λ j. f' (f j), λ call h. g' call (g call h))

  pub reasons_of_handled :
      (ids : List String) (calls : List Call) → AllHandled ids calls → AllReasons ids calls
  reasons_of_handled [] calls h = tt
  reasons_of_handled (id ∷ ids) calls ((fields, c), h) =
      (succeeded fields c, reasons_of_handled ids calls h)

  pub handled-Grows :
      (ids : List String) (a b : List Call) → Grows a b → AllHandled ids a → AllHandled ids b
  handled-Grows [] a b g h = tt
  handled-Grows (id ∷ ids) a b g ((fields, c), h) = ((fields, g _ c), handled-Grows ids a b g h)

  module _ {W E : Type 0} where
    pub handled-Keeps :
        (id : String) (fields : Fields) (calls : List Call) (r : Outcome E (Unit {0}) × W)
        → Keeps calls (note_success (handled id fields) calls r).1.0
    handled-Keeps id fields calls (returned u, w) = (λ j. j, λ call c. later _ _ c)
    handled-Keeps id fields calls (threw e, w) = Keeps-refl calls

    pub added-Keeps :
        (stream : String) (fields : Fields) (calls : List Call) (r : Outcome E (Unit {0}) × W)
        → Keeps calls (note_success (added stream fields) calls r).1.0
    added-Keeps stream fields calls (returned u, w) = (λ j. j, λ call c. later _ _ c)
    added-Keeps stream fields calls (threw e, w) = Keeps-refl calls

    pub acked-Keeps :
        (ids : List String) (calls : List Call) (r : Outcome E (Unit {0}) × W)
        → AllReasons ids calls
        → Keeps calls (note_success (acked ids) calls r).1.0
    acked-Keeps ids calls (returned u, w) why = (λ j. (why, j), λ call c. later _ _ c)
    acked-Keeps ids calls (threw e, w) why = Keeps-refl calls

    pub noted-Contains :
        (call : Call) (calls calls' : List Call) (r : Outcome E (Unit {0}) × W) (u : Unit {0})
        (w : W)
        → note_success call calls r ≡ (returned u, (calls', w))
        → Contains call calls'
    noted-Contains call calls calls' (returned u, v) u' w e =
        subst (Contains call) (ap (λ q. q.1.0) e) (here calls)
    noted-Contains call calls calls' (threw x, v) u w e = cc

    pub bind-Keeps :
        (calls : List Call) (r : Outcome E (Unit {0}) × (List Call × W))
        (k : Unit {0} → Eff (List Call × W) E (Unit {0}))
        → Keeps calls r.1.0
        → ((u : Unit {0}) (calls' : List Call) (w : W)
            → r ≡ (returned u, (calls', w))
            → Keeps calls' (k u (calls', w)).1.0)
        → Keeps calls (bind_outcome r k).1.0
    bind-Keeps calls (returned u, (calls', w)) k first then_k =
        Keeps-trans calls calls' _ first (then_k u calls' w refl)
    bind-Keeps calls (threw e, (calls', w)) k first then_k = first
