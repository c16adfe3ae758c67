-- ===== src/Server/Setup/Laws.antt =====
-- Which middleware a service gets, and what is left of a sequence of setters.
use kuja.Prelude.{
  ◌≡◌, ◌≢◌, refl, sym, ap, ◌∙◌, Bool, true, false, Bool-cases, inl, inr, some, List, [], ◌∷◌, ◌++◌,
  Str, str_eq, str_eq_iff,
}
use kuja.Prelude.Dict.{lookup}
use kuja.Server.Register.{
  Receiver, Registrar, Registered, Registration, exits, refuses, accepts, register, use_handlers,
}
use kuja.Server.Register.Laws.{Installed, service_name, register-Installed}
use kuja.Server.Setup.{
  Settings, Setter, sets_stage, uses, sets_snappy, sets_registry, sets_encoder, sets_broker,
  sets_service_error, sets_subscriber_error, set, set_all, exit_on_error, service, SetUpCall,
  calls_use, calls_service, SetUp, fresh, used, served,
}
use mathlib.Core.List.{append_assoc, append-nil}

module _ (is_upper : Str → Bool) {H : Type 0} where
  -- What calls of `Use` have used, in order.
  abbrev pub used_by : List (SetUpCall H) → List H
  used_by [] = []
  used_by (calls_use h ∷ calls) = h ++ used_by calls
  used_by (calls_service uuid rcvr h ∷ calls) = used_by calls

  used_by-append :
      (calls more : List (SetUpCall H)) → used_by (calls ++ more) ≡ used_by calls ++ used_by more
  used_by-append [] more = refl
  used_by-append (calls_use h ∷ calls) more =
      ap (λ m. h ++ m) (used_by-append calls more)
      ∙ sym (append_assoc h (used_by calls) (used_by more))
  used_by-append (calls_service uuid rcvr h ∷ calls) more = used_by-append calls more

  -- One of the calls has registered the service under the name: its handlers are what was used before
  -- this call, and the handlers that the call gives.
  pub record Begins (calls : List (SetUpCall H)) (k : Str) (s : Registered H) : Type 0 where
    pub before : List (SetUpCall H)
    pub uuid : Str
    pub rcvr : Receiver
    pub own : List H
    pub after : List (SetUpCall H)
    pub split : calls ≡ before ++ (calls_service uuid rcvr own ∷ after)
    pub named : service_name rcvr [] false ≡ k
    pub handlers : s.handlers ≡ used_by before ++ own

  later_calls :
      (calls more : List (SetUpCall H)) (k : Str) (s : Registered H)
      → Begins calls k s
      → Begins (calls ++ more) k s
  later_calls calls more k s b = record {
    before = b.before;
    uuid = b.uuid;
    rcvr = b.rcvr;
    own = b.own;
    after = b.after ++ more;
    split =
        ap (λ l. l ++ more) b.split
        ∙ append_assoc b.before (calls_service b.uuid b.rcvr b.own ∷ b.after) more;
    named = b.named;
    handlers = b.handlers;
  }

  exit_on_error-accepts :
      (r : Registration H) (next : Registrar H)
      → exit_on_error is_upper r ≡ accepts next
      → r ≡ accepts next
  exit_on_error-accepts (exits e) next h = absurd cc
  exit_on_error-accepts (refuses e) next h = absurd cc
  exit_on_error-accepts (accepts server) next h = h

  SetUp-middleware :
      {calls : List (SetUpCall H)} {server : Registrar H}
      → SetUp is_upper calls server
      → server.middleware ≡ used_by calls
  unfolding use_handlers service
  SetUp-middleware fresh = refl
  SetUp-middleware (used {calls} {server} h up) =
      ap (λ m. m ++ h) (SetUp-middleware up)
      ∙ ap (λ m. used_by calls ++ m) (sym (append-nil h))
      ∙ sym (used_by-append calls (calls_use h ∷ []))
  SetUp-middleware (served {calls} {server} {next} uuid rcvr h up e) =
      let i =
        register-Installed is_upper uuid rcvr [] false h server next
          (exit_on_error-accepts (register is_upper uuid rcvr [] false h server) next e) in
      i.middleware
      ∙ SetUp-middleware up
      ∙ sym (append-nil (used_by calls))
      ∙ sym (used_by-append calls (calls_service uuid rcvr h ∷ []))

  -- The service that was installed, or one that was there before.
  Begins-Installed :
      (calls : List (SetUpCall H)) (uuid : Str) (rcvr : Receiver) (h : List H)
      (old new : Registrar H) (k : Str) (s : Registered H)
      → Installed is_upper rcvr (service_name rcvr [] false) h old new
      → old.middleware ≡ used_by calls
      → ((t : Registered H) → lookup k old.service_map ≡ some t → Begins calls k t)
      → lookup k new.service_map ≡ some s
      → Begins (calls ++ (calls_service uuid rcvr h ∷ [])) k s
  Begins-Installed calls uuid rcvr h old new k s i before ih known =
      let name = service_name rcvr [] false in
      elim (Bool-cases (str_eq name k)) [
        | inl same ↦
            let e : name ≡ k = (str_eq_iff name k).0 same in
            let found : some i.service ≡ some s =
              sym i.found ∙ ap (λ j. lookup j new.service_map) e ∙ known in
            let is : i.service ≡ s = cc in
            record {
              before = calls;
              uuid = uuid;
              rcvr = rcvr;
              own = h;
              after = [];
              split = refl;
              named = e;
              handlers = ap (λ t. t.handlers) (sym is) ∙ i.handlers ∙ ap (λ m. m ++ h) before;
            }
        | inr other ↦
            let ne : name ≢ k =
              λ e. (let same : str_eq name k ≡ true = (str_eq_iff name k).1 e in cc) in
            later_calls calls (calls_service uuid rcvr h ∷ []) k s
              (ih s (sym (i.others k ne) ∙ known))
      ]

  -- Whatever calls of Use and Service set a server up, each service that it has under a name was
  -- registered by one of the calls, of a receiver with this name, and its handlers are what the calls
  -- of Use before that call have used, in order, and then the handlers that the call gives.
  pub SetUp-Begins :
      {calls : List (SetUpCall H)} {server : Registrar H} (k : Str) (s : Registered H)
      → SetUp is_upper calls server
      → lookup k server.service_map ≡ some s
      → Begins calls k s
  unfolding use_handlers service lookup
  SetUp-Begins k s fresh known = absurd cc
  SetUp-Begins k s (used {calls} {server} h up) known =
      later_calls calls (calls_use h ∷ []) k s (SetUp-Begins k s up known)
  SetUp-Begins k s (served {calls} {server} {next} uuid rcvr h up e) known =
      Begins-Installed calls uuid rcvr h server next k s
        (register-Installed is_upper uuid rcvr [] false h server next
          (exit_on_error-accepts (register is_upper uuid rcvr [] false h server) next e))
        (SetUp-middleware up) (λ t found. SetUp-Begins k t up found) known

-- The middleware of a sequence of setters.
abbrev used_handlers : {H B E R F G : Type 0} → List (Setter H B E R F G) → List H
used_handlers [] = []
used_handlers (uses h ∷ xs) = h ++ used_handlers xs
used_handlers (sets_stage a ∷ xs) = used_handlers xs
used_handlers (sets_snappy a ∷ xs) = used_handlers xs
used_handlers (sets_registry a ∷ xs) = used_handlers xs
used_handlers (sets_encoder a ∷ xs) = used_handlers xs
used_handlers (sets_broker a ∷ xs) = used_handlers xs
used_handlers (sets_service_error a ∷ xs) = used_handlers xs
used_handlers (sets_subscriber_error a ∷ xs) = used_handlers xs

-- The middleware is what is used, in order, whatever other setters are called between.
set_all-used_handlers :
    {H B E R F G : Type 0} (xs : List (Setter H B E R F G)) (s : Settings H B E R F G)
    → (set_all xs s).middleware ≡ s.middleware ++ used_handlers xs
unfolding set_all
set_all-used_handlers [] s = sym (append-nil s.middleware)
set_all-used_handlers (uses h ∷ xs) s =
    set_all-used_handlers xs (set (uses h) s) ∙ append_assoc s.middleware h (used_handlers xs)
set_all-used_handlers (sets_stage a ∷ xs) s = set_all-used_handlers xs (set (sets_stage a) s)
set_all-used_handlers (sets_snappy a ∷ xs) s = set_all-used_handlers xs (set (sets_snappy a) s)
set_all-used_handlers (sets_registry a ∷ xs) s = set_all-used_handlers xs (set (sets_registry a) s)
set_all-used_handlers (sets_encoder a ∷ xs) s = set_all-used_handlers xs (set (sets_encoder a) s)
set_all-used_handlers (sets_broker a ∷ xs) s = set_all-used_handlers xs (set (sets_broker a) s)
set_all-used_handlers (sets_service_error a ∷ xs) s =
    set_all-used_handlers xs (set (sets_service_error a) s)
set_all-used_handlers (sets_subscriber_error a ∷ xs) s =
    set_all-used_handlers xs (set (sets_subscriber_error a) s)
