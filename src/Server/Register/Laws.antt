-- ===== src/Server/Register/Laws.antt =====
-- What a registration leaves of the server.
use mathlib.Core.Path.{subst}
use kuja.Prelude.{◌≡◌, ◌≢◌, refl, arith, Bool, false, if◌then◌else◌}
use kuja.Prelude.{Option, none, some, List, [], ◌∷◌, ◌++◌, Str, codes}
use kuja.Prelude.Dict.{Dict, lookup, lookup-insert_self, lookup-insert_ne}
use kuja.Server.Register.{
  MethodType, Receiver, install, Registered, Registrar, accepts, registered, with_methods,
  is_present, register_name, register,
}

-- The name under which a receiver is registered.
abbrev pub service_name : Receiver → Str → Bool → Str
service_name rcvr name use_name = if use_name then name else rcvr.type_name

module _ (is_upper : Str → Bool) {H : Type 0} where
  -- What an accepted registration did: the name was free and the service has the middleware in
  -- front of its own handlers, and a table of methods that is not empty; the other services and the
  -- middleware are as before.
  pub record Installed (rcvr : Receiver) (name : Str) (h : List H) (old new : Registrar H)
      : Type 0 where
    pub service : Registered H
    pub free : lookup name old.service_map ≡ none
    pub found : lookup name new.service_map ≡ some service
    pub handlers : service.handlers ≡ old.middleware ++ h
    pub methods : service.method ≡ install is_upper rcvr.methods []
    pub offers : service.method ≢ []
    pub others : (k : Str) → name ≢ k → lookup k new.service_map ≡ lookup k old.service_map
    pub middleware : new.middleware ≡ old.middleware

  with_methods-Installed :
      (uuid : Str) (rcvr : Receiver) (name : Str) (h : List H) (old new : Registrar H)
      (d : Dict MethodType)
      → lookup name old.service_map ≡ none
      → d ≡ install is_upper rcvr.methods []
      → with_methods is_upper uuid name h old d ≡ accepts new
      → Installed rcvr name h old new
  with_methods-Installed uuid rcvr name h old new [] free same e = absurd cc
  with_methods-Installed uuid rcvr name h old new (m ∷ d) free same e =
      let is_new : registered is_upper uuid name (m ∷ d) h old ≡ new = cc in
      subst (Installed rcvr name h old) is_new (record {
        service = record {
          id = name ++ codes "-" ++ uuid;
          name = name;
          method = m ∷ d;
          handlers = old.middleware ++ h;
        };
        free = free;
        found = lookup-insert_self name _ old.service_map;
        handlers = refl;
        methods = same;
        offers = λ p. cc;
        others = λ k ne. lookup-insert_ne name k _ old.service_map ne;
        middleware = refl;
      })

  is_present-none : (o : Option (Registered H)) → is_present is_upper o ≡ false → o ≡ none
  is_present-none none e = refl
  is_present-none (some s) e = absurd cc

  accepted_free :
      (uuid : Str) (rcvr : Receiver) (name : Str) (use_name : Bool) (h : List H)
      (old new : Registrar H)
      → register_name is_upper uuid rcvr name use_name h old ≡ accepts new
      → (is_present is_upper (lookup name old.service_map) ≡ false)
        × (with_methods is_upper uuid name h old (install is_upper rcvr.methods []) ≡ accepts new)
  unfolding register_name
  accepted_free uuid rcvr name use_name h old new e = ground (arith, e)

  -- An accepted registration installs the service under a name that was free, with the middleware in
  -- front of its handlers, and leaves the other services and the middleware as they were.
  pub register-Installed :
      (uuid : Str) (rcvr : Receiver) (name : Str) (use_name : Bool) (h : List H)
      (old new : Registrar H)
      → register is_upper uuid rcvr name use_name h old ≡ accepts new
      → Installed rcvr (service_name rcvr name use_name) h old new
  unfolding register
  register-Installed uuid rcvr name use_name h old new e =
      let sname = service_name rcvr name use_name in
      let (free, accepted) = accepted_free uuid rcvr sname use_name h old new e in
      with_methods-Installed uuid rcvr sname h old new (install is_upper rcvr.methods [])
        (is_present-none (lookup sname old.service_map) free) refl accepted
