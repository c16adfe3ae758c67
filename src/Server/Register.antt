-- ===== src/Server/Register.antt =====
-- service.go: `register` and `prepareMethod`, over what the reflect package tells of a type.
pub mod Methods
pub mod Laws
pub mod Tests
use kuja.Prelude.{
  Bool, true, false, not, ◌&&◌, ◌||◌, if◌then◌else◌, Option, none, some, List, [], ◌∷◌, ◌++◌, Str,
  codes, str_eq,
}
use kuja.Prelude.Dict.{Dict, lookup, insert}

-- A reflect.Type: a pointer to a type, or another one by its `Name` and `PkgPath`. Both are empty
-- for a type without a name.
pub data GoType : Type 0 where
  pointer : GoType → GoType
  named : Str → Str → GoType

-- A reflect.Method; `ins` begin with the receiver.
pub record ReflectMethod : Type 0 where
  pub name : Str
  pub pkg_path : Str
  pub ins : List GoType
  pub outs : List GoType

pub record MethodType : Type 0 where
  pub method : ReflectMethod
  pub arg_type : GoType
  pub reply_type : Option GoType
  pub context_type : Option GoType

-- A receiver, by the name of the type it has or points to and the methods of its type.
pub record Receiver : Type 0 where
  pub type_name : Str
  pub methods : List ReflectMethod

-- The predeclared type `error`, the value of `typeOfError`.
unfoldable pub is_error : GoType → Bool
is_error (pointer t) = false
is_error (named name pkg) = str_eq name (codes "error") && str_eq pkg []

unfoldable pub is_pointer : GoType → Bool
is_pointer (pointer t) = true
is_pointer (named name pkg) = false

-- The argument types: the context's, if any, and the argument's.
unfoldable pub args_of : List GoType → Option (Option GoType × GoType)
args_of [] = none
args_of (r ∷ []) = none
args_of (r ∷ a ∷ []) = some (none, a)
args_of (r ∷ c ∷ a ∷ []) = some (some c, a)
args_of (r ∷ c ∷ a ∷ b ∷ rest) = none

-- `is_upper` decodes the first rune of a name and tells whether it is an upper case letter.
module _ (is_upper : Str → Bool) where
  unfoldable pub is_exported_or_builtin : GoType → Bool
  is_exported_or_builtin (pointer t) = is_exported_or_builtin t
  is_exported_or_builtin (named name pkg) = is_upper name || str_eq pkg []

  -- The reply type, if any; the last result must be an error.
  unfoldable pub reply_of : List GoType → Option (Option GoType)
  reply_of [] = none
  reply_of (e ∷ []) = if is_error e then some none else none
  reply_of (t ∷ e ∷ []) =
      if not (is_error e)
      then none
      else if not (is_pointer t)
      then none
      else if not (is_exported_or_builtin t)
      then none
      else some (some t)
  reply_of (t ∷ e ∷ u ∷ rest) = none

  abbrev pub with_argument :
      ReflectMethod → Option GoType → GoType → Option (Option GoType) → Option MethodType
  with_argument m c a none = none
  with_argument m c a (some r) =
      if is_exported_or_builtin a
      then some (record { method = m; arg_type = a; reply_type = r; context_type = c })
      else none

  abbrev pub with_types : ReflectMethod → Option (Option GoType × GoType) → Option MethodType
  with_types m none = none
  with_types m (some (c, a)) = with_argument m c a (reply_of m.outs)

  unfoldable pub prepare_method : ReflectMethod → Option MethodType
  prepare_method m = if not (str_eq m.pkg_path []) then none else with_types m (args_of m.ins)

  unfoldable pub install : List ReflectMethod → Dict MethodType → Dict MethodType
  install [] d = d
  install (m ∷ ms) d = elim (prepare_method m) [
    | none ↦ install ms d
    | some mt ↦ install ms (insert m.name mt d)
  ]

-- A service, with handlers of any type.
pub record Registered (H : Type 0) : Type 0 where
  pub id : Str
  pub name : Str
  pub method : Dict MethodType
  pub handlers : List H

pub record Registrar (H : Type 0) : Type 0 where
  pub middleware : List H
  pub service_map : Dict (Registered H)

-- `exits` is `log.Fatal`.
pub data Registration (H : Type 0) : Type 0 where
  exits : Str → Registration H
  refuses : Str → Registration H
  accepts : Registrar H → Registration H

abbrev pub no_methods : Str → Str
no_methods name =
    codes "rpc Register: type " ++ name ++ codes " has no exported methods of suitable type"

module _ (is_upper : Str → Bool) {H : Type 0} where
  -- `Server.Use`
  unfoldable pub use_handlers : List H → Registrar H → Registrar H
  use_handlers h server = record server { middleware = server.middleware ++ h }

  abbrev pub registered : Str → Str → Dict MethodType → List H → Registrar H → Registrar H
  registered uuid name methods h server = record server {
    service_map =
        insert name
          (record {
            id = name ++ codes "-" ++ uuid;
            name = name;
            method = methods;
            handlers = server.middleware ++ h;
          })
          server.service_map;
  }

  abbrev pub with_methods : Str → Str → List H → Registrar H → Dict MethodType → Registration H
  with_methods uuid name h server [] = refuses (no_methods name)
  with_methods uuid name h server (e ∷ methods) =
      accepts (registered uuid name (e ∷ methods) h server)

  abbrev pub is_present : Option (Registered H) → Bool
  is_present none = false
  is_present (some s) = true

  -- `uuid` is the identifier that uuid.NewV1 makes.
  unfoldable pub register_name : Str → Receiver → Str → Bool → List H → Registrar H → Registration H
  register_name uuid rcvr name use_name h server =
      if str_eq name []
      then exits (codes "rpc: no service name for type")
      else if not (is_upper name) && not use_name
      then refuses (codes "rpc Register: type " ++ name ++ codes " is not exported")
      else if is_present (lookup name server.service_map)
      then refuses (codes "rpc: service already defined: " ++ name)
      else with_methods uuid name h server (install is_upper rcvr.methods [])

  unfoldable pub register : Str → Receiver → Str → Bool → List H → Registrar H → Registration H
  unfolding register_name
  register uuid rcvr name use_name h server =
      register_name uuid rcvr (if use_name then name else rcvr.type_name) use_name h server
