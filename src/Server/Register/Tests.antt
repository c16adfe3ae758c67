-- ===== src/Server/Register/Tests.antt =====
-- A registration of a receiver with one suitable method.
use kuja.Prelude.{◌≡◌, ◌↔◌, refl, Bool, false, ◌&&◌, none, some, [], ◌∷◌, Str, codes, leb}
use kuja.Prelude.Dict.{lookup, insert}
use kuja.Server.Register.{
  pointer, named, ReflectMethod, MethodType, Receiver, args_of, reply_of, is_error, is_pointer,
  is_exported_or_builtin, prepare_method, install, Registrar, accepts, registered, register,
}
use kuja.Server.Register.Methods.{Suitable, prepare_method-Suitable}
use kuja.Server.Register.Laws.{Installed, register-Installed}
use kuja.Prelude.{str_eq}

-- Upper case letters of ASCII only.
abbrev pub ascii_upper : Str → Bool
ascii_upper [] = false
ascii_upper (c ∷ s) = leb b'A' c && leb c b'Z'

abbrev pub add : ReflectMethod
add = record {
  name = codes "Add";
  pkg_path = [];
  ins =
      pointer (named (codes "AddService") (codes "main"))
      ∷ pointer (named (codes "AddReq") (codes "main"))
      ∷ [];
  outs = pointer (named (codes "AddResp") (codes "main")) ∷ named (codes "error") [] ∷ [];
}

-- A method without an error is not offered.
abbrev pub helper : ReflectMethod
helper = record add { name = codes "Helper"; outs = [] }

abbrev pub add_type : MethodType
add_type = record {
  method = add;
  arg_type = pointer (named (codes "AddReq") (codes "main"));
  reply_type = some (pointer (named (codes "AddResp") (codes "main")));
  context_type = none;
}

abbrev pub add_service : Receiver
add_service = record { type_name = codes "AddService"; methods = helper ∷ add ∷ [] }

abbrev pub no_services : Registrar Str
no_services = record { middleware = codes "log" ∷ []; service_map = [] }

abbrev pub add_registered : Registrar Str
add_registered =
    registered ascii_upper (codes "u") (codes "AddService") ((codes "Add", add_type) ∷ [])
      (codes "auth" ∷ []) no_services

helper-skipped : prepare_method ascii_upper helper ≡ none
unfolding prepare_method str_eq args_of reply_of
helper-skipped = refl

offers_add : lookup (codes "Add") (install ascii_upper (helper ∷ add ∷ []) []) ≡ some add_type
unfolding install prepare_method lookup insert str_eq args_of reply_of is_error is_pointer
    is_exported_or_builtin
offers_add = refl

pub register-accepts :
    register ascii_upper (codes "u") add_service [] false (codes "auth" ∷ []) no_services
    ≡ accepts add_registered
unfolding register install prepare_method lookup insert str_eq args_of reply_of is_error is_pointer
    is_exported_or_builtin
register-accepts = refl

prepare_method-Suitable_example :
    (prepare_method ascii_upper add ≡ some add_type) ↔ Suitable ascii_upper add add_type
prepare_method-Suitable_example = prepare_method-Suitable ascii_upper add add_type

register-Installed_example :
    Installed ascii_upper add_service
      (codes "AddService")
      (codes "auth" ∷ [])
      no_services
      add_registered
register-Installed_example =
    register-Installed ascii_upper (codes "u") add_service [] false (codes "auth" ∷ []) no_services
      add_registered register-accepts
