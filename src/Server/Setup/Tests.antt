-- ===== src/Server/Setup/Tests.antt =====
-- A middleware, a service, and a middleware that comes too late for it.
use kuja.Prelude.{refl, ap, List, [], ◌∷◌, Str, codes}
use kuja.Prelude.Dict.{lookup}
use kuja.Server.Register.{Registrar, Registered, use_handlers}
use kuja.Server.Register.Tests.{
  ascii_upper, add_service, add_type, add_registered, register-accepts,
}
use kuja.Server.Setup.{
  SetUpCall, calls_use, calls_service, SetUp, fresh, used, served, service, exit_on_error,
}
use kuja.Server.Setup.Laws.{Begins, SetUp-Begins}
use kuja.Prelude.Dict.{insert}
use kuja.Prelude.{str_eq}

abbrev late : Registrar Str
late = record {
  middleware = codes "log" ∷ codes "late" ∷ [];
  service_map = add_registered.service_map;
}

abbrev add_installed : Registered Str
add_installed = record {
  id = codes "AddService-u";
  name = codes "AddService";
  method = (codes "Add", add_type) ∷ [];
  handlers = codes "log" ∷ codes "auth" ∷ [];
}

abbrev late_calls : List (SetUpCall Str)
late_calls =
    calls_use (codes "log" ∷ [])
    ∷ calls_service (codes "u") add_service (codes "auth" ∷ [])
    ∷ calls_use (codes "late" ∷ [])
    ∷ []

late-SetUp : SetUp ascii_upper late_calls late
unfolding use_handlers service
late-SetUp = used (codes "late" ∷ []) (
    served (codes "u") add_service (codes "auth" ∷ []) (used (codes "log" ∷ []) fresh)
      (ap (exit_on_error ascii_upper) register-accepts))

SetUp-Begins_example : Begins ascii_upper late_calls (codes "AddService") add_installed
unfolding lookup insert str_eq
SetUp-Begins_example = SetUp-Begins ascii_upper (codes "AddService") add_installed late-SetUp refl
