-- ===== src/Contract/Tests.antt =====
-- A contract with one message and one request. A value is its type's name and its text.
use kuja.Prelude.{
  Option, ℕ, true, ◌≡◌, ◌≢◌, refl, none, some, [], ◌∷◌, Str, codes, length, ap, arith,
}
use kuja.Server.Rpc.{GoError, Returned, value}
use kuja.Client.Request.{returns}
use kuja.Contract.{Contract, passes, contract_test, stub_client}
use kuja.Contract.Agrees.{contract_test-agrees}
use kuja.Contract.{TestedClient, accepts}
use kuja.Contract.Passes.{request_of, contract_of, contract_test-passes}

abbrev Named : Type 0
Named = Str × Str

abbrev name_of : Named → Str
name_of v = v.0

abbrev written : Named → Returned Str
written v = value v.1

abbrev read : Str → Returned Named
read s = value (codes "AddResp", s)

abbrev error_of : Str → GoError
error_of s = record { text = s; status = none }

abbrev add_req : Named
add_req = (codes "AddReq", codes "1 2")

abbrev add_resp : Named
add_resp = (codes "AddResp", codes "3")

abbrev added : Str × Named
added = (codes "added", (codes "Added", codes "3"))

abbrev typed : Str → Str
typed topic = codes "Added"

abbrev add_contract : Contract Named
add_contract =
    contract_of (codes "AddService") (added ∷ [])
      (request_of (codes "Add") add_req add_resp 200 (some add_resp))

contract_test-passes_example :
    contract_test (stub_client name_of written read error_of (add_contract ∷ [])) add_contract
    ≡ passes true
contract_test-passes_example =
    contract_test-passes name_of written read error_of typed (codes "AddService") (codes "Add")
      (added ∷ []) add_req add_resp 200 (some add_resp) [] (refl, tt)
      (codes "3", add_resp, refl, refl)

add-ne-sub : codes "Add" ≢ codes "Subtract"
add-ne-sub e = omega (arith, ap {B = ℕ} length e)

-- A client whose provider answers with the status of the contract.
abbrev real_client : TestedClient Named
real_client = record {
  publish = λ topic v. accepts;
  request = λ service method reqv respv. returns 200 none (some add_req);
}

real_client-passes : contract_test real_client add_contract ≡ passes true
unfolding contract_test
real_client-passes = refl

contract_test-agrees_example :
    (a b : Option Named) × (real_client.request
        (codes "AddService")
        (codes "Add")
        (some add_req)
        (some add_resp)
      ≡ returns 200 none a)
    × ((stub_client name_of written read error_of (add_contract ∷ [])).request
          (codes "AddService")
          (codes "Add")
          (some add_req)
          (some add_resp)
        ≡ returns 200 none b)
contract_test-agrees_example =
    contract_test-agrees name_of written read error_of typed real_client (codes "AddService")
      (codes "Add") (added ∷ []) add_req add_resp 200 (some add_resp) []
      (codes "3", add_resp, refl, refl) real_client-passes
