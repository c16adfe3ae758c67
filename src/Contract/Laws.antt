-- ===== src/Contract/Laws.antt =====
-- The stub client against the contract it answers from.
use kuja.Prelude.{
  ◌≡◌, ◌≢◌, refl, ap, ◌∙◌, arith, false, Option, none, some, List, [], ◌∷◌, ◌++◌, All, Str, codes,
  str_eq, str_eq_iff, str_eq_self,
}
use kuja.Server.Rpc.{GoError, Returned}
use kuja.Client.Request.{Answered, returns}
use kuja.Contract.{
  RequestSpec, Interaction, Contract, answer_request, request_in, request_contracts,
}

abbrev pub OnlyPublish : {Value : Type 0} → Interaction Value → Type 0
OnlyPublish i = i.request ≡ none

module _ {Value : Type 0} (type_name : Value → Str) (marshal : Value → Returned Str)
    (unmarshal : Str → Returned Value) (text : Str → GoError) where
  pub request_contracts-first :
      (c : Contract Value) (cs : List (Contract Value)) (method : Str) (reqv respv : Option Value)
      (a : Answered Value)
      → request_in type_name marshal unmarshal text method reqv respv c.interactions ≡ some a
      → request_contracts type_name marshal unmarshal text c.provider method reqv respv (c ∷ cs) ≡ a
  unfolding request_contracts
  request_contracts-first c cs method reqv respv a e =
      rw (str_eq_self c.provider, request_contracts) (rw e refl)

  pub request_in-skip :
      (is js : List (Interaction Value)) (method : Str) (reqv respv : Option Value)
      → All OnlyPublish is
      → request_in type_name marshal unmarshal text method reqv respv (is ++ js)
        ≡ request_in type_name marshal unmarshal text method reqv respv js
  unfolding request_in
  request_in-skip [] js method reqv respv all = refl
  request_in-skip (i ∷ is) js method reqv respv (e, all) =
      rw (e, request_in) (request_in-skip is js method reqv respv all)

  pub request_in-found :
      (i : Interaction Value) (q : RequestSpec Value) (is : List (Interaction Value)) (method : Str)
      (reqv respv : Option Value)
      → i.request ≡ some q
      → request_in type_name marshal unmarshal text method reqv respv (i ∷ is)
        ≡ some (answer_request type_name marshal unmarshal text method reqv respv q i.response)
  unfolding request_in
  request_in-found i q is method reqv respv e = rw (e, request_in) refl

  -- Only the first request of a contract can be made: each other method is refused, whatever
  -- interactions of the contract follow.
  pub request_contracts-other_method :
      (provider : Str) (before after : List (Interaction Value)) (i : Interaction Value)
      (q : RequestSpec Value) (cs : List (Contract Value)) (method : Str)
      (reqv respv : Option Value)
      → All OnlyPublish before
      → i.request ≡ some q
      → q.method ≢ method
      → request_contracts type_name marshal unmarshal text provider method reqv respv
          (record { provider = provider; interactions = before ++ (i ∷ after) } ∷ cs)
        ≡ returns 500 (some (text (codes "no method in contact"))) none
  unfolding answer_request
  request_contracts-other_method provider before after i q cs method reqv respv none_before
        is_request other =
      let differs : str_eq q.method method ≡ false =
        ground (arith, str_eq_iff q.method method, other) in
      request_contracts-first (record { provider = provider; interactions = before ++ (i ∷ after) })
        cs method reqv respv _
        (request_in-skip before (i ∷ after) method reqv respv none_before
          ∙ request_in-found i q after method reqv respv is_request
          ∙ ap some (rw (differs, answer_request) refl))
