-- ===== src/Client/Address.antt =====
-- client/direct.go and client/discovery.go: `GetAddress`, and the path that the server sees.
use mathlib.Core.List.{Mem, mem-cons_self, mem-cons_of_mem, append_assoc}
use native.Mathlib.Nat.{mod-lt}
use kuja.Prelude.{
  ℕ, zero, suc, Bool-cases, inl, inr, false, take, has_suffix, has_prefix, append_cancel, ◌%◌, ◌-◌,
  ◌<◌, ◌≡◌, ◌≢◌, refl, ap, ◌∙◌, arith, Option, none, some, List, [], ◌∷◌, ◌++◌, Str, codes, length,
  get_elem?, str_eq,
}
use kuja.Client.{trim_url}
use kuja.Registry.{Node, NodeList, Asked, refused, gives}
use kuja.Server.Route.{
  find_slash, split_at, trim_front, trim_back, split_service, get_service_method,
}
use kuja.Server.Rpc.{Call, Externals, Request, Context}
use kuja.Server.Rpc.Fresh.{serve_http-post}
use kuja.Server.Rpc.Http.{Server, answered, not_found_calls, serve_post, serve_http}

-- `Direct.GetAddress`
unfoldable pub get_address_direct : Str → Str → Str → Str
get_address_direct url service method = url ++ (b'/' ∷ (service ++ (b'/' ∷ method)))

-- A run of `GetAddress`: an address, an error, or a panic: a nil service, or a division by zero.
pub data Addressed : Type 0 where
  address : Str → Addressed
  failed : Str → Addressed
  panics : Addressed

abbrev pub address_of : Str → Str → Option Node → Addressed
address_of service method none = panics
address_of service method (some node) = address (node.url ++ (b'/' ∷ (service ++ (b'/' ∷ method))))

-- `s.Nodes[random % len(s.Nodes)]`
abbrev pub pick_node : ℕ → List Node → Option Node
pick_node random [] = none
pick_node random (n ∷ ns) = get_elem? (n ∷ ns) (random % length (n ∷ ns))

-- `Discovery.GetAddress`, with the answer of the registry and the number that `rand.Int` draws.
unfoldable pub get_address_discovery : Asked NodeList → ℕ → Str → Str → Addressed
get_address_discovery (refused e) random service method = failed e
get_address_discovery (gives none) random service method = panics
get_address_discovery (gives (some s)) random service method =
    address_of service method (pick_node random s.nodes)

get_elem?-Mem {ℓ} :
    {A : Type ℓ} (xs : List A) (i : ℕ)
    → i < length xs
    → (a : A) × Mem a xs × (get_elem? xs i ≡ some a)
get_elem?-Mem [] i h = elim h [ ]
get_elem?-Mem (x ∷ xs) zero h = (x, mem-cons_self, refl)
get_elem?-Mem (x ∷ xs) (suc i) h =
    let (a, at, e) = get_elem?-Mem xs i (omega arith) in (a, mem-cons_of_mem x at, e)

-- Where the registry knows nodes of the service, `Discovery` gives the address of one of them,
-- whatever number is drawn.
pub get_address_discovery-Mem :
    (s : NodeList) (random : ℕ) (service method : Str)
    → s.nodes ≢ []
    → (node : Node) × Mem node s.nodes
      × (get_address_discovery (gives (some s)) random service method
          ≡ address (get_address_direct node.url service method))
unfolding get_address_discovery get_address_direct
get_address_discovery-Mem s random service method h = picked s.nodes h
  where
    picked :
        (ns : List Node)
        → ns ≢ []
        → (node : Node) × Mem node ns
          × (address_of service method (pick_node random ns)
              ≡ address (node.url ++ (b'/' ∷ (service ++ (b'/' ∷ method)))))
    picked [] ne = absurd (ne refl)
    picked (n ∷ ns) ne =
        let (node, known, e) =
          get_elem?-Mem (n ∷ ns) (random % length (n ∷ ns)) (mod-lt random (omega arith)) in
        (node, known, ap (address_of service method) e)

-- A service that the registry knows with no node is a division by zero.
get_address_discovery-panics :
    (name : Str) (random : ℕ) (service method : Str)
    → get_address_discovery
        (gives (some (record { name = name; nodes = [] })))
        random
        service
        method
      ≡ panics
unfolding get_address_discovery
get_address_discovery-panics name random service method = refl

trim_back-slash : (c : ℕ) (rest : Str) → (t : Str) × (trim_back (b'/' ∷ c ∷ rest) ≡ b'/' ∷ t)
unfolding trim_back
trim_back-slash c rest = elim (Bool-cases (has_suffix (b'/' ∷ c ∷ rest) (b'/' ∷ []))) [
  | inl cut ↦
      let n : length (b'/' ∷ c ∷ rest) - 1 ≡ suc (length rest) = omega arith in
      (take (length rest) (c ∷ rest), rw (cut, n) refl)
  | inr whole ↦ (c ∷ rest, rw whole refl)
]

split_service-slash : (t : Str) → split_service (b'/' ∷ t) ≡ ([], t)
unfolding split_service find_slash split_at
split_service-slash t = refl

get_service_method-double_slash :
    (c : ℕ) (rest : Str) → (get_service_method (b'/' ∷ b'/' ∷ c ∷ rest)).0 ≡ []
unfolding get_service_method trim_front has_prefix
get_service_method-double_slash c rest =
    let (t, e) = trim_back-slash c rest in
    ap (λ s. (split_service s).0) e ∙ ap (λ p. p.0) (split_service-slash t)

-- What `ServeHTTP` answers where no service is named.
abbrev pub nothing_named : List Call
nothing_named = not_found_calls (codes "rpc: can't find service or method")

serve_post-nothing_named :
    (x : Externals) (server : Server x.Value) (got : Context x.Value) (req : Request)
    (names : Str × Str)
    → names.0 ≡ []
    → serve_post x server got req names ≡ answered nothing_named none
unfolding serve_post str_eq
serve_post-nothing_named x server got req (sn, mn) e = rw (e, serve_post) refl

trim_url-other :
    (host rest : Str)
    → host ≢ []
    → has_prefix host (codes "/") ≡ false
    → trim_url (host ++ rest) ≡ host ++ rest
unfolding trim_url has_prefix
trim_url-other [] rest ne h = absurd (ne refl)
trim_url-other (c ∷ host) rest ne h = rw (h) refl

-- A client whose URL ends in a slash, which `New` does not drop, asks for a path that begins with
-- two slashes, and the server answers each such request that no service is named.
pub trailing_slash-nothing_named :
    (x : Externals) (server : Server x.Value) (got : Context x.Value) (req : Request)
    (host service method : Str)
    → host ≢ []
    → has_prefix host (codes "/") ≡ false
    → req.method ≡ codes "POST"
    → service ≢ []
    → host ++ req.path ≡ get_address_direct (trim_url (host ++ (b'/' ∷ []))) service method
    → serve_http x server got req ≡ answered nothing_named none
unfolding get_address_direct
trailing_slash-nothing_named x server got req host [] method some_host plain post ne e =
    absurd (ne refl)
trailing_slash-nothing_named x server got req host (c ∷ service) method some_host plain post ne e =
    let kept = trim_url-other host (b'/' ∷ []) some_host plain in
    let path : req.path ≡ b'/' ∷ b'/' ∷ c ∷ (service ++ (b'/' ∷ method)) = append_cancel host _ _ (
      e
      ∙ ap (λ u. get_address_direct u (c ∷ service) method) kept
      ∙ append_assoc host (b'/' ∷ []) _) in
    serve_http-post x server got req post
    ∙ serve_post-nothing_named x server got req (get_service_method req.path) (
        ap (λ p. (get_service_method p).0) path
        ∙ get_service_method-double_slash c (service ++ (b'/' ∷ method)))
