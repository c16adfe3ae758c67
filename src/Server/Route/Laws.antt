-- ===== src/Server/Route/Laws.antt =====
-- Which service and method a path names.
use kuja.Prelude.{ℕ, ◌+◌, ◌-◌, ◌==◌, ◌≡◌, ◌≢◌, refl, arith, none, some}
use kuja.Prelude.{Str, [], ◌∷◌, ◌++◌, length, has_prefix, has_suffix, length-append}
use kuja.Prelude.{take-append, drop-append, drop-drop, All, false}
use kuja.Server.Route.{find_slash, trim_front, trim_back, split_service, get_service_method}
use mathlib.Core.List.{reverse-append, append_assoc}

abbrev pub NoSlash : Str → Type 0
NoSlash = All (λ c. c ≢ b'/')

find_slash_lem :
    (front rest : Str) (i : ℕ)
    → NoSlash front
    → find_slash (front ++ (b'/' ∷ rest)) i ≡ some (i + length front)
unfolding find_slash
find_slash_lem [] rest i h = ground arith
find_slash_lem (c ∷ front) rest i (ne, h) = ground (arith, find_slash_lem front rest (i + 1) h)

find_slash-none : (s : Str) (i : ℕ) → NoSlash s → find_slash s i ≡ none
unfolding find_slash
find_slash-none [] i h = refl
find_slash-none (c ∷ s) i (ne, h) = ground (arith, find_slash-none s (i + 1) h)

has_suffix_last : (front : Str) (c : ℕ) → has_suffix (front ++ (c ∷ [])) (b'/' ∷ []) ≡ (c == b'/')
unfolding has_suffix
has_suffix_last front c = rw (reverse-append front (c ∷ [])) (ground arith)

trim_back_slash : (s : Str) → trim_back (s ++ (b'/' ∷ [])) ≡ s
unfolding trim_back
trim_back_slash s =
    let n : length (s ++ (b'/' ∷ [])) - 1 ≡ length s = omega (arith, length-append s (b'/' ∷ [])) in
    rw (has_suffix_last s b'/', n) (take-append s (b'/' ∷ []))

trim_back_other :
    (front : Str) (c : ℕ) → c ≢ b'/' → trim_back (front ++ (c ∷ [])) ≡ front ++ (c ∷ [])
unfolding trim_back
trim_back_other front c h =
    let e : (c == b'/') ≡ false = ground arith in rw (has_suffix_last front c, e)

trim_front_slash : (s : Str) → trim_front (b'/' ∷ s) ≡ s
unfolding trim_front has_prefix
trim_front_slash s = refl

-- The path under which a client asks for a method.
abbrev pub route_path : Str → Str → Str
route_path service method = b'/' ∷ (service ++ (b'/' ∷ method))

split_service_lem :
    (service method : Str)
    → NoSlash service
    → split_service (service ++ (b'/' ∷ method)) ≡ (service, method)
unfolding split_service
split_service_lem service method h =
    let found = find_slash_lem service method 0 h in
    let zero_add : 0 + length service ≡ length service = omega arith in
    let after = drop-drop (length service) 1 (service ++ (b'/' ∷ method)) in
    rw (found, zero_add)
      (rw (take-append service (b'/' ∷ method), after) (rw (drop-append service (b'/' ∷ method))))

split_lem :
    (path service method : Str)
    → NoSlash service
    → trim_back (trim_front path) ≡ service ++ (b'/' ∷ method)
    → get_service_method path ≡ (service, method)
unfolding get_service_method
split_lem path service method h e = rw e (split_service_lem service method h)

-- A service name with no slash and a method name that does not end in one are found in their path.
pub get_service_method-route_path :
    (service front : Str) (last : ℕ)
    → NoSlash service
    → last ≢ b'/'
    → get_service_method (route_path service (front ++ (last ∷ [])))
      ≡ (service, front ++ (last ∷ []))
get_service_method-route_path service front last h ne =
    let method : Str = front ++ (last ∷ []) in
    let grouped : service ++ (b'/' ∷ method) ≡ (service ++ (b'/' ∷ front)) ++ (last ∷ []) =
      rw (append_assoc service (b'/' ∷ front) (last ∷ [])) in
    split_lem (route_path service method) service method h (
      rw (trim_front_slash (service ++ (b'/' ∷ method)))
        (rw grouped (trim_back_other (service ++ (b'/' ∷ front)) last ne)))

-- With one more slash at the end the same service and method are found, for any method name.
pub get_service_method-trailing :
    (service method : Str)
    → NoSlash service
    → get_service_method (route_path service method ++ (b'/' ∷ [])) ≡ (service, method)
get_service_method-trailing service method h =
    split_lem (route_path service method ++ (b'/' ∷ [])) service method h (
      rw (trim_front_slash ((service ++ (b'/' ∷ method)) ++ (b'/' ∷ [])))
        (trim_back_slash (service ++ (b'/' ∷ method))))

-- A path with no slash but at its ends names nothing.
pub get_service_method-single :
    (name : Str) → NoSlash name → get_service_method (b'/' ∷ (name ++ (b'/' ∷ []))) ≡ ([], [])
unfolding get_service_method
get_service_method-single name h =
    rw (trim_front_slash (name ++ (b'/' ∷ [])), trim_back_slash name)
      (unfold split_service in rw (find_slash-none name 0 h))
