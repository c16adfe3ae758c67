-- ===== src/Server/Route.antt =====
-- server.go: `getServiceMethod`, which splits the path of a request into service and method.
pub mod Laws
use kuja.Prelude.{ℕ, ◌+◌, ◌-◌, ◌==◌, if◌then◌else◌, Option, none, some}
use kuja.Prelude.{Str, [], ◌∷◌, length, take, drop, has_prefix, has_suffix}

-- The loop over `s[i]` from `i` on: the index of the first slash.
unfoldable pub find_slash : Str → ℕ → Option ℕ
find_slash [] i = none
find_slash (c ∷ rest) i = if c == b'/' then some i else find_slash rest (i + 1)

-- `if strings.HasPrefix(s, "/") { s = s[1:] }`
unfoldable pub trim_front : Str → Str
trim_front s = if has_prefix s (b'/' ∷ []) then drop 1 s else s

-- `if strings.HasSuffix(s, "/") { s = s[:len(s)-1] }`
unfoldable pub trim_back : Str → Str
trim_back s = if has_suffix s (b'/' ∷ []) then take (length s - 1) s else s

unfoldable pub split_at : Str → Option ℕ → Str × Str
split_at s none = ([], [])
split_at s (some i) = (take i s, drop (i + 1) s)

unfoldable pub split_service : Str → Str × Str
unfolding find_slash split_at
split_service s = split_at s (find_slash s 0)

unfoldable pub get_service_method : Str → Str × Str
get_service_method path = split_service (trim_back (trim_front path))
