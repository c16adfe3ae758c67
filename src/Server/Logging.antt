-- ===== src/Server/Logging.antt =====
-- service.go and sub.go: the hooks for errors that `NewServer` sets, which log them.
use kuja.Prelude.{◌≡◌, refl, ℕ, ◌==◌, ◌||◌, false, if◌then◌else◌, Option, none, some, [], ◌∷◌, All}
use kuja.Server.Rpc.{Report}
use kuja.Server.Subscribe.{SubReport}

-- `log.Infof`, `log.Warnf` and `log.Errorf`
pub data Level : Type 0 where
  info warn failure : Level

-- The switch on the status of an errors.Error.
abbrev pub level_of : ℕ → Option Level
level_of status =
    if (status == 400) || (status == 404)
    then some info
    else if (status == 403) || (status == 401)
    then some warn
    else if status == 500
    then some failure
    else none

-- `defaulServiceErr`: the level of the line that is logged, if any
abbrev pub level_for : Option ℕ → Option Level
level_for none = some failure
level_for (some status) = level_of status

unfoldable pub default_service_error : Report → Option Level
default_service_error r = level_for r.error.status

-- `defaulSubscriberErr`
unfoldable pub default_subscriber_error : SubReport → Level
default_subscriber_error r = failure

-- The switch has no default: an errors.Error of another status is not logged.
default_service_error-silent :
    (r : Report) (status : ℕ)
    → r.error.status ≡ some status
    → All (λ n. (status == n) ≡ false) (400 ∷ 404 ∷ 403 ∷ 401 ∷ 500 ∷ [])
    → default_service_error r ≡ none
unfolding default_service_error
default_service_error-silent r status e
      (bad, (missing, (forbidden, (unauthorized, (internal, last))))) =
    rw (e, bad, missing, forbidden, unauthorized, internal) refl
