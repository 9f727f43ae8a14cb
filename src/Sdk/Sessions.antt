-- ===== src/Sdk/Sessions.antt =====
-- session_validator.go: the state of SessionValidator and its refreshes. The RPC ListRevokedSessions is its
-- answer. The counter of failures is an int that is far from overflowing.
use atol_sdk_go.Prelude.{
  ℕ, suc, leb, Bool, true, false, List, [], ◌∷◌, Option, none, some, Str, ◌==◌, Map, lookup, insert,
  if◌then◌else◌,
}

-- crlErrorThreshold
abbrev pub crl_error_threshold : ℕ
crl_error_threshold = 3

-- SessionValidator, without its client, its interval and its logger; an error is its text.
pub record SessionValidator : Type 0 where
  pub revoked : Map (Unit {0})
  pub last_refresh_err : Option Str
  pub consecutive_failures : ℕ

unfoldable pub new_session_validator : SessionValidator
new_session_validator = record { revoked = []; last_refresh_err = none; consecutive_failures = 0 }

unfoldable pub is_revoked : Str → SessionValidator → Bool
is_revoked session_id v =
    if session_id == []
    then false
    else elim (lookup session_id v.revoked) [ none ↦ false | some _ ↦ true ]

abbrev pub healthy : SessionValidator → Bool
healthy v = elim v.last_refresh_err [ none ↦ true | some _ ↦ false ]

-- What the RPC answers: an error, or the revoked identifiers.
pub data CrlAnswer : Type 0 where
  failed : Str → CrlAnswer
  listed : List Str → CrlAnswer

-- The loop that fills the new set.
unfoldable pub new_set : List Str → Map (Unit {0})
new_set [] = []
new_set (id ∷ ids) = insert id tt (new_set ids)

-- refresh: the error, and the validator.
unfoldable pub refresh : CrlAnswer → SessionValidator → Option Str × SessionValidator
refresh (failed x) v = (some x, v)
refresh (listed ids) v = (none, record v { revoked = new_set ids })

-- How a refresh is logged.
pub data RefreshLog : Type 0 where
  silent warned escalated : RefreshLog

-- refreshAndRecord: what is logged, and the validator.
unfoldable pub refresh_and_record : CrlAnswer → SessionValidator → RefreshLog × SessionValidator
refresh_and_record answer v =
    let refreshed = refresh answer v in
    elim refreshed.0 [
      | none ↦ (silent, record refreshed.1 { last_refresh_err = none; consecutive_failures = 0 })
      | some x ↦
          let failures = suc refreshed.1.consecutive_failures in
          (
            if leb crl_error_threshold failures then escalated else warned,
            record refreshed.1 { last_refresh_err = some x; consecutive_failures = failures },
          )
    ]

-- The refreshes so far, the latest first.
unfoldable pub refreshed : List CrlAnswer → SessionValidator
refreshed [] = new_session_validator
refreshed (answer ∷ before) = (refresh_and_record answer (refreshed before)).1
