-- ===== src/Sdk/Revoked.antt =====
-- What the session validator knows after any refreshes (session_validator.go).
use atol_sdk_go.Prelude.{
  ℕ, suc, true, List, [], ◌∷◌, Member, some, Str, lookup, lookup-insert, ◌≡◌, ◌≢◌, refl, ◌↔◌, arith,
  ap,
}
use atol_sdk_go.Sdk.Sessions.{
  SessionValidator, new_session_validator, is_revoked, healthy, CrlAnswer, failed, listed, new_set,
  refresh, refresh_and_record, refreshed,
}

-- The specification: the identifiers of the latest list, and the failures since it.
abbrev pub latest_list : List CrlAnswer → List Str
latest_list [] = []
latest_list (failed x ∷ before) = latest_list before
latest_list (listed ids ∷ before) = ids

abbrev pub failures_since : List CrlAnswer → ℕ
failures_since [] = 0
failures_since (failed x ∷ before) = suc (failures_since before)
failures_since (listed ids ∷ before) = 0

new_set_iff : (id : Str) (ids : List Str) → (lookup id (new_set ids) ≡ some tt) ↔ Member id ids
unfolding new_set lookup
new_set_iff id [] = ground arith
new_set_iff id (j ∷ ids) = ground (arith, new_set_iff id ids, lookup-insert j id tt (new_set ids))

abbrev Knows : SessionValidator → List CrlAnswer → Type 0
Knows v answers =
    (v.revoked ≡ new_set (latest_list answers))
    × (v.consecutive_failures ≡ failures_since answers)
    × ((healthy v ≡ true) ↔ (failures_since answers ≡ 0))

refreshed-Knows : (answers : List CrlAnswer) → Knows (refreshed answers) answers
unfolding refreshed refresh_and_record refresh new_session_validator new_set
refreshed-Knows [] = (refl, refl, ground arith)
refreshed-Knows (failed x ∷ before) =
    let (set, count, fine) = refreshed-Knows before in (set, ap suc count, ground arith)
refreshed-Knows (listed ids ∷ before) = (refl, refl, ground arith)

-- After any refreshes, a session is revoked exactly when its identifier is not empty and is in the latest
-- list that was fetched, however many refreshes have failed since; the count of failures is the number of
-- these, and the validator is healthy exactly when there are none.
pub refreshed_lem :
    (answers : List CrlAnswer) (id : Str)
    → ((is_revoked id (refreshed answers) ≡ true) ↔ ((id ≢ []) × Member id (latest_list answers)))
      × ((refreshed answers).consecutive_failures ≡ failures_since answers)
      × ((healthy (refreshed answers) ≡ true) ↔ (failures_since answers ≡ 0))
unfolding is_revoked
refreshed_lem answers id =
    let (set, count, fine) = refreshed-Knows answers in
    let known = new_set_iff id (latest_list answers) in (ground (arith, set, known), count, fine)
