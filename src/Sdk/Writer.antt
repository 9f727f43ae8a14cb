-- ===== src/Sdk/Writer.antt =====
-- tuple_writer.go: the remote and the local writer of tuples. The control plane is its answer to the one
-- call that each operation makes.
use atol_sdk_go.Prelude.{
  Bool, true, Option, none, some, Str, Result, ok, err, ◌≡◌, ◌≢◌, ◌↔◌, refl, arith, if◌then◌else◌,
}
use atol_sdk_go.Zanzibar.Engine.State.{Engine, EngineError}
use atol_sdk_go.Zanzibar.Engine.Steps.{Recorder}
use atol_sdk_go.Zanzibar.Engine.Tuples.{write_raw_tuple, delete_raw_tuple}

-- An error of the control plane: whether its details hold the reason and the domain of the last holder.
pub record RemoteError : Type 0 where
  pub is_last_holder : Bool

pub data WriterError : Type 0 where
  remote_failed : RemoteError → WriterError
  last_holder_kept : WriterError
  mirror_failed : EngineError → WriterError
  local_failed : EngineError → WriterError

module _ (n : Option Recorder) where
  unfoldable pub remote_grant :
      Option RemoteError → Str → Str → Str → Engine → Result WriterError (Unit {0}) × Engine
  remote_grant answer user relation object e = elim answer [
    | some x ↦ (err (remote_failed x), e)
    | none ↦
        let mirrored = write_raw_tuple n user relation object e in
        elim mirrored.0 [
          | err x ↦ (err (mirror_failed x), mirrored.1)
          | ok done ↦ (ok tt, mirrored.1)
        ]
  ]

  unfoldable pub remote_revoke :
      Option RemoteError → Str → Str → Str → Engine → Result WriterError (Unit {0}) × Engine
  remote_revoke answer user relation object e = elim answer [
    | some x ↦ if x.is_last_holder then (err last_holder_kept, e) else (err (remote_failed x), e)
    | none ↦
        let mirrored = delete_raw_tuple n user relation object e in
        elim mirrored.0 [
          | err x ↦ (err (mirror_failed x), mirrored.1)
          | ok done ↦ (ok tt, mirrored.1)
        ]
  ]

  unfoldable pub local_grant : Str → Str → Str → Engine → Result WriterError (Unit {0}) × Engine
  local_grant user relation object e =
      let written = write_raw_tuple n user relation object e in
      elim written.0 [ err x ↦ (err (local_failed x), written.1) | ok done ↦ (ok tt, written.1) ]

  unfoldable pub local_revoke : Str → Str → Str → Engine → Result WriterError (Unit {0}) × Engine
  local_revoke user relation object e =
      let deleted = delete_raw_tuple n user relation object e in
      elim deleted.0 [ err x ↦ (err (local_failed x), deleted.1) | ok done ↦ (ok tt, deleted.1) ]

  -- Revoking through the control plane changes the engine only where the control plane accepts, and
  -- reports the last holder exactly where it refuses for that reason.
  pub remote_revoke_lem :
      (answer : Option RemoteError) (user relation object : Str) (e : Engine)
      → ((answer ≢ none) → (remote_revoke answer user relation object e).1 ≡ e)
        × (((remote_revoke answer user relation object e).0 ≡ err last_holder_kept)
            ↔ ((x : RemoteError) × (answer ≡ some x) × (x.is_last_holder ≡ true)))
  unfolding remote_revoke
  remote_revoke_lem none user relation object e = (
    (λ h. absurd (h refl)),
    ((λ h. absurd (ground (arith, h))), (λ (x, f, t). absurd (ground (arith, f)))),
  )
  remote_revoke_lem (some x) user relation object e = (
    (λ h. ground arith),
    ((λ h. (x, refl, ground (arith, h))), (λ (y, f, t). ground (arith, f, t))),
  )
