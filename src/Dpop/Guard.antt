-- ===== src/Dpop/Guard.antt =====
-- dpop.go: memoryReplayGuard. Times are nanoseconds since the Unix epoch.
use atol_sdk_go.Prelude.{
  ℤ, less, Bool, true, false, [], ◌∷◌, none, some, Str, Map, lookup, insert, if◌then◌else◌,
}

pub record MemoryReplayGuard : Type 0 where
  pub seen : Map ℤ

abbrev pub new_memory_replay_guard : MemoryReplayGuard
new_memory_replay_guard = record { seen = [] }

-- The loop that deletes the expired entries.
unfoldable pub prune_expired : ℤ → Map ℤ → Map ℤ
prune_expired now [] = []
prune_expired now ((jti, t) ∷ more) =
    let rest = prune_expired now more in if less t now then rest else (jti, t) ∷ rest

-- CheckAndRecord at the time `now`: whether the identifier is fresh.
unfoldable pub check_and_record : ℤ → Str → ℤ → MemoryReplayGuard → Bool × MemoryReplayGuard
check_and_record now jti expires_at g = elim (lookup jti (prune_expired now g.seen)) [
  | some t ↦ (false, record { seen = prune_expired now g.seen })
  | none ↦ (true, record { seen = insert jti expires_at (prune_expired now g.seen) })
]
