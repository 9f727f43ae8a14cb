-- ===== src/Sync/Client/Versions.antt =====
-- The version guards of the policy data (sync/sync.go, applyPolicyData).
use atol_sdk_go.Prelude.{
  less_irrefl, not_less_eq, ℤ, pos, less, true, false, ◌≡◌, ◌≢◌, refl, ◌⊎◌, inl, inr, ◌↔◌, List, [],
  ◌∷◌, Member, All, Option, Map, lookup, insert, lookup-insert, none, some, Str, str_dec, ok, arith,
  sym, ap, subst, ◌∙◌,
}
use atol_sdk_go.Sync.Client.State.{PolicyEngine, Client, PolicyDataUpdate, data_version}
use atol_sdk_go.Sync.Client.Apply.{apply_policy_data}

module _ (engine : PolicyEngine) where
  abbrev pub tracked_version : Str → Client engine → ℤ
  tracked_version path c = data_version engine path c.last_data_version

  abbrev pub tracked_value : Str → Client engine → Option (Option engine.Data)
  tracked_value path c = lookup path c.last_data_value

  -- These updates, the latest first, were applied one after the other with no error.
  pub data AreTaken (c : Client engine)
      : List (PolicyDataUpdate engine) → Client engine → Type 0 where
    untouched : AreTaken c [] c
    taken :
        {d e : Client engine} {us : List (PolicyDataUpdate engine)} {u : PolicyDataUpdate engine}
        → AreTaken c us d
        → apply_policy_data engine (some u) d ≡ (ok tt, e)
        → AreTaken c (u ∷ us) e

  pub data IsNewest (path : Str) (us : List (PolicyDataUpdate engine)) (c : Client engine)
      : Type 0 where
    unseen :
        tracked_version path c ≡ pos 0
        → tracked_value path c ≡ none
        → ((u : PolicyDataUpdate engine) → Member u us → u.path ≢ path)
        → IsNewest path us c
    seen :
        (u : PolicyDataUpdate engine)
        → Member u us
        → u.path ≡ path
        → tracked_version path c ≡ u.version
        → tracked_value path c ≡ some u.data_value
        → ((w : PolicyDataUpdate engine)
            → Member w us
            → w.path ≡ path
            → less u.version w.version ≡ false)
        → IsNewest path us c

  -- Every update names a path and has a positive version.
  abbrev pub AreVersioned : List (PolicyDataUpdate engine) → Type 0
  AreVersioned us = All (λ u. (u.path ≢ []) × (less (pos 0) u.version ≡ true)) us

  -- One update: dropped where it is not newer, else it is tracked.
  data_step :
      (u : PolicyDataUpdate engine) (c d : Client engine)
      → u.path ≢ []
      → less (pos 0) u.version ≡ true
      → apply_policy_data engine (some u) c ≡ (ok tt, d)
      → ((less (tracked_version u.path c) u.version ≡ false) × (d ≡ c))
        ⊎ ((less (tracked_version u.path c) u.version ≡ true)
            × (d.last_data_version ≡ insert u.path u.version c.last_data_version)
            × (d.last_data_value ≡ insert u.path u.data_value c.last_data_value))
  unfolding apply_policy_data
  data_step u c d named positive e = ground arith

  lookup-insert_same : {V : Type 0} (k : Str) (v : V) (m : Map V) → lookup k (insert k v m) ≡ some v
  lookup-insert_same k v m = ground (arith, lookup-insert k k v m)

  lookup-insert_other :
      {V : Type 0} (k j : Str) (v : V) (m : Map V) → k ≢ j → lookup j (insert k v m) ≡ lookup j m
  lookup-insert_other k j v m apart = ground (arith, lookup-insert k j v m)

  abbrev elim_version : Option ℤ → ℤ
  elim_version found = elim found [ none ↦ pos 0 | some v ↦ v ]

  -- An update of another path, or one that is dropped, leaves what is newest.
  kept-IsNewest :
      (path : Str) (us : List (PolicyDataUpdate engine)) (u : PolicyDataUpdate engine)
      (c d : Client engine)
      → tracked_version path d ≡ tracked_version path c
      → tracked_value path d ≡ tracked_value path c
      → (u.path ≡ path
          → (less (tracked_version path c) u.version ≡ false) × (tracked_version path c ≢ pos 0))
      → IsNewest path us c
      → IsNewest path (u ∷ us) d
  kept-IsNewest path us u c d versions values older (unseen zero_ nothing none_here) =
      unseen (versions ∙ zero_) (values ∙ nothing) (λ w m. elim m [
        | inl e ↦ λ same_path. (older (ap (λ x. x.path) (sym e) ∙ same_path)).1 zero_
        | inr more ↦ none_here w more
      ])
  kept-IsNewest path us u c d versions values older (seen v m here version value newest) =
      seen v (inr m) here (versions ∙ version) (values ∙ value) (λ w k at. elim k [
        | inl e ↦
            let older_than = (older (ap (λ x. x.path) (sym e) ∙ at)).0 in
            subst (λ x. less v.version x.version ≡ false) (sym e)
              (subst (λ x. less x u.version ≡ false) version older_than)
        | inr more ↦ newest w more at
      ])

  not_newer :
      (old new other : ℤ) → less old new ≡ true → less old other ≡ false → less new other ≡ false
  not_newer old new other h k = ground arith

  newer-IsNewest :
      (path : Str) (us : List (PolicyDataUpdate engine)) (u : PolicyDataUpdate engine)
      (c d : Client engine)
      → u.path ≡ path
      → less (tracked_version path c) u.version ≡ true
      → tracked_version path d ≡ u.version
      → tracked_value path d ≡ some u.data_value
      → IsNewest path us c
      → IsNewest path (u ∷ us) d
  newer-IsNewest path us u c d here newer version value h =
      seen u (inl refl) here version value (λ w k at. elim k [
        | inl e ↦ subst (λ x. less u.version x.version ≡ false) (sym e) (less_irrefl u.version)
        | inr more ↦ elim h [
          | unseen zero_ nothing none_here ↦ absurd (none_here w more at)
          | seen v m here' version' value' newest ↦
              not_newer v.version u.version w.version
                (subst (λ x. less x u.version ≡ true) version' newer) (newest w more at)
        ]
      ])

  step-IsNewest :
      (path : Str) (us : List (PolicyDataUpdate engine)) (u : PolicyDataUpdate engine)
      (c d : Client engine)
      → u.path ≢ []
      → less (pos 0) u.version ≡ true
      → apply_policy_data engine (some u) c ≡ (ok tt, d)
      → IsNewest path us c
      → IsNewest path (u ∷ us) d
  step-IsNewest path us u c d named positive e h = elim (data_step u c d named positive e) [
    | inl (old, same_client) ↦
        kept-IsNewest path us u c d (ap (tracked_version path) same_client)
          (ap (tracked_value path) same_client)
          (λ here.
            let old_here = subst (λ p. less (tracked_version p c) u.version ≡ false) here old in
            (
              old_here,
              λ none_yet.
                  ground (arith, positive, subst (λ v. less v u.version ≡ false) none_yet old_here),
            ))
          h
    | inr (newer, versions, values) ↦ elim (str_dec u.path path) [
      | yes here ↦
          newer-IsNewest path us u c d here
            (subst (λ p. less (tracked_version p c) u.version ≡ true) here newer)
            (subst (λ p. tracked_version p d ≡ u.version) here
              (ap (data_version engine u.path) versions
                ∙ ap elim_version (lookup-insert_same u.path u.version c.last_data_version)))
            (subst (λ p. tracked_value p d ≡ some u.data_value) here
              (ap (lookup u.path) values
                ∙ lookup-insert_same u.path u.data_value c.last_data_value))
            h
      | no apart ↦
          kept-IsNewest path us u c d
            (ap (data_version engine path) versions
              ∙ ap elim_version
                  (lookup-insert_other u.path path u.version c.last_data_version apart))
            (ap (lookup path) values
              ∙ lookup-insert_other u.path path u.data_value c.last_data_value apart)
            (λ here. absurd (apart here)) h
    ]
  ]

  taken-IsNewest :
      (path : Str) (c d : Client engine) (us : List (PolicyDataUpdate engine))
      → tracked_version path c ≡ pos 0
      → tracked_value path c ≡ none
      → AreVersioned us
      → AreTaken c us d
      → IsNewest path us d
  taken-IsNewest path c d us no_version no_value h untouched =
      unseen no_version no_value (λ u m. absurd m)
  taken-IsNewest path c d us no_version no_value h (taken before e) =
      step-IsNewest path _ _ _ d h.0.0 h.0.1 e
        (taken-IsNewest path c _ _ no_version no_value h.1 before)

  -- Two clients that have no policy data at a path and apply the same updates (each with a path and a
  -- positive version, and equal versions of a path carrying equal data) with no error, in any orders
  -- and any numbers of times, track the same version and the same value at that path.
  pub taken-agree :
      (path : Str) (c c' d d' : Client engine) (us us' : List (PolicyDataUpdate engine))
      → tracked_version path c ≡ pos 0
      → tracked_value path c ≡ none
      → tracked_version path c' ≡ pos 0
      → tracked_value path c' ≡ none
      → AreVersioned us
      → AreVersioned us'
      → ((u : PolicyDataUpdate engine) → Member u us ↔ Member u us')
      → ((u w : PolicyDataUpdate engine)
          → Member u us
          → Member w us
          → u.path ≡ w.path
          → u.version ≡ w.version
          → u.data_value ≡ w.data_value)
      → AreTaken c us d
      → AreTaken c' us' d'
      → (tracked_version path d ≡ tracked_version path d')
        × (tracked_value path d ≡ tracked_value path d')
  taken-agree path c c' d d' us us' a b a' b' h h' same_updates determined run run' =
      elim (taken-IsNewest path c d us a b h run) [
        | unseen zero_ nothing none_here ↦ elim (taken-IsNewest path c' d' us' a' b' h' run') [
          | unseen zero' nothing' none' ↦ (zero_ ∙ sym zero', nothing ∙ sym nothing')
          | seen v m here version value newest ↦ absurd (none_here v ((same_updates v).1 m) here)
        ]
        | seen u k at version value newest ↦ elim (taken-IsNewest path c' d' us' a' b' h' run') [
          | unseen zero' nothing' none' ↦ absurd (none' u ((same_updates u).0 k) at)
          | seen v m here version' value' newest' ↦
              let k' = (same_updates v).1 m in
              let equal =
                not_less_eq u.version v.version (newest v k' here)
                  (newest' u ((same_updates u).0 k) at) in
              (
                version ∙ equal ∙ sym version',
                value ∙ ap some (determined u v k k' (at ∙ sym here) equal) ∙ sym value',
              )
        ]
      ]
