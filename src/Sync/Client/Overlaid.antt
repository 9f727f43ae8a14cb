-- ===== src/Sync/Client/Overlaid.antt =====
-- The policy data that the client tracks is in the policy engine (sync/sync.go, applyPolicyBundle and
-- applyPolicyData): a bundle, which comes with data of its own, does not take it away.
use atol_sdk_go.Prelude.{
  ℕ, ◌≡◌, ◌≢◌, refl, ◌⊎◌, inl, inr, List, [], ◌∷◌, Option, Map, lookup, insert, lookup-insert,
  Distinct, insert-Distinct, none, some, Str, str_dec, ok, Result-cases, arith, sym, ap, subst, ◌∙◌,
}
use atol_sdk_go.Policy.Paths.{AreApart}
use atol_sdk_go.Sync.ServingGate.{ServingUpdate}
use atol_sdk_go.Sync.Client.State.{
  Setting, PolicyEngine, StreamMutationsResponse, Client, Mutation, no_mutation, tuple_write,
  tuple_delete, model_update, policy_bundle_update, policy_data_update, tenant_serving_state_update,
  PolicyDataUpdate, PolicyBundleUpdate,
}
use atol_sdk_go.Sync.Client.Apply.{
  overlay, apply_policy_bundle, apply_policy_data, apply_serving_state, apply_case, apply_mutation,
}

-- What SetPolicyData promises of the document that the policy engine's store holds at a path: it is the
-- one that was set, and the documents at the paths apart from it (neither inside the other) stay.
-- Policy/Data.antt has the implementation, and its theorem that it keeps the promise.
pub record DataLaws (engine : PolicyEngine) : Type 1 where
  pub document : Str → engine.State → Option (Option engine.Data)
  pub document-set :
      (path : Str) (v : Option engine.Data) (p p' : engine.State)
      → engine.set_policy_data path v p ≡ ok p'
      → document path p' ≡ some v
  pub document-set_apart :
      (path other : Str) (v : Option engine.Data) (p p' : engine.State)
      → AreApart path other
      → engine.set_policy_data path v p ≡ ok p'
      → document other p' ≡ document other p

module _ (engine : PolicyEngine) (laws : DataLaws engine) where
  -- Two paths of the map are the same or apart.
  abbrev pub AllApart : Map (Option engine.Data) → Type 0
  AllApart m = (i j : Str) → lookup i m ≢ none → lookup j m ≢ none → i ≢ j → AreApart i j

  pub record HasData (m : Map (Option engine.Data)) (p : engine.State) : Type 0 where
    pub distinct : Distinct m
    pub separate : AllApart m
    pub present :
        (path : Str) (v : Option engine.Data)
        → lookup path m ≡ some v
        → laws.document path p ≡ some v

  abbrev pub IsOverlaid : Client engine → Type 0
  IsOverlaid c = HasData c.last_data_value c.policy

  overlay_keeps :
      (m : Map (Option engine.Data)) (p p' : engine.State) (j : Str)
      → ((i : Str) → lookup i m ≢ none → AreApart i j)
      → overlay engine m p ≡ (none, p')
      → laws.document j p' ≡ laws.document j p
  unfolding overlay lookup
  overlay_keeps [] p p' j apart e = ground (arith, e)
  overlay_keeps ((i, v) ∷ m) p p' j apart e = elim (Result-cases (engine.set_policy_data i v p)) [
    | inl (q, set) ↦
        overlay_keeps m q p' j (λ k found. apart k (ground (arith, found))) (ground (arith, set, e))
        ∙ laws.document-set_apart i j v p q (apart i (ground arith)) set
    | inr (x, failed) ↦ absurd (ground (arith, failed, e))
  ]

  overlay_sets :
      (m : Map (Option engine.Data)) (p p' : engine.State)
      → Distinct m
      → AllApart m
      → overlay engine m p ≡ (none, p')
      → (j : Str) (v : Option engine.Data) → lookup j m ≡ some v
      → laws.document j p' ≡ some v
  unfolding overlay lookup
  overlay_sets [] p p' d separate e j v found = cc
  overlay_sets ((i, w) ∷ m) p p' d separate e j v found =
      elim (Result-cases (engine.set_policy_data i w p)) [
        | inr (x, failed) ↦ absurd (ground (arith, failed, e))
        | inl (q, set) ↦
            let rest : overlay engine m q ≡ (none, p') = ground (arith, set, e) in
            elim (str_dec i j) [
              | no apart ↦
                  overlay_sets m q p' d.1
                    (λ k l a b. separate k l (ground (arith, a)) (ground (arith, b))) rest j v
                    (ground (arith, found))
              | yes here ↦
                  overlay_keeps m q p' j
                    (λ k other.
                      separate k j (ground (arith, other)) (ground arith)
                        (λ met. other (ap (λ x. lookup x m) (met ∙ sym here) ∙ d.0)))
                    rest
                  ∙ subst (λ x. laws.document x q ≡ some w) here (laws.document-set i w p q set)
                  ∙ ground arith
            ]
      ]

  bundle_step :
      (upd : PolicyBundleUpdate) (c d : Client engine)
      → apply_policy_bundle engine (some upd) c ≡ (ok tt, d)
      → ((d.policy ≡ c.policy) × (d.last_data_value ≡ c.last_data_value))
        ⊎ ((loaded : engine.State) × (overlay engine c.last_data_value loaded ≡ (none, d.policy))
            × (d.last_data_value ≡ c.last_data_value))
  unfolding apply_policy_bundle
  bundle_step upd c d e =
      elim (Result-cases (engine.load_bundle upd.policy_bundle c.baseline_data c.policy)) [
        | inr (x, failed) ↦ inl (ground (arith, failed, e), ground (arith, failed, e))
        | inl (loaded, is_loaded) ↦
            let step : ((d.policy ≡ c.policy) × (d.last_data_value ≡ c.last_data_value))
                ⊎ ((overlay engine c.last_data_value loaded ≡ (none, d.policy))
                    × (d.last_data_value ≡ c.last_data_value)) =
              ground (arith, is_loaded, e) in
            elim step [
              | inl kept ↦ inl kept
              | inr (overlaid, same_data) ↦ inr (loaded, overlaid, same_data)
            ]
      ]

  data_step :
      (upd : PolicyDataUpdate engine) (c d : Client engine)
      → apply_policy_data engine (some upd) c ≡ (ok tt, d)
      → ((d.policy ≡ c.policy) × (d.last_data_value ≡ c.last_data_value))
        ⊎ ((engine.set_policy_data upd.path upd.data_value c.policy ≡ ok d.policy)
            × (d.last_data_value ≡ insert upd.path upd.data_value c.last_data_value))
  unfolding apply_policy_data
  data_step upd c d e = ground arith

  kept-HasData :
      (c d : Client engine)
      → d.policy ≡ c.policy
      → d.last_data_value ≡ c.last_data_value
      → IsOverlaid c
      → IsOverlaid d
  kept-HasData c d same_policy same_data h =
      subst (λ m. HasData m d.policy) (sym same_data)
        (subst (HasData c.last_data_value) (sym same_policy) h)

  bundle-IsOverlaid :
      (upd : Option PolicyBundleUpdate) (c d : Client engine)
      → apply_policy_bundle engine upd c ≡ (ok tt, d)
      → IsOverlaid c
      → IsOverlaid d
  bundle-IsOverlaid none c d e h =
      unfold apply_policy_bundle in subst IsOverlaid (ap (λ o. o.1) e) h
  bundle-IsOverlaid (some upd) c d e h = elim (bundle_step upd c d e) [
    | inl (same_policy, same_data) ↦ kept-HasData c d same_policy same_data h
    | inr (loaded, overlaid, same_data) ↦
        subst (λ m. HasData m d.policy) (sym same_data)
          (record {
            distinct = h.distinct;
            separate = h.separate;
            present = overlay_sets c.last_data_value loaded d.policy h.distinct h.separate overlaid;
          })
  ]

  -- The update of data, if it is one, names a path that is apart from those of the tracked data, or one
  -- of these.
  abbrev pub IsSeparate : Mutation engine → Client engine → Type 0
  IsSeparate m c =
      (u : PolicyDataUpdate engine)
      → m ≡ policy_data_update (some u)
      → (i : Str) → lookup i c.last_data_value ≢ none
      → i ≢ u.path
      → AreApart i u.path × AreApart u.path i

  insert-HasData :
      (path : Str) (v : Option engine.Data) (m : Map (Option engine.Data)) (p p' : engine.State)
      → ((i : Str) → lookup i m ≢ none → i ≢ path → AreApart i path × AreApart path i)
      → engine.set_policy_data path v p ≡ ok p'
      → HasData m p
      → HasData (insert path v m) p'
  insert-HasData path v m p p' apart set h = record {
    distinct = insert-Distinct path v m h.distinct;
    separate = λ i j a b different. elim (str_dec path i) [
      | yes here ↦
          subst (λ k. AreApart k j) here
            (apart j (ground (arith, b, here, different, lookup-insert path j v m))
              (λ met. different (sym here ∙ sym met))).1
      | no away ↦ elim (str_dec path j) [
        | yes here ↦
            subst (AreApart i) here
              (apart i (ground (arith, a, away, lookup-insert path i v m))
                (λ met. away (sym met))).0
        | no apart_too ↦
            h.separate i j (ground (arith, a, away, lookup-insert path i v m))
              (ground (arith, b, apart_too, lookup-insert path j v m)) different
      ]
    ];
    present = λ j w found. elim (str_dec path j) [
      | yes here ↦
          subst (λ k. laws.document k p' ≡ some v) here (laws.document-set path v p p' set)
          ∙ ground (arith, found, here, lookup-insert path j v m)
      | no away ↦
          let held : lookup j m ≡ some w = ground (arith, found, away, lookup-insert path j v m) in
          laws.document-set_apart path j v p p'
            (apart j (ground (arith, held)) (λ met. away (sym met))).1 set
          ∙ h.present j w held
    ];
  }

  data-IsOverlaid :
      (upd : Option (PolicyDataUpdate engine)) (c d : Client engine)
      → IsSeparate (policy_data_update upd) c
      → apply_policy_data engine upd c ≡ (ok tt, d)
      → IsOverlaid c
      → IsOverlaid d
  data-IsOverlaid none c d separate e h =
      unfold apply_policy_data in subst IsOverlaid (ap (λ o. o.1) e) h
  data-IsOverlaid (some upd) c d separate e h = elim (data_step upd c d e) [
    | inl (same_policy, same_data) ↦ kept-HasData c d same_policy same_data h
    | inr (set, tracked) ↦
        subst (λ m. HasData m d.policy) (sym tracked)
          (insert-HasData upd.path upd.data_value c.last_data_value c.policy d.policy
            (separate upd refl) set h)
  ]

  -- The cases that leave the policy data.
  abbrev KeepsData : Client engine → Client engine → Type 0
  KeepsData c d = (d.policy ≡ c.policy) × (d.last_data_value ≡ c.last_data_value)

  module _ (w : Setting) where
    serving-KeepsData :
        (now : ℕ) (challenge : List Str) (tenant : Str) (update : Option ServingUpdate)
        (c : Client engine)
        → KeepsData c (apply_serving_state engine w now challenge tenant update c).1
    unfolding apply_serving_state
    serving-KeepsData now challenge tenant none c = ground arith
    serving-KeepsData now challenge tenant (some u) c = ground arith

    case-IsOverlaid :
        (now : ℕ) (challenge : List Str) (tenant : Str) (m : Mutation engine) (c d : Client engine)
        → IsSeparate m c
        → apply_case engine w now challenge tenant m c ≡ (ok tt, d)
        → IsOverlaid c
        → IsOverlaid d
    unfolding apply_case
    case-IsOverlaid now challenge tenant no_mutation c d separate e h =
        kept-HasData c d (ground (arith, e)) (ground (arith, e)) h
    case-IsOverlaid now challenge tenant (tuple_write none) c d separate e h =
        kept-HasData c d (ground (arith, e)) (ground (arith, e)) h
    case-IsOverlaid now challenge tenant (tuple_write (some t)) c d separate e h =
        kept-HasData c d (ground (arith, e)) (ground (arith, e)) h
    case-IsOverlaid now challenge tenant (tuple_delete none) c d separate e h =
        kept-HasData c d (ground (arith, e)) (ground (arith, e)) h
    case-IsOverlaid now challenge tenant (tuple_delete (some t)) c d separate e h =
        kept-HasData c d (ground (arith, e)) (ground (arith, e)) h
    case-IsOverlaid now challenge tenant (model_update none) c d separate e h =
        kept-HasData c d (ground (arith, e)) (ground (arith, e)) h
    case-IsOverlaid now challenge tenant (model_update (some u)) c d separate e h =
        kept-HasData c d (ground (arith, e)) (ground (arith, e)) h
    case-IsOverlaid now challenge tenant (policy_bundle_update upd) c d separate e h =
        bundle-IsOverlaid upd c d e h
    case-IsOverlaid now challenge tenant (policy_data_update upd) c d separate e h =
        data-IsOverlaid upd c d separate e h
    case-IsOverlaid now challenge tenant (tenant_serving_state_update upd) c d separate e h =
        let kept = serving-KeepsData now challenge tenant upd c in
        kept-HasData c d (ground (arith, e, kept)) (ground (arith, e, kept)) h

    -- Where the policy engine holds each document that the client tracks, under paths of which none is
    -- inside another, it does so after every message that is applied with no error (a bundle brings data
    -- of its own and loses none of these), provided that an update of data names a tracked path or one
    -- apart from all of them.
    pub apply_mutation-IsOverlaid :
        (now : ℕ) (challenge : List Str) (msg : StreamMutationsResponse engine)
        (c d : Client engine)
        → IsSeparate msg.mutation c
        → apply_mutation engine w now challenge (some msg) c ≡ (ok tt, d)
        → IsOverlaid c
        → IsOverlaid d
    unfolding apply_mutation
    apply_mutation-IsOverlaid now challenge msg c d separate e h =
        case-IsOverlaid now challenge msg.tenant_id msg.mutation c d separate (ground (arith, e)) h
