-- ===== src/Sync/Client/Token.antt =====
-- The continuation token, the time of the last activity, and the messages that are applied
-- (sync/sync.go).
use atol_sdk_go.Prelude.{
  ℕ, true, ◌≡◌, refl, ◌⊎◌, inl, inr, List, [], ◌∷◌, ◌++◌, Option, none, some, Str, ◌!=◌, Result, ok,
  err, Result-cases, if◌then◌else◌, arith, sym, ap, subst, ◌∙◌,
}
use atol_sdk_go.Zanzibar.Engine.State.{Op}
use atol_sdk_go.Sync.ServingGate.{ServingUpdate, GateError, TenantServingGate}
use atol_sdk_go.Sync.Client.State.{
  Setting, PolicyEngine, SyncError, Client, mark_stream_open, mark_activity, set_continuation_token,
  Mutation, no_mutation, tuple_write, tuple_delete, model_update, policy_bundle_update,
  policy_data_update, tenant_serving_state_update, PolicyDataUpdate, PolicyBundleUpdate,
}
use atol_sdk_go.Sync.Client.Apply.{
  apply_policy_bundle, apply_policy_data, with_zanzibar, with_gate, apply_serving_state, apply_case,
  apply_mutation,
}
use atol_sdk_go.Sync.Client.Stream.{
  call_failed, apply_failed, Receipt, Connection, applied, advance_token, receive_all, stream, run,
}

abbrev pub newest_token : {engine : PolicyEngine} → Str → List (Receipt engine) → Str
newest_token token [] = token
newest_token token (r ∷ rs) =
    newest_token (if r.msg.continuation_token != [] then r.msg.continuation_token else token) rs

module _ (engine : PolicyEngine) where
  -- The same token and the same last activity.
  abbrev pub IsKept : Client engine → Client engine → Type 0
  IsKept c d =
      (d.continuation_token ≡ c.continuation_token)
      × (d.last_stream_activity ≡ c.last_stream_activity)

  bundle-token :
      (upd : Option PolicyBundleUpdate) (c : Client engine)
      → IsKept c (apply_policy_bundle engine upd c).1
  unfolding apply_policy_bundle
  bundle-token none c = (refl, refl)
  bundle-token (some upd) c = ground arith

  data-token :
      (upd : Option (PolicyDataUpdate engine)) (c : Client engine)
      → IsKept c (apply_policy_data engine upd c).1
  unfolding apply_policy_data
  data-token none c = (refl, refl)
  data-token (some upd) c = ground arith

  zanzibar-token :
      (run : Op (Unit {0})) (c : Client engine) → IsKept c (with_zanzibar engine run c).1
  zanzibar-token run c = ground arith

  gate-token :
      (run : TenantServingGate → Result GateError TenantServingGate) (c : Client engine)
      → IsKept c (with_gate engine run c).1
  gate-token run c = ground arith

module _ (engine : PolicyEngine) (w : Setting) where
  serving-token :
      (now : ℕ) (challenge : List Str) (tenant : Str) (update : Option ServingUpdate)
      (c : Client engine)
      → IsKept engine c (apply_serving_state engine w now challenge tenant update c).1
  unfolding apply_serving_state
  serving-token now challenge tenant none c = ground arith
  serving-token now challenge tenant (some u) c = ground arith

  case-token :
      (now : ℕ) (challenge : List Str) (tenant : Str) (m : Mutation engine) (c : Client engine)
      → IsKept engine c (apply_case engine w now challenge tenant m c).1
  unfolding apply_case
  case-token now challenge tenant no_mutation c = (refl, refl)
  case-token now challenge tenant (tuple_write none) c = (refl, refl)
  case-token now challenge tenant (tuple_write (some t)) c = ground arith
  case-token now challenge tenant (tuple_delete none) c = (refl, refl)
  case-token now challenge tenant (tuple_delete (some t)) c = ground arith
  case-token now challenge tenant (model_update none) c = (refl, refl)
  case-token now challenge tenant (model_update (some m)) c = ground arith
  case-token now challenge tenant (policy_bundle_update upd) c = bundle-token engine upd c
  case-token now challenge tenant (policy_data_update upd) c = data-token engine upd c
  case-token now challenge tenant (tenant_serving_state_update upd) c =
      serving-token now challenge tenant upd c

  -- Applying a message leaves the token.
  pub applied-token :
      (challenge : Str) (r : Receipt engine) (c : Client engine)
      → IsKept engine (mark_activity engine r.received_at c) (applied engine w challenge r c).1
  unfolding apply_mutation
  applied-token challenge r c = ground (
    arith,
    case-token r.applied_at (challenge ∷ []) r.msg.tenant_id r.msg.mutation
        (mark_activity engine r.received_at c),
  )

  -- These messages are applied one after the other with no error, from one client to another.
  pub data AreApplied (challenge : Str)
      : Client engine → List (Receipt engine) → Client engine → Type 0 where
    none_left : {c : Client engine} → AreApplied challenge c [] c
    then_apply :
        {c d e : Client engine} {r : Receipt engine} {rs : List (Receipt engine)}
        → applied engine w challenge r c ≡ (ok tt, d)
        → AreApplied challenge (advance_token engine w r.msg.continuation_token d) rs e
        → AreApplied challenge c (r ∷ rs) e

  -- What the loop leaves: the messages it applied, and the one that failed.
  pub record Outcome (challenge : Str) (receipts : List (Receipt engine)) (c : Client engine)
      (failure : Option (SyncError engine)) (token : Str) : Type 0 where
    pub applied_receipts : List (Receipt engine)
    pub left : List (Receipt engine)
    pub client : Client engine
    pub split : receipts ≡ applied_receipts ++ left
    pub run : AreApplied challenge c applied_receipts client
    pub newest : token ≡ newest_token c.continuation_token applied_receipts
    pub ended :
        ((left ≡ []) × (failure ≡ none))
        ⊎ ((r : Receipt engine) × (more : List (Receipt engine)) × (x : SyncError engine) × (left
              ≡ r ∷ more)
            × (failure ≡ some x)
            × ((applied engine w challenge r client).0 ≡ err x))

  receive_all_stops :
      (challenge : Str) (r : Receipt engine) (rs : List (Receipt engine)) (c : Client engine)
      (x : SyncError engine)
      → (applied engine w challenge r c).0 ≡ err x
      → receive_all engine w challenge (r ∷ rs) c ≡ (some x, (applied engine w challenge r c).1)
  unfolding receive_all
  receive_all_stops challenge r rs c x e = ground (arith, e)

  receive_all_goes_on :
      (challenge : Str) (r : Receipt engine) (rs : List (Receipt engine)) (c : Client engine)
      → (applied engine w challenge r c).0 ≡ ok tt
      → receive_all engine w challenge (r ∷ rs) c
        ≡ receive_all engine w challenge rs
            (advance_token engine w r.msg.continuation_token (applied engine w challenge r c).1)
  unfolding receive_all
  receive_all_goes_on challenge r rs c e = ground (arith, e)

  advance-token :
      (token : Str) (c : Client engine)
      → (advance_token engine w token c).continuation_token
        ≡ (if token != [] then token else c.continuation_token)
  unfolding set_continuation_token
  advance-token token c = ground arith

  abbrev Shows :
      Str
      → List (Receipt engine)
      → Client engine
      → Option (SyncError engine) × Client engine
      → Type 0
  Shows challenge rs c out = Outcome challenge rs c out.0 out.1.continuation_token

  receive_all-Outcome :
      (challenge : Str) (rs : List (Receipt engine)) (c : Client engine)
      → Shows challenge rs c (receive_all engine w challenge rs c)
  receive_all-Outcome challenge [] c =
      unfold receive_all in
      record {
        applied_receipts = [];
        left = [];
        client = c;
        split = refl;
        run = none_left;
        newest = refl;
        ended = inl (refl, refl);
      }
  receive_all-Outcome challenge (r ∷ rs) c =
      let first = applied engine w challenge r c in
      let kept = (applied-token challenge r c).0 in
      elim (Result-cases first.0) [
        | inr (x, e) ↦
            subst (Shows challenge (r ∷ rs) c) (sym (receive_all_stops challenge r rs c x e))
              (record {
                applied_receipts = [];
                left = r ∷ rs;
                client = c;
                split = refl;
                run = none_left;
                newest = kept;
                ended = inr (r, rs, x, refl, refl, e);
              })
        | inl (done, e) ↦
            let next = advance_token engine w r.msg.continuation_token first.1 in
            let rest = receive_all-Outcome challenge rs next in
            let passed = advance-token r.msg.continuation_token first.1 in
            subst (Shows challenge (r ∷ rs) c) (sym (receive_all_goes_on challenge r rs c e))
              (record {
                applied_receipts = r ∷ rest.applied_receipts;
                left = rest.left;
                client = rest.client;
                split = ap (λ more. r ∷ more) rest.split;
                run = then_apply (ap (λ o. (o, first.1)) e) rest.run;
                newest =
                    rest.newest
                    ∙ ap (λ t. newest_token t rest.applied_receipts)
                        (passed
                          ∙ ap
                              (λ t.
                                if r.msg.continuation_token != []
                                then r.msg.continuation_token
                                else t)
                              kept);
                ended = rest.ended;
              })
      ]

  -- A stream that opens applies a beginning of its messages, each with no error, and leaves the token of
  -- the newest of these (the client's own where they carry none). Either these are all the messages, and
  -- the stream's end is what the stream reports; or the next message fails, and the stream reports the
  -- token as refused with that message's error.
  pub stream-token :
      (k : Connection engine) (c : Client engine) (challenge : Str)
      → k.challenge ≡ some challenge
      → k.open_error ≡ none
      → (done left : List (Receipt engine)) × (d : Client engine) × (k.receipts ≡ done ++ left)
        × AreApplied challenge (mark_stream_open engine k.opened_at c) done d
        × ((stream engine w k c).2.continuation_token ≡ newest_token c.continuation_token done)
        × (((left ≡ [])
              × ((stream engine w k c).1
                  ≡ elim k.end_error [ none ↦ none | some x ↦ some (call_failed x) ]))
            ⊎ ((r : Receipt engine) × (more : List (Receipt engine)) × (x : SyncError engine)
                × (left ≡ r ∷ more)
                × ((applied engine w challenge r d).0 ≡ err x)
                × ((stream engine w k c).0 ≡ true)
                × ((stream engine w k c).1 ≡ some (apply_failed x))))
  unfolding stream
  stream-token k c challenge given opens =
      let out = receive_all-Outcome challenge k.receipts (mark_stream_open engine k.opened_at c) in
      (
        out.applied_receipts,
        out.left,
        out.client,
        out.split,
        out.run,
        ground (arith, given, opens, out.newest),
        elim out.ended [
          | inl (all, fine) ↦ inl (all, ground (arith, given, opens, fine))
          | inr (r, more, x, e, failed, h) ↦ inr (
            r,
            more,
            x,
            e,
            h,
            ground (arith, given, opens, failed),
            ground (arith, given, opens, failed),
          )
        ],
      )
