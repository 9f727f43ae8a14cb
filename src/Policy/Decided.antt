-- ===== src/Policy/Decided.antt =====
-- What an evaluation may allow, and what it reports (policy/engine/engine.go and builtins.go).
use atol_sdk_go.Prelude.{
  ℕ, ℤ, Bool, true, List, [], ◌∷◌, ◌++◌, length, length-append, All, Option, none, some,
  Option-cases, Str, str_dec, bytes, ok, Result-cases, ◌≡◌, ◌≢◌, refl, ◌⊎◌, inl, inr, arith, ap,
  sym, subst, ◌∙◌,
}
use atol_sdk_go.Zanzibar.Model.Types.{Tuple}
use atol_sdk_go.Zanzibar.Model.Keys.{parse_user_key, parse_object_key}
use atol_sdk_go.Zanzibar.Store.Memory.{MemoryStore}
use atol_sdk_go.Zanzibar.Check.Checker.{start_query}
use atol_sdk_go.Zanzibar.Check.Grants.{Grants}
use atol_sdk_go.Zanzibar.Engine.State.{Engine, TenantModel}
use atol_sdk_go.Policy.Granted.{IsModelOf, reader_of, check_input-granted, run_evaluation-store}
use atol_sdk_go.Sdk.Gate.{EvalInput, EvalResult}
use atol_sdk_go.Policy.Document.{text, Fields, get_field, get-set_field}
use atol_sdk_go.Policy.Contract.{ResultSet, decode_policy_decision}
use atol_sdk_go.Policy.Engine.{
  call_arguments, call_text, bool_text, Evaluation, fails, yields, asks, Opa, Environment,
  EvalState, Bundle, input_map, check_input, check_access, run_evaluation, fallback_check,
  evaluate_bundle, evaluate,
}

abbrev pub standard_names : List Str
standard_names =
    bytes "user"
    ∷ bytes "action"
    ∷ bytes "resource"
    ∷ bytes "relation"
    ∷ bytes "object"
    ∷ bytes "resource_type"
    ∷ bytes "resource_id"
    ∷ []

-- The extra input cannot replace who asks, for what, and on what: these are the input's own, and every other
-- field is that of the extra input.
pub input_map_lem :
    (input : EvalInput Fields)
    → (get_field (bytes "user") (input_map input) ≡ some (text input.user))
      × (get_field (bytes "action") (input_map input) ≡ some (text input.relation))
      × (get_field (bytes "resource") (input_map input) ≡ some (text input.object))
      × (get_field (bytes "relation") (input_map input) ≡ some (text input.relation))
      × (get_field (bytes "object") (input_map input) ≡ some (text input.object))
      × (get_field (bytes "resource_type") (input_map input) ≡ some (text input.resource_type))
      × (get_field (bytes "resource_id") (input_map input) ≡ some (text input.resource_id))
      × ((k : Str) (extra : Fields)
          → All (λ n. n ≢ k) standard_names
          → input.extra ≡ some extra
          → get_field k (input_map input) ≡ get_field k extra)
unfolding input_map str_dec
input_map_lem input = (
  simp get-set_field,
  simp get-set_field,
  simp get-set_field,
  simp get-set_field,
  simp get-set_field,
  simp get-set_field,
  simp get-set_field,
  λ k extra away given. simp get-set_field (ground (arith, away, given)),
)

-- The stored and the ephemeral tuples and the rules of the model that the engine `after` has for the tenant
-- grant the user of the input the relation on the object.
abbrev pub IsGranted : Str → EvalInput Fields → MemoryStore → Engine → Type 0
IsGranted tenant input s after =
    (t : TenantModel) × IsModelOf tenant after t
    × Grants t.model (reader_of input.context_tuples s) (
        start_query (parse_user_key input.user).0 (parse_user_key input.user).1 input.relation
          (parse_object_key input.object).0 (parse_object_key input.object).1)

module _ (env : Environment) where
  fallback_check-allowed :
      (round : ℕ) (elapsed : ℤ) (input : EvalInput Fields) (e : Engine) (r : EvalResult)
      → (fallback_check env round elapsed input e).0 ≡ ok r
      → r.allowed ≡ true
      → IsGranted env.setting.context input e.store (fallback_check env round elapsed input e).1
  unfolding fallback_check
  fallback_check-allowed round elapsed input e r h allowed =
      let (t, of, g) =
        check_input-granted env round input.context_tuples input.user input.relation input.object e
          (ground (arith, h, allowed)) in
      (t, ground (arith, h, of), g)

  check_access-traced :
      (tuples : List Tuple) (user relation object : Str) (s : EvalState) (e : Engine)
      → length s.trace ≡ s.calls
      → length (check_access env tuples user relation object s e).1.trace
        ≡ (check_access env tuples user relation object s e).1.calls
  unfolding check_access
  check_access-traced tuples user relation obj s e h =
      elim (Result-cases (check_input env s.calls tuples user relation obj e).0) [
        | inl (a, good) ↦
            rw (good, check_access)
              (omega
                (arith, length-append s.trace (call_text user relation obj (bool_text a) ∷ [])))
        | inr (x, bad) ↦
            rw (bad, check_access)
              (omega (
                arith,
                length-append s.trace
                    (call_text user relation obj (bytes "error: " ++ env.error_text x) ∷ []),
              ))
      ]

  -- After an evaluation each call of zanzibar.check has left its line of the trace.
  run_evaluation-traced :
      (tuples : List Tuple) (q : Evaluation) (s : EvalState) (e : Engine)
      → length s.trace ≡ s.calls
      → length (run_evaluation env tuples q s e).1.trace ≡ (run_evaluation env tuples q s e).1.calls
  unfolding run_evaluation
  run_evaluation-traced tuples (fails x) s e h = h
  run_evaluation-traced tuples (yields rs) s e h = h
  run_evaluation-traced tuples (asks user relation obj next) s e h =
      elim (Result-cases (call_arguments user relation obj)) [
        | inr (x, bad) ↦ rw (bad, run_evaluation) h
        | inl ((u, r, o), good) ↦
            let answered = check_access env tuples u r o s e in
            rw (good, run_evaluation)
              (run_evaluation-traced tuples (next answered.0) answered.1 answered.2
                (check_access-traced tuples u r o s e h))
      ]

  -- A decision of the policy: an evaluation of the bundle that yields a document which allows.
  abbrev pub IsDecided : (opa : Opa) → EvalInput Fields → Option (Bundle opa) → Engine → Type 0
  IsDecided opa input current e =
      (b : Bundle opa) × (rs : ResultSet) × (d : EvalResult) × (current ≡ some b)
      × ((run_evaluation env input.context_tuples (opa.eval b.modules b.store (input_map input))
            (record { calls = 0; trace = [] }) e).0
          ≡ ok rs)
      × (decode_policy_decision env.blank rs ≡ ok (some d))
      × (d.allowed ≡ true)

  -- There is no bundle, or its evaluation yields no decision.
  abbrev pub IsUndecided : (opa : Opa) → EvalInput Fields → Option (Bundle opa) → Engine → Type 0
  IsUndecided opa input current e =
      (current ≡ none)
      ⊎ ((b : Bundle opa) × (rs : ResultSet) × (current ≡ some b)
          × ((run_evaluation env input.context_tuples (opa.eval b.modules b.store (input_map input))
                (record { calls = 0; trace = [] }) e).0
              ≡ ok rs)
          × (decode_policy_decision env.blank rs ≡ ok none))

  module _ (opa : Opa) where
    evaluate_bundle-allowed :
        (elapsed : ℤ) (input : EvalInput Fields) (b : Bundle opa) (e : Engine) (r : EvalResult)
        → (evaluate_bundle opa env elapsed input b e).0 ≡ ok r
        → r.allowed ≡ true
        → IsDecided opa input (some b) e
          ⊎ (IsUndecided opa input (some b) e
              × IsGranted env.setting.context input e.store
                  (evaluate_bundle opa env elapsed input b e).1)
    unfolding evaluate_bundle
    evaluate_bundle-allowed elapsed input b e r h allowed =
        let ran =
          run_evaluation env input.context_tuples (opa.eval b.modules b.store (input_map input))
            (record { calls = 0; trace = [] }) e in
        elim (Result-cases (opa.prepare b.modules)) [
          | inr (x, bad) ↦ absurd (ground (arith, h, bad))
          | inl (done, prepared) ↦ elim (Result-cases ran.0) [
            | inr (x, bad) ↦ absurd (ground (arith, h, prepared, bad))
            | inl (rs, yielded) ↦ elim (Result-cases (decode_policy_decision env.blank rs)) [
              | inr (x, bad) ↦ absurd (ground (arith, h, prepared, yielded, bad))
              | inl (decision, read) ↦ elim (Option-cases decision) [
                | inr (d, decided) ↦ inl (
                  b,
                  rs,
                  d,
                  refl,
                  yielded,
                  read ∙ ap ok decided,
                  ground (arith, h, prepared, yielded, read, decided, allowed),
                )
                | inl undecided ↦
                    let after : (fallback_check env ran.1.calls elapsed input ran.2).1
                        ≡ (evaluate_bundle opa env elapsed input b e).1 =
                      ground (arith, prepared, yielded, read, undecided) in
                    inr (
                      inr (b, rs, refl, yielded, read ∙ ap ok undecided),
                      subst
                          (λ s.
                            IsGranted env.setting.context input s
                              (evaluate_bundle opa env elapsed input b e).1)
                          (run_evaluation-store env input.context_tuples
                            (opa.eval b.modules b.store (input_map input))
                            (record { calls = 0; trace = [] }) e)
                          (subst (IsGranted env.setting.context input ran.2.store) after (
                            fallback_check-allowed ran.1.calls elapsed input ran.2 r
                              (ground (arith, h, prepared, yielded, read, undecided)) allowed)),
                    )
              ]
            ]
          ]
        ]

    -- Evaluate allows only behind the serving gate, and then only where the bundle's evaluation yields a
    -- decision that allows, or, with no bundle or no decision, where a check derives the input from the tuples
    -- and the rules of the model that the engine has for the tenant of the context when it is over. An
    -- evaluation that fails, or a document that breaks the contract, is never made up for by the tuples.
    pub evaluate-derived :
        (elapsed : ℤ) (input : EvalInput Fields) (current : Option (Bundle opa)) (e : Engine)
        (r : EvalResult)
        → (evaluate opa env elapsed input current e).0 ≡ ok r
        → r.allowed ≡ true
        → ((serves : Str → Bool) → env.gate ≡ some serves → serves env.setting.context ≡ true)
          × (IsDecided opa input current e
              ⊎ (IsUndecided opa input current e
                  × IsGranted env.setting.context input e.store
                      (evaluate opa env elapsed input current e).1))
    unfolding evaluate
    evaluate-derived elapsed input current e r h allowed = (
      λ serves gated. ground (arith, h, gated),
      elim (Option-cases current) [
        | inl absent ↦
            let here : (fallback_check env 0 elapsed input e).1
                ≡ (evaluate opa env elapsed input current e).1 =
              ground (arith, h, absent) in
            inr (
              inl absent,
              subst (IsGranted env.setting.context input e.store) here
                  (fallback_check-allowed 0 elapsed input e r (ground (arith, h, absent)) allowed),
            )
        | inr (b, loaded) ↦
            let here : (evaluate_bundle opa env elapsed input b e).1
                ≡ (evaluate opa env elapsed input current e).1 =
              ground (arith, h, loaded) in
            subst
              (λ c.
                IsDecided opa input c e
                ⊎ (IsUndecided opa input c e
                    × IsGranted env.setting.context input e.store
                        (evaluate opa env elapsed input current e).1))
              (sym loaded)
              (subst
                (λ x.
                  IsDecided opa input (some b) e
                  ⊎ (IsUndecided opa input (some b) e
                      × IsGranted env.setting.context input e.store x))
                here
                (evaluate_bundle-allowed elapsed input b e r (ground (arith, h, loaded)) allowed))
      ],
    )
