-- ===== src/Policy/Decisions.antt =====
-- Which policy decisions are accepted, and what is read from them (policy/engine/decision_contract.go).
use atol_sdk_go.Prelude.{
  Bool, false, pos, [], Option, none, some, Str, bytes, ok, Result-cases, Option-cases, ◌≡◌, ◌≢◌,
  refl, ap, sym, subst, ◌∙◌, ◌↔◌, ◌⊎◌, inl, inr, arith,
}
use atol_sdk_go.Sdk.Gate.{StepUp, EvalResult}
use atol_sdk_go.Policy.Document.{Value, boolean, text, object, Fields, get_field}
use atol_sdk_go.Policy.Contract.{
  InvalidDecision, adapter_not_object, bad_matched_rule, result_not_object, allow_not_boolean,
  reason_not_string, step_up_not_object, bad_step_up_type, method_not_string, ResultSet,
  defined_value, as_object, as_text, as_boolean, optional_text, decode_step_up, decode_value,
  decode_policy_decision,
}

module _ (blank : Str → Bool) where
  -- The contract of a decision, as a description of the document.
  abbrev pub IsOptional : Option Value → Str → Type 0
  IsOptional v s = ((v ≡ none) × (s ≡ [])) ⊎ (v ≡ some (text s))

  pub record IsStepUp (v : Option Value) (s : StepUp) : Type 0 where
    pub step_up : Fields
    pub is_object : v ≡ some (object step_up)
    pub typed : get_field (bytes "type") step_up ≡ some (text s.type_)
    pub named : blank s.type_ ≡ false
    pub by_method : IsOptional (get_field (bytes "method") step_up) s.method

  abbrev pub HasStepUp : Option Value → Option StepUp → Type 0
  HasStepUp v none = v ≡ none
  HasStepUp v (some s) = IsStepUp v s

  -- The value of a decision, apart from the rule that it matched.
  pub record IsValue (value : Fields) (d : EvalResult) : Type 0 where
    pub allows : get_field (bytes "allow") value ≡ some (boolean d.allowed)
    pub reasoned : IsOptional (get_field (bytes "reason") value) d.reason
    pub stepped : HasStepUp (get_field (bytes "step_up") value) d.step_up

  -- The fields that the decoder leaves empty.
  abbrev pub IsFresh : EvalResult → Type 0
  IsFresh d =
      (d.trace ≡ [])
      × (d.zanzibar_calls ≡ pos 0)
      × (d.eval_us ≡ pos 0)
      × (d.evaluated_rule_paths ≡ [])

  pub record IsDecision (v : Value) (d : EvalResult) : Type 0 where
    pub envelope : Fields
    pub value : Fields
    pub is_envelope : v ≡ object envelope
    pub matched : get_field (bytes "matched_rule") envelope ≡ some (text d.matched_rule)
    pub rule_named : d.matched_rule ≢ []
    pub is_result : get_field (bytes "result") envelope ≡ some (object value)
    pub is_value : IsValue value d

  as_object-ok :
      (e : InvalidDecision) (v : Option Value) (fs : Fields)
      → as_object e v ≡ ok fs
      → v ≡ some (object fs)
  as_object-ok e none fs h = absurd (ground (arith, h))
  as_object-ok e (some v) fs h = ground (arith, h)

  as_text-ok :
      (e : InvalidDecision) (v : Option Value) (s : Str) → as_text e v ≡ ok s → v ≡ some (text s)
  as_text-ok e v s h = ground (arith, h)

  as_boolean-ok :
      (e : InvalidDecision) (v : Option Value) (b : Bool)
      → as_boolean e v ≡ ok b
      → v ≡ some (boolean b)
  as_boolean-ok e v b h = ground (arith, h)

  optional_text-ok :
      (e : InvalidDecision) (v : Option Value) (s : Str) → optional_text e v ≡ ok s → IsOptional v s
  optional_text-ok e none s h = inl (refl, ground (arith, h))
  optional_text-ok e (some v) s h = inr (as_text-ok e (some v) s h)

  decode_step_up-ok :
      (v : Option Value) (s : Option StepUp) → decode_step_up blank v ≡ ok s → HasStepUp v s
  unfolding decode_step_up
  decode_step_up-ok none none h = refl
  decode_step_up-ok none (some s) h = absurd (ground (arith, h))
  decode_step_up-ok (some raw) none h = absurd (ground (arith, h))
  decode_step_up-ok (some raw) (some s) h =
      elim (Result-cases (as_object step_up_not_object (some raw))) [
        | inr (x, bad) ↦ absurd (ground (arith, h, bad))
        | inl (fs, found) ↦
            elim (Result-cases (as_text bad_step_up_type (get_field (bytes "type") fs))) [
              | inr (x, bad) ↦ absurd (ground (arith, h, found, bad))
              | inl (ty, typed) ↦
                  elim (Result-cases
                    (optional_text method_not_string (get_field (bytes "method") fs))) [
                      | inr (x, bad) ↦ absurd (ground (arith, h, found, typed, bad))
                      | inl (m, by) ↦
                          let read : (ty ≡ s.type_) × (m ≡ s.method) × (blank ty ≡ false) = (
                            ground (arith, h, found, typed, by),
                            ground (arith, h, found, typed, by),
                            ground (arith, h, found, typed, by),
                          ) in
                          record {
                            step_up = fs;
                            is_object = as_object-ok step_up_not_object (some raw) fs found;
                            typed =
                                as_text-ok bad_step_up_type (get_field (bytes "type") fs) ty typed
                                ∙ ap (λ t. some (text t)) read.0;
                            named = sym (ap blank read.0) ∙ read.2;
                            by_method = subst (IsOptional (get_field (bytes "method") fs)) read.1 (
                                optional_text-ok method_not_string (get_field (bytes "method") fs) m
                                  by);
                          }
                    ]
            ]
      ]

  decode_value-ok :
      (rule : Str) (value : Fields) (d : EvalResult)
      → decode_value blank rule value ≡ ok d
      → (d.matched_rule ≡ rule) × IsValue value d × IsFresh d
  unfolding decode_value
  decode_value-ok rule value d h =
      elim (Result-cases (as_boolean allow_not_boolean (get_field (bytes "allow") value))) [
        | inr (x, bad) ↦ absurd (ground (arith, h, bad))
        | inl (a, allows) ↦
            elim (Result-cases
              (optional_text reason_not_string (get_field (bytes "reason") value))) [
                | inr (x, bad) ↦ absurd (ground (arith, h, allows, bad))
                | inl (r, reasoned) ↦
                    elim (Result-cases (decode_step_up blank (get_field (bytes "step_up") value))) [
                      | inr (x, bad) ↦ absurd (ground (arith, h, allows, reasoned, bad))
                      | inl (s, stepped) ↦ (
                        ground (arith, h, allows, reasoned, stepped),
                        record {
                          allows =
                              as_boolean-ok allow_not_boolean (get_field (bytes "allow") value) a
                                allows
                              ∙ ap (λ b. some (boolean b))
                                  (ground (arith, h, allows, reasoned, stepped));
                          reasoned =
                              subst (IsOptional (get_field (bytes "reason") value))
                                (ground (arith, h, allows, reasoned, stepped))
                                (optional_text-ok reason_not_string
                                  (get_field (bytes "reason") value) r reasoned);
                          stepped =
                              subst (HasStepUp (get_field (bytes "step_up") value))
                                (ground (arith, h, allows, reasoned, stepped))
                                (decode_step_up-ok (get_field (bytes "step_up") value) s stepped);
                        },
                        (
                          ground (arith, h, allows, reasoned, stepped),
                          ground (arith, h, allows, reasoned, stepped),
                          ground (arith, h, allows, reasoned, stepped),
                          ground (arith, h, allows, reasoned, stepped),
                        ),
                      )
                    ]
              ]
      ]

  decode-IsDecision :
      (rs : ResultSet) (d : EvalResult)
      → decode_policy_decision blank rs ≡ ok (some d)
      → (v : Value) × (defined_value rs ≡ some v) × IsDecision v d × IsFresh d
  unfolding decode_policy_decision
  decode-IsDecision rs d h = elim (Option-cases (defined_value rs)) [
    | inl absent ↦ absurd (ground (arith, h, absent))
    | inr (v, present) ↦ elim (Result-cases (as_object adapter_not_object (some v))) [
      | inr (x, bad) ↦ absurd (ground (arith, h, present, bad))
      | inl (e, is_e) ↦
          elim (Result-cases (as_text bad_matched_rule (get_field (bytes "matched_rule") e))) [
            | inr (x, bad) ↦ absurd (ground (arith, h, present, is_e, bad))
            | inl (rule, is_rule) ↦
                elim (Result-cases (as_object result_not_object (get_field (bytes "result") e))) [
                  | inr (x, bad) ↦ absurd (ground (arith, h, present, is_e, is_rule, bad))
                  | inl (value, is_value) ↦
                      let named : rule ≢ [] =
                        λ empty. absurd (ground (arith, h, present, is_e, is_rule, empty)) in
                      let read : decode_value blank rule value ≡ ok d =
                        ground (arith, h, present, is_e, is_rule, named, is_value) in
                      let (same, fits, fresh) = decode_value-ok rule value d read in
                      (
                        v,
                        present,
                        record {
                          envelope = e;
                          value = value;
                          is_envelope =
                              ground (arith, as_object-ok adapter_not_object (some v) e is_e);
                          matched =
                              as_text-ok bad_matched_rule (get_field (bytes "matched_rule") e) rule
                                is_rule
                              ∙ ap (λ t. some (text t)) (sym same);
                          rule_named = λ empty. named (sym same ∙ empty);
                          is_result =
                              as_object-ok result_not_object (get_field (bytes "result") e) value
                                is_value;
                          is_value = fits;
                        },
                        fresh,
                      )
                ]
          ]
    ]
  ]

  optional_text-of :
      (e : InvalidDecision) (v : Option Value) (s : Str) → IsOptional v s → optional_text e v ≡ ok s
  optional_text-of e v s (inl (absent, empty)) = ground (arith, absent, empty)
  optional_text-of e v s (inr present) = ground (arith, present)

  decode_step_up-of :
      (v : Option Value) (s : Option StepUp) → HasStepUp v s → decode_step_up blank v ≡ ok s
  unfolding decode_step_up
  decode_step_up-of v none absent = ground (arith, absent)
  decode_step_up-of v (some s) w = ground (
    arith,
    w.is_object,
    w.typed,
    w.named,
    optional_text-of method_not_string (get_field (bytes "method") w.step_up) s.method w.by_method,
  )

  decode_value-of :
      (value : Fields) (d : EvalResult)
      → IsValue value d
      → IsFresh d
      → decode_value blank d.matched_rule value ≡ ok d
  unfolding decode_value
  decode_value-of value d w fresh = ground (
    arith,
    w.allows,
    fresh,
    optional_text-of reason_not_string (get_field (bytes "reason") value) d.reason w.reasoned,
    decode_step_up-of (get_field (bytes "step_up") value) d.step_up w.stepped,
  )

  IsDecision-decodes :
      (rs : ResultSet) (v : Value) (d : EvalResult)
      → defined_value rs ≡ some v
      → IsDecision v d
      → IsFresh d
      → decode_policy_decision blank rs ≡ ok (some d)
  unfolding decode_policy_decision
  IsDecision-decodes rs v d present w fresh = ground (
    arith,
    present,
    w.is_envelope,
    w.matched,
    w.rule_named,
    w.is_result,
    decode_value-of w.value d w.is_value fresh,
  )

  -- A decision is read exactly where the document satisfies the contract: the first expression of the first
  -- result is an object with the name of a rule and a result; this allows by a Boolean, its reason is missing
  -- or a string, and its step-up is missing or an object with a type that is not blank and a method that is
  -- missing or a string. Each field of the decision is the one of the document; the rest is left empty.
  pub decode_policy_decision_iff :
      (rs : ResultSet) (d : EvalResult)
      → (decode_policy_decision blank rs ≡ ok (some d))
        ↔ ((v : Value) × (defined_value rs ≡ some v) × IsDecision v d × IsFresh d)
  decode_policy_decision_iff rs d =
      (decode-IsDecision rs d, λ (v, present, w, fresh). IsDecision-decodes rs v d present w fresh)
