-- ===== src/Policy/Held.antt =====
-- What the fallback of an evaluation allows, of the tuples themselves (policy/engine/builtins.go,
-- fallbackCheck over zanzibar/check/checker.go).
use atol_sdk_go.Prelude.{
  ℤ, Bool, true, List, [], ◌∷◌, ◌++◌, Option, some, Str, Member-append, ok, ◌≡◌, ◌⊎◌, inl, inr,
  arith,
}
use atol_sdk_go.Zanzibar.Model.Types.{Tuple}
use atol_sdk_go.Zanzibar.Model.Keys.{IsClean, parse_user_key, parse_object_key}
use atol_sdk_go.Zanzibar.Store.Memory.{MemoryStore}
use atol_sdk_go.Zanzibar.Store.Reads.{IsValid}
use atol_sdk_go.Zanzibar.Store.Queries.{AllClean}
use atol_sdk_go.Zanzibar.Check.Checker.{Query, start_query}
use atol_sdk_go.Zanzibar.Check.Universe.{Covers}
use atol_sdk_go.Zanzibar.Check.Decides.{IsPlain}
use atol_sdk_go.Zanzibar.Check.OverMemory.{memory_reader, all_tuples, memory-Covers}
use atol_sdk_go.Zanzibar.Check.Overlay.{overlay-Covers}
use atol_sdk_go.Zanzibar.Check.Granted.{Granted, Delivers, IsNamed}
use atol_sdk_go.Zanzibar.Check.Meaning.{Grants-Granted}
use atol_sdk_go.Zanzibar.Check.Held.{StoredOr, memory-Delivers, overlay-Delivers}
use atol_sdk_go.Zanzibar.Engine.State.{Engine, TenantModel}
use atol_sdk_go.Sdk.Gate.{EvalInput, EvalResult}
use atol_sdk_go.Policy.Document.{Fields}
use atol_sdk_go.Policy.Granted.{IsModelOf, reader_of}
use atol_sdk_go.Policy.Engine.{Opa, Environment, Bundle, evaluate}
use atol_sdk_go.Policy.Decided.{IsGranted, IsDecided, IsUndecided, evaluate-derived}

-- The tuple (user, relation, object) that an input asks for.
abbrev pub asked : EvalInput Fields → Query
asked input =
    start_query (parse_user_key input.user).0 (parse_user_key input.user).1 input.relation
      (parse_object_key input.object).0 (parse_object_key input.object).1

-- The store is valid, and the tuples, the query and the model that may decide it are clean and named.
pub record IsAskable (tenant : Str) (input : EvalInput Fields) (s : MemoryStore) (after : Engine)
    : Type 0 where
  pub valid : IsValid s
  pub clean : AllClean s
  pub query : IsClean (asked input)
  pub plain :
      (t : TenantModel)
      → IsModelOf tenant after t
      → IsPlain t.model (all_tuples s ++ input.context_tuples)
  pub named :
      (t : TenantModel)
      → IsModelOf tenant after t
      → IsNamed t.model (all_tuples s ++ input.context_tuples) (asked input)

-- The stored and the ephemeral tuples and the rules of the model that the engine `after` has for the tenant
-- grant what the input asks for.
abbrev pub IsHeld : Str → EvalInput Fields → MemoryStore → Engine → Type 0
IsHeld tenant input s after =
    (t : TenantModel) × IsModelOf tenant after t
    × Granted t.model (StoredOr s input.context_tuples) (asked input)

reader-Delivers :
    (context : List Tuple) (s : MemoryStore)
    → IsValid s
    → AllClean s
    → Delivers (StoredOr s context) (reader_of context s)
reader-Delivers [] s v clean =
    let d = memory-Delivers s v clean in
    record {
      reads = λ f ts t e. ground (arith, d.reads f ts t e);
      usersets = λ q ts t a b e. ground (arith, d.usersets q ts t a b e);
    }
reader-Delivers (c ∷ cs) s v clean = overlay-Delivers s (c ∷ cs) v clean

reader-Covers :
    (context : List Tuple) (s : MemoryStore)
    → IsValid s
    → Covers (reader_of context s) (all_tuples s ++ context)
reader-Covers [] s v =
    let c = memory-Covers s v in
    record {
      reads = λ f ts t e m. (Member-append t (all_tuples s) []).1 (inl (c.reads f ts t e m));
      usersets =
          λ x y z ts t e m. (Member-append t (all_tuples s) []).1 (inl (c.usersets x y z ts t e m));
    }
reader-Covers (c ∷ cs) s v =
    overlay-Covers (memory_reader s) (c ∷ cs) (all_tuples s) (memory-Covers s v)

IsGranted-IsHeld :
    (tenant : Str) (input : EvalInput Fields) (s : MemoryStore) (after : Engine)
    → IsAskable tenant input s after
    → IsGranted tenant input s after
    → IsHeld tenant input s after
IsGranted-IsHeld tenant input s after a (t, of, g) = (
  t,
  of,
  Grants-Granted t.model (all_tuples s ++ input.context_tuples) (StoredOr s input.context_tuples)
      (reader_of input.context_tuples s) (reader-Delivers input.context_tuples s a.valid a.clean)
      (reader-Covers input.context_tuples s a.valid) (a.plain t of) (asked input) a.query
      (a.named t of) g,
)

module _ (env : Environment) (opa : Opa) where
  -- Evaluate allows only behind the serving gate, and then only where the bundle's evaluation yields a
  -- decision that allows, or, with no bundle or no decision, where the stored and the ephemeral tuples and
  -- the rules of the model that the engine has for the tenant of the context, when the evaluation is over,
  -- grant what the input asks for. An evaluation that fails, or a document that breaks the contract, is never
  -- made up for by the tuples. The store is valid, and the tuples, the query and that model are clean and
  -- named.
  pub evaluate-allowed :
      (elapsed : ℤ) (input : EvalInput Fields) (current : Option (Bundle opa)) (e : Engine)
      (r : EvalResult)
      → IsAskable env.setting.context input e.store (evaluate opa env elapsed input current e).1
      → (evaluate opa env elapsed input current e).0 ≡ ok r
      → r.allowed ≡ true
      → ((serves : Str → Bool) → env.gate ≡ some serves → serves env.setting.context ≡ true)
        × (IsDecided env opa input current e
            ⊎ (IsUndecided env opa input current e
                × IsHeld env.setting.context input e.store
                    (evaluate opa env elapsed input current e).1))
  evaluate-allowed elapsed input current e r askable h allowed =
      let after = (evaluate opa env elapsed input current e).1 in
      let (serving, granted) = evaluate-derived env opa elapsed input current e r h allowed in
      (
        serving,
        elim granted [
          | inl decided ↦ inl decided
          | inr (undecided, derived) ↦
              inr (
                undecided,
                IsGranted-IsHeld env.setting.context input e.store after askable derived,
              )
        ],
      )
