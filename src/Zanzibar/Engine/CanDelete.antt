-- ===== src/Zanzibar/Engine/CanDelete.antt =====
-- CanDeleteBounded answers what CanDelete answers (zanzibar/relationships.go).
use atol_sdk_go.Prelude.{
  ℕ, ◌<◌, leb, not, [], length, Member, Option, some, Str, Result, ok, err, if◌then◌else◌, ◌≡◌, inl,
  inr, sym, subst, arith, Result-cases,
}
use atol_sdk_go.Zanzibar.Model.Types.{Tuple, TupleFilter}
use atol_sdk_go.Zanzibar.Model.Compile.{YamlModel}
use atol_sdk_go.Zanzibar.Store.Memory.{MemoryStore, last_holder, count_direct, read}
use atol_sdk_go.Zanzibar.Store.Index.{IsFiled}
use atol_sdk_go.Zanzibar.Page.Cursor.{CursorCodec, IsPrinted}
use atol_sdk_go.Zanzibar.Engine.State.{Engine, EngineError, ModelStore, store_failed}
use atol_sdk_go.Zanzibar.Engine.Cache.{model_for_operation}
use atol_sdk_go.Zanzibar.Engine.Steps.{Recorder, request_tuple, min_holders}
use atol_sdk_go.Zanzibar.Engine.Tuples.{contains_direct, direct_holders, can_delete}
use atol_sdk_go.Zanzibar.Engine.Bounded.{
  BoundedError, engine_failed, bounded_answer, subject_filter, holders_filter, can_delete_bounded,
}
use atol_sdk_go.Zanzibar.Engine.Pages.{cands, exists-read, count-read}
use atol_sdk_go.Zanzibar.Engine.Writes.{operation-store}
use atol_sdk_go.Zanzibar.Engine.Deletes.{request_tuple-relation}

module _ (codec : CursorCodec) where
  -- The pages of a filter can be read to the end, on this fuel.
  pub record IsPaged (f : TupleFilter) (s : MemoryStore) (fuel : ℕ) : Type 0 where
    pub printed : (t : Tuple) → Member t (cands codec f s) → IsPrinted codec [] f t
    pub enough : length (cands codec f s) < fuel

  -- The last part of CanDelete.
  abbrev plain_answer : Tuple → ℕ → MemoryStore → Result EngineError (Unit {0})
  plain_answer t minimum s =
      if not (contains_direct (read (subject_filter t) s) t)
      then ok tt
      else if leb (count_direct (read (holders_filter t) s)) minimum
      then err (store_failed last_holder)
      else ok tt

  abbrev pub as_bounded : Result EngineError (Unit {0}) → Result BoundedError (Unit {0})
  as_bounded (ok done) = ok done
  as_bounded (err x) = err (engine_failed x)

  bounded_answer_lem :
      (fuel : ℕ) (t : Tuple) (minimum : ℕ) (s : MemoryStore)
      → IsFiled s.by_object_relation
      → s.materialized ≡ []
      → IsPaged (subject_filter t) s fuel
      → IsPaged (holders_filter t) s fuel
      → bounded_answer codec fuel t minimum s ≡ some (as_bounded (plain_answer t minimum s))
  unfolding bounded_answer
  bounded_answer_lem fuel t minimum s filed none_else one all = ground (
    arith,
    exists-read codec (subject_filter t) s t fuel filed none_else one.printed one.enough,
    count-read codec (holders_filter t) s minimum fuel filed none_else all.printed all.enough,
  )

  module _ (unmarshal : Str → Option YamlModel) (ms : Option ModelStore) (context : Str)
      (n : Option Recorder) where
    -- On a well filed store without materialized tuples, whose pages can be read to the end,
    -- CanDeleteBounded ends, with the answer and the engine of CanDelete.
    pub can_delete_bounded-can_delete :
        (fuel : ℕ) (user relation object : Str) (e : Engine)
        → IsFiled e.store.by_object_relation
        → e.store.materialized ≡ []
        → IsPaged (subject_filter (request_tuple user relation object)) e.store fuel
        → IsPaged (holders_filter (request_tuple user relation object)) e.store fuel
        → can_delete_bounded codec unmarshal ms context fuel user relation object e ≡ (
          some (as_bounded (can_delete unmarshal ms context n user relation object e).0),
          (can_delete unmarshal ms context n user relation object e).1,
        )
    unfolding can_delete_bounded can_delete direct_holders
    can_delete_bounded-can_delete fuel user relation object e filed none_else one all =
        let t = request_tuple user relation object in
        let e1 = (model_for_operation unmarshal ms context e).1 in
        elim (Result-cases (model_for_operation unmarshal ms context e).0) [
          | inr (x, k) ↦ ground (arith, k)
          | inl (tm, k) ↦
              let answer =
                bounded_answer_lem fuel t (min_holders tm t.object_type relation) e.store filed
                  none_else one all in
              let same_store : e1.store ≡ e.store = operation-store unmarshal ms context e in
              let answer1 =
                subst
                  (λ s.
                    bounded_answer codec fuel t (min_holders tm t.object_type relation) s
                    ≡ some (as_bounded (plain_answer t (min_holders tm t.object_type relation) s)))
                  (sym same_store) answer in
              ground (arith, k, answer1, request_tuple-relation user relation object)
        ]
