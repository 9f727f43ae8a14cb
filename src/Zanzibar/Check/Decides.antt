-- ===== src/Zanzibar/Check/Decides.antt =====
-- What a call of Check returns (zanzibar/check/checker.go), over any tuple store whose reads are
-- drawn from a finite list of tuples.
use atol_sdk_go.Prelude.{
  ℕ, ◌<◌, Bool, true, false, ◌≡◌, refl, ◌≢◌, ◌↔◌, List, [], none, some, Str, Lacks, Member, length,
  err, sym, subst, arith,
}
use atol_sdk_go.Zanzibar.Model.Types.{Model, Tuple, TupleFilter}
use atol_sdk_go.Zanzibar.Model.Keys.{IsClean}
use atol_sdk_go.Zanzibar.Store.Memory.{StoreError}
use atol_sdk_go.Zanzibar.Check.Checker.{
  TupleReader, Context, ContextError, Answer, found, failed, out_of_fuel, Query, Visit, start_query,
  check_in, check,
}
use atol_sdk_go.Zanzibar.Check.Grants.{Leads, Grants}
use atol_sdk_go.Zanzibar.Check.Sound.{check_in-Finds}
use atol_sdk_go.Zanzibar.Check.Complete.{check_in-false}
use atol_sdk_go.Zanzibar.Check.Ends.{IsDone, check_in-Ends, unseen-le-length}
use atol_sdk_go.Zanzibar.Check.Universe.{
  Covers, model_relations, universe, IsReachable, start-IsReachable, IsReachable-universe,
  IsReachable-Leads, rule-Member, computed-Member, lookup-Member,
}
use mathlib.Core.Logic.{∥∥₁_elim}
use mathlib.Core.HLevel.{⊥_prop}

-- The relations of the model and the users of the tuples hold no separator of a visit key.
pub record IsPlain (m : Model) (tuples : List Tuple) : Type 0 where
  pub relations : (s : Str) → Member s (model_relations m) → Lacks b'@' s
  pub user_types : (t : Tuple) → Member t tuples → Lacks b':' t.user_type
  pub user_ids : (t : Tuple) → Member t tuples → Lacks b'#' t.user_id
  pub user_relations : (t : Tuple) → Member t tuples → Lacks b'@' t.user_relation

pub Leads-IsClean :
    (m : Model) (store : TupleReader) (tuples : List Tuple)
    → IsPlain m tuples
    → Covers store tuples
    → (q r : Query) → IsClean q
    → Leads m store q r
    → IsClean r
Leads-IsClean m store tuples plain covers q r c (Leads.userset rule us ts has d read mem e) =
    let t = covers.usersets q.object_type q.object_id q.relation ts us read mem in
    subst IsClean (sym e) (record {
      object_type = plain.user_types us t;
      object_id = plain.user_ids us t;
      relation = plain.user_relations us t;
      user_type = c.user_type;
      user_id = c.user_id;
    })
Leads-IsClean m store tuples plain covers q r c (Leads.computed rule has n e) =
    subst IsClean (sym e) (record {
      object_type = c.object_type;
      object_id = c.object_id;
      relation =
          plain.relations rule.computed_relation
            (rule-Member m tuples q store q rule rule.computed_relation has (computed-Member rule));
      user_type = c.user_type;
      user_id = c.user_id;
    })
Leads-IsClean m store tuples plain covers q r c
      (Leads.from_lookup rule fl ft ts has present read mem e) =
    let t = covers.reads _ ts ft read mem in
    subst IsClean (sym e) (record {
      object_type = plain.user_types ft t;
      object_id = plain.user_ids ft t;
      relation =
          plain.relations fl.lookup
            (rule-Member m tuples q store q rule fl.lookup has (lookup-Member rule fl present));
      user_type = c.user_type;
      user_id = c.user_id;
    })

module _ (m : Model) (store : TupleReader) (ctx : Context) (tuples : List Tuple)
    (covers : Covers store tuples) where
  reaches :
      (F : Type 0)
      → ((f : TupleFilter) (x : StoreError) → store.read f ≡ err x → F)
      → ((a b c : Str) (x : StoreError) → store.read_usersets a b c ≡ err x → F)
      → ((n : ℕ) (x : ContextError) → ctx n ≡ some x → F)
      → (fuel : ℕ) (q : Query) (v : Visit) → length (universe m tuples q) < fuel
      → IsDone F v (check_in m store ctx fuel q v)
  reaches F reads usersets live fuel q v enough =
      check_in-Ends F m store (universe m tuples q) (IsReachable m tuples q) reads usersets
        (λ r s h l. IsReachable-Leads m tuples q store r s covers h l)
        (IsReachable-universe m tuples q) ctx live fuel q (start-IsReachable m tuples q) v
        (omega (arith, unseen-le-length (universe m tuples q) v.visited))

  -- Check returns: with more fuel than there are reachable visit keys it never runs out.
  pub check_ends :
      (fuel : ℕ) (user_type user_id relation object_type object_id : Str)
      → length (universe m tuples (start_query user_type user_id relation object_type object_id))
        < fuel
      → check m store ctx fuel user_type user_id relation object_type object_id ≢ out_of_fuel
  unfolding check
  check_ends fuel ut ui r ot oi enough =
      (reaches (Unit {0}) (λ _ _ _. tt) (λ _ _ _ _ _. tt) (λ _ _ _. tt) fuel
        (start_query ut ui r ot oi) (record { visited = []; polls = 0 }) enough).answered

with_state : (p : Answer × Visit) (a : Answer) → p.0 ≡ a → p ≡ (a, p.1)
with_state p a e = λ i. (e i, p.1)

-- A check that answers true has a derivation, whatever the context and the store do.
pub check_sound :
    (m : Model) (store : TupleReader) (ctx : Context) (fuel : ℕ)
    (user_type user_id relation object_type object_id : Str)
    → check m store ctx fuel user_type user_id relation object_type object_id ≡ found true
    → Grants m store (start_query user_type user_id relation object_type object_id)
unfolding check
check_sound m store ctx fuel ut ui r ot oi e =
    let q = start_query ut ui r ot oi in
    let v : Visit = record { visited = []; polls = 0 } in
    check_in-Finds m store ctx fuel q v (check_in m store ctx fuel q v).1 (with_state _ _ e)

module _ (m : Model) (store : TupleReader) (ctx : Context) (tuples : List Tuple)
    (covers : Covers store tuples) (plain : IsPlain m tuples) where
  -- A check of a clean query that answers false has no derivation: the visited set, which is
  -- shared by all branches and keyed by strings, hides no path.
  pub check_complete :
      (fuel : ℕ) (user_type user_id relation object_type object_id : Str)
      → IsClean (start_query user_type user_id relation object_type object_id)
      → check m store ctx fuel user_type user_id relation object_type object_id ≡ found false
      → ¬ Grants m store (start_query user_type user_id relation object_type object_id)
  unfolding check
  check_complete fuel ut ui r ot oi c e =
      let q = start_query ut ui r ot oi in
      let v : Visit = record { visited = []; polls = 0 } in
      check_in-false m store ctx (Leads-IsClean m store tuples plain covers) fuel q v
        (check_in m store ctx fuel q v).1 c refl (with_state _ _ e)

  -- With a live context, a store that answers and enough fuel, Check of a clean query returns true
  -- or false, and true exactly when the query is granted.
  pub check_decides :
      ((f : TupleFilter) (x : StoreError) → store.read f ≢ err x)
      → ((a b c : Str) (x : StoreError) → store.read_usersets a b c ≢ err x)
      → ((n : ℕ) → ctx n ≡ none)
      → (fuel : ℕ) (user_type user_id relation object_type object_id : Str)
      → length (universe m tuples (start_query user_type user_id relation object_type object_id))
        < fuel
      → IsClean (start_query user_type user_id relation object_type object_id)
      → (b : Bool) × (check m store ctx fuel user_type user_id relation object_type object_id
          ≡ found b)
        × ((b ≡ true)
            ↔ ∥ Grants m store (start_query user_type user_id relation object_type object_id) ∥₁)
  check_decides reads usersets live fuel ut ui r ot oi enough c =
      answer (check m store ctx fuel ut ui r ot oi) refl
    where
      done :
          IsDone ⊥
            (record { visited = []; polls = 0 })
            (check_in m store ctx fuel
              (start_query ut ui r ot oi)
              (record { visited = []; polls = 0 }))
      done =
          reaches m store ctx tuples covers ⊥ reads usersets
            (λ n x e. absurd (ground (arith, live n))) fuel (start_query ut ui r ot oi)
            (record { visited = []; polls = 0 }) enough

      answer :
          (a : Answer)
          → check m store ctx fuel ut ui r ot oi ≡ a
          → (b : Bool) × (check m store ctx fuel ut ui r ot oi ≡ found b)
            × ((b ≡ true) ↔ ∥ Grants m store (start_query ut ui r ot oi) ∥₁)
      answer (found true) e =
          (true, e, (λ _. ∣ check_sound m store ctx fuel ut ui r ot oi e ∣₁, λ _. refl))
      answer (found false) e = (
        false,
        e,
        (
          λ x. absurd (ground arith),
          λ g. absurd (∥∥₁_elim g ⊥_prop (check_complete fuel ut ui r ot oi c e)),
        ),
      )
      answer (failed x) e = absurd (done.excused x (unfold check in e))
      answer out_of_fuel e = absurd (done.answered (unfold check in e))
