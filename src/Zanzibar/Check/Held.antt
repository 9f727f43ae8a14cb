-- ===== src/Zanzibar/Check/Held.antt =====
-- Check over a MemoryStore against the tuples that the store holds (zanzibar/check/checker.go over
-- zanzibar/store/memory.go), and CheckWithContext against these and the ephemeral tuples.
use atol_sdk_go.Prelude.{
  ℕ, Bool, true, ◌≡◌, refl, ◌↔◌, ◌≢◌, ◌⊎◌, List, [], ◌++◌, filter, none, Str, Member, Member-append,
  Member-filter, subst, arith,
}
use atol_sdk_go.Zanzibar.Model.Types.{Model, Tuple, TupleFilter, matches_filter}
use atol_sdk_go.Zanzibar.Model.Keys.{IsClean}
use atol_sdk_go.Zanzibar.Store.Memory.{MemoryStore, read, read_usersets, is_userset_of}
use atol_sdk_go.Zanzibar.Store.Index.{Holds}
use atol_sdk_go.Zanzibar.Store.Reads.{Materialized, IsValid}
use atol_sdk_go.Zanzibar.Store.Queries.{AllClean, read_iff, read_usersets_iff}
use atol_sdk_go.Zanzibar.Check.Checker.{TupleReader, Context, found, start_query, Query, check}
use atol_sdk_go.Zanzibar.Check.Universe.{Covers, fuel_for}
use atol_sdk_go.Zanzibar.Check.Decides.{IsPlain, check_sound}
use atol_sdk_go.Zanzibar.Check.OverMemory.{
  memory_reader, all_tuples, memory-Covers, memory_check_derives,
}
use atol_sdk_go.Zanzibar.Check.ContextStore.{
  context_read, context_read_usersets, new_context_tuple_store, check_with_context,
}
use atol_sdk_go.Zanzibar.Check.Overlay.{overlay-Covers, check_with_context_derives}
use atol_sdk_go.Zanzibar.Check.Granted.{Granted, IsOn, Fits, Delivers, IsNamed}
use mathlib.Core.Logic.{∥∥₁_map}
use atol_sdk_go.Zanzibar.Check.Meaning.{Grants-Granted, Granted-Grants, Answers}

-- The index or a materializer holds the tuple.
abbrev pub Stored : MemoryStore → Tuple → Type 0
Stored s t = Holds s t ⊎ Materialized s t

matches_iff : (t : Tuple) (f : TupleFilter) → (matches_filter t f ≡ true) ↔ Fits t f
unfolding matches_filter
matches_iff t f = ground arith

userset_iff :
    (q : Query) (t : Tuple)
    → (is_userset_of q.object_type q.object_id q.relation t ≡ true)
      ↔ (IsOn t q q.relation × (t.user_relation ≢ []))
unfolding is_userset_of
userset_iff q t = ground arith

pub memory-Delivers :
    (s : MemoryStore) → IsValid s → AllClean s → Delivers (Stored s) (memory_reader s)
memory-Delivers s v clean = record {
  reads = λ f ts t e.
      let same : read f s ≡ ts = ground arith in
      subst (λ xs. Member t xs ↔ (Stored s t × Fits t f)) same
        (ground (arith, read_iff f s t v, matches_iff t f));
  usersets = λ q ts t a b e.
      let same : read_usersets q.object_type q.object_id q.relation s ≡ ts = ground arith in
      subst (λ xs. Member t xs ↔ (Stored s t × IsOn t q q.relation × (t.user_relation ≢ []))) same
        (ground (
          arith,
          read_usersets_iff q.object_type q.object_id q.relation s t v clean a b,
          userset_iff q t,
        ));
}

-- The tuples that a check with ephemeral tuples is about.
abbrev pub StoredOr : MemoryStore → List Tuple → Tuple → Type 0
StoredOr s context t = Stored s t ⊎ Member t context

pub overlay-Delivers :
    (s : MemoryStore) (context : List Tuple)
    → IsValid s
    → AllClean s
    → Delivers (StoredOr s context) (new_context_tuple_store (memory_reader s) context)
unfolding context_read context_read_usersets
overlay-Delivers s context v clean = record {
  reads = λ f ts t e.
      let same : read f s ++ filter (λ u. matches_filter u f) context ≡ ts = ground arith in
      subst (λ xs. Member t xs ↔ (StoredOr s context t × Fits t f)) same
        (ground (
          arith,
          Member-append t (read f s) (filter (λ u. matches_filter u f) context),
          Member-filter t (λ u. matches_filter u f) context,
          read_iff f s t v,
          matches_iff t f,
        ));
  usersets = λ q ts t a b e.
      let asked = is_userset_of q.object_type q.object_id q.relation in
      let stored = read_usersets q.object_type q.object_id q.relation s in
      let same : stored ++ filter asked context ≡ ts = ground arith in
      subst
        (λ xs. Member t xs ↔ (StoredOr s context t × IsOn t q q.relation × (t.user_relation ≢ [])))
        same
        (ground (
          arith,
          Member-append t stored (filter asked context),
          Member-filter t asked context,
          read_usersets_iff q.object_type q.object_id q.relation s t v clean a b,
          userset_iff q t,
        ));
}

-- A Check that answers true is right, whatever the context and the fuel: over a store whose reads
-- deliver the held tuples, where these, the model and the query are clean and named, the held tuples
-- and the rules of the model grant the query.
pub check-Granted :
    (m : Model) (held : Tuple → Type 0) (tuples : List Tuple) (store : TupleReader) (ctx : Context)
    (fuel : ℕ) (user_type user_id relation object_type object_id : Str)
    → Delivers held store
    → Covers store tuples
    → IsPlain m tuples
    → IsClean (start_query user_type user_id relation object_type object_id)
    → IsNamed m tuples (start_query user_type user_id relation object_type object_id)
    → check m store ctx fuel user_type user_id relation object_type object_id ≡ found true
    → Granted m held (start_query user_type user_id relation object_type object_id)
check-Granted m held tuples store ctx fuel ut ui r ot oi d covers plain c n answered =
    Grants-Granted m tuples held store d covers plain (start_query ut ui r ot oi) c n
      (check_sound m store ctx fuel ut ui r ot oi answered)

-- Over a valid MemoryStore of clean tuples and with a live context, where the users of the tuples and
-- the relations of the model hold no separator, and all that the query is about has a name and no
-- stored userset is one of the user's: Check of a clean query returns within the stated fuel, and it
-- returns true exactly when the stored tuples and the rules of the model grant the query.
pub memory_check_decides :
    (m : Model) (s : MemoryStore) (ctx : Context)
    (user_type user_id relation object_type object_id : Str)
    → IsValid s
    → AllClean s
    → IsPlain m (all_tuples s)
    → ((n : ℕ) → ctx n ≡ none)
    → IsClean (start_query user_type user_id relation object_type object_id)
    → IsNamed m (all_tuples s) (start_query user_type user_id relation object_type object_id)
    → (b : Bool) × (check m
          (memory_reader s)
          ctx
          (fuel_for m (all_tuples s) (start_query user_type user_id relation object_type object_id))
          user_type
          user_id
          relation
          object_type
          object_id
        ≡ found b)
      × ((b ≡ true)
          ↔ ∥ Granted m
              (Stored s)
              (start_query user_type user_id relation object_type object_id) ∥₁)
memory_check_decides m s ctx ut ui r ot oi v clean plain live c n =
    let q = start_query ut ui r ot oi in
    let store = memory_reader s in
    let (b, answered, derived) = memory_check_derives m s ctx ut ui r ot oi v plain live c in
    let d = memory-Delivers s v clean in
    let covers = memory-Covers s v in
    let answers : Answers m (all_tuples s) (Stored s) store d covers plain = record {
      reads = λ f. (read f s, refl);
      usersets = λ x y z. (read_usersets x y z s, refl);
    } in
    (
      b,
      answered,
      (
        λ yes.
            ∥∥₁_map (derived.0 yes)
              (Grants-Granted m (all_tuples s) (Stored s) store d covers plain q c n),
        λ g. derived.1 (
            ∥∥₁_map g
              (Granted-Grants m (all_tuples s) (Stored s) store d covers plain q answers c n)),
      ),
    )

-- CheckWithContext over a valid MemoryStore, under the same conditions on the stored and the
-- ephemeral tuples together: it returns within the stated fuel, and it returns true exactly when the
-- stored and the ephemeral tuples and the rules of the model grant the query.
pub check_with_context_decides :
    (m : Model) (s : MemoryStore) (ctx : Context) (context : List Tuple)
    (user_type user_id relation object_type object_id : Str)
    → IsValid s
    → AllClean s
    → IsPlain m (all_tuples s ++ context)
    → ((n : ℕ) → ctx n ≡ none)
    → IsClean (start_query user_type user_id relation object_type object_id)
    → IsNamed m
        (all_tuples s ++ context)
        (start_query user_type user_id relation object_type object_id)
    → (b : Bool) × (check_with_context m
          (memory_reader s)
          ctx
          context
          (fuel_for m
            (all_tuples s ++ context)
            (start_query user_type user_id relation object_type object_id))
          user_type
          user_id
          relation
          object_type
          object_id
        ≡ found b)
      × ((b ≡ true)
          ↔ ∥ Granted m
              (StoredOr s context)
              (start_query user_type user_id relation object_type object_id) ∥₁)
unfolding context_read context_read_usersets
check_with_context_decides m s ctx context ut ui r ot oi v clean plain live c n =
    let q = start_query ut ui r ot oi in
    let tuples = all_tuples s ++ context in
    let held = StoredOr s context in
    let store = new_context_tuple_store (memory_reader s) context in
    let (b, answered, derived) =
      check_with_context_derives m s ctx context ut ui r ot oi v plain live c in
    let d = overlay-Delivers s context v clean in
    let covers = overlay-Covers (memory_reader s) context (all_tuples s) (memory-Covers s v) in
    let answers : Answers m tuples held store d covers plain = record {
      reads = λ f. (read f s ++ filter (λ u. matches_filter u f) context, refl);
      usersets = λ x y z. (read_usersets x y z s ++ filter (is_userset_of x y z) context, refl);
    } in
    (
      b,
      answered,
      (
        λ yes. ∥∥₁_map (derived.0 yes) (Grants-Granted m tuples held store d covers plain q c n),
        λ g.
            derived.1 (∥∥₁_map g (Granted-Grants m tuples held store d covers plain q answers c n)),
      ),
    )
