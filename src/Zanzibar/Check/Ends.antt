-- ===== src/Zanzibar/Check/Ends.antt =====
-- The traversal ends: its depth is bounded by the number of visit keys that a query can reach
-- (zanzibar/check/checker.go).
use atol_sdk_go.Prelude.{
  ℕ, zero, suc, ◌≤◌, ◌<◌, Bool, true, false, ◌≡◌, refl, subst, ◌≢◌, inl, inr, List, [], ◌∷◌, some,
  Str, str_dec, lookup, length, Member, err, Option-cases, Result-cases, Bool-cases, if◌then◌else◌,
  arith,
}
use atol_sdk_go.Zanzibar.Model.Types.{RewriteRule, Model, TupleFilter}
use atol_sdk_go.Zanzibar.Store.Memory.{StoreError}
use atol_sdk_go.Zanzibar.Model.Keys.{tuple_key}
use atol_sdk_go.Zanzibar.Check.Checker.{
  TupleReader, Context, ContextError, CheckError, Answer, found, failed, out_of_fuel, Query, Visit,
  Search, contains, proceed, any_found, direct_filter, from_filter, computed_query, userset_query,
  lookup_query, is_nonempty, direct_check_failed, read_usersets_failed, read_from_failed,
  direct_check, userset_expansion, tuple_to_userset, direct_step, computed_step, lookup_step,
  rewrite, walk, enter, check_in,
}
use atol_sdk_go.Zanzibar.Check.Grants.{HasRule, Leads, userset, computed, from_lookup}

-- The keys of the list that are not visited yet.
pub unseen : List Str → List Str → ℕ
unseen [] vs = 0
unseen (u ∷ us) vs = if contains u vs then unseen us vs else suc (unseen us vs)

pub unseen-le-length : (us vs : List Str) → unseen us vs ≤ length us
unfolding unseen
unseen-le-length [] vs = omega arith
unseen-le-length (u ∷ us) vs = ground (arith, unseen-le-length us vs)

-- The visited set of the first is part of that of the second.
abbrev pub Within : List Str → List Str → Type 0
Within vs ws = (k : Str) → contains k vs ≡ true → contains k ws ≡ true

unseen_mono : (us vs ws : List Str) → Within vs ws → unseen us ws ≤ unseen us vs
unfolding unseen
unseen_mono [] vs ws h = omega arith
unseen_mono (u ∷ us) vs ws h = ground (arith, unseen_mono us vs ws h, h u)

Within-cons : (k : Str) (vs : List Str) → Within vs (k ∷ vs)
Within-cons k vs j h = ground arith

unseen-mark :
    (us : List Str) (k : Str) (vs : List Str)
    → Member k us
    → contains k vs ≡ false
    → unseen us (k ∷ vs) < unseen us vs
unfolding unseen
unseen-mark [] k vs m e = absurd m
unseen-mark (u ∷ us) k vs (inl here) e =
    ground (arith, unseen_mono us vs (k ∷ vs) (Within-cons k vs))
unseen-mark (u ∷ us) k vs (inr later) e = ground (arith, unseen-mark us k vs later e)

-- The search has an answer, it fails only where `F` holds, and the visited set only grows.
pub record IsDone (F : Type 0) (v : Visit) (r : Answer × Visit) : Type 0 where
  pub excused : (e : CheckError) → r.0 ≡ failed e → F
  pub answered : r.0 ≢ out_of_fuel
  pub grown : Within v.visited r.1.visited

module _ (F : Type 0) (us : List Str) where
  -- With fewer than `n` keys unseen the search is done.
  abbrev pub Ends : ℕ → Search → Type 0
  Ends n s = (v : Visit) → unseen us v.visited < n → IsDone F v (s v)

  proceed-IsDone :
      (n : ℕ) (v : Visit) (r : Answer × Visit) (k : Search)
      → unseen us v.visited < n
      → IsDone F v r
      → Ends n k
      → IsDone F v (proceed r k)
  proceed-IsDone n v (found false, w) k h d e =
      let later = e w (omega (arith, unseen_mono us v.visited w.visited d.grown)) in
      record {
        excused = later.excused;
        answered = later.answered;
        grown = λ j s. later.grown j (d.grown j s);
      }
  proceed-IsDone n v (found true, w) k h d e = d
  proceed-IsDone n v (failed x, w) k h d e = d
  proceed-IsDone n v (out_of_fuel, w) k h d e = absurd (d.answered refl)

  stays : (v : Visit) (b : Bool) → IsDone F v (found b, v)
  stays v b = record {
    excused = λ x e. absurd (ground arith);
    answered = λ x. cc;
    grown = λ k s. s;
  }

  gives_up : (v : Visit) (x : CheckError) → F → IsDone F v (failed x, v)
  gives_up v x f = record { excused = λ y e. f; answered = λ y. cc; grown = λ k s. s }

  any_found-Ends :
      {A : Type 0} (n : ℕ) (f : A → Search) (xs : List A)
      → ((x : A) → Member x xs → Ends n (f x))
      → Ends n (any_found f xs)
  unfolding any_found
  any_found-Ends n f [] h v e = stays v false
  any_found-Ends n f (x ∷ xs) h v e =
      proceed-IsDone n v (f x v) (λ w. any_found f xs w) e (h x (inl refl) v e)
        (any_found-Ends n f xs (λ y m. h y (inr m)))

module _ (F : Type 0) (m : Model) (store : TupleReader) (us : List Str) (P : Query → Type 0)
    (read_fails : (f : TupleFilter) (x : StoreError) → store.read f ≡ err x → F)
    (usersets_fail : (a b c : Str) (x : StoreError) → store.read_usersets a b c ≡ err x → F)
    (closed : (q r : Query) → P q → Leads m store q r → P r)
    (keyed : (q : Query) → P q → Member (tuple_key q) us) where
  module _ (n : ℕ) (rec : Query → Search) (ih : (q : Query) → P q → Ends F us n (rec q)) where
    usersets-Ends :
        (q : Query) (rule : RewriteRule)
        → P q
        → HasRule m store q rule
        → rule.direct ≡ true
        → Ends F us n (userset_expansion m store rec q)
    unfolding userset_expansion
    usersets-Ends q rule p has on v e =
        elim (Result-cases (store.read_usersets q.object_type q.object_id q.relation)) [
          | inr (x, read) ↦ subst (IsDone F v) (ground arith) (
              gives_up F us v (read_usersets_failed x)
                (usersets_fail q.object_type q.object_id q.relation x read))
          | inl (tuples, read) ↦ subst (IsDone F v) (ground arith) (
              any_found-Ends F us n (λ u. rec (userset_query q u)) tuples
                (λ u mem.
                  ih (userset_query q u)
                    (closed q (userset_query q u) p (userset rule u tuples has on read mem refl)))
                v e)
        ]

    direct_check-IsDone : (q : Query) (v : Visit) → IsDone F v (direct_check m store q v)
    unfolding direct_check
    direct_check-IsDone q v = elim (Result-cases (store.read (direct_filter q))) [
      | inr (x, read) ↦
          subst (IsDone F v) (ground arith)
            (gives_up F us v (direct_check_failed x) (read_fails (direct_filter q) x read))
      | inl (tuples, read) ↦ subst (IsDone F v) (ground arith) (stays F us v (is_nonempty tuples))
    ]

    direct_step-Ends :
        (q : Query) (rule : RewriteRule)
        → P q
        → HasRule m store q rule
        → Ends F us n (direct_step m store rec q rule)
    unfolding direct_step
    direct_step-Ends q rule p has v e = elim (Bool-cases rule.direct) [
      | inr off ↦ subst (IsDone F v) (ground arith) (stays F us v false)
      | inl on ↦ subst (IsDone F v) (ground arith) (
          proceed-IsDone F us n v (direct_check m store q v) (userset_expansion m store rec q) e
            (direct_check-IsDone q v) (usersets-Ends q rule p has on))
    ]

    computed_step-Ends :
        (q : Query) (rule : RewriteRule)
        → P q
        → HasRule m store q rule
        → Ends F us n (computed_step m store rec q rule)
    unfolding computed_step
    computed_step-Ends q rule p has v e = elim (str_dec rule.computed_relation []) [
      | yes empty ↦ subst (IsDone F v) (ground arith) (stays F us v false)
      | no named ↦ subst (IsDone F v) (ground arith) (
          ih (computed_query q rule.computed_relation)
            (closed q (computed_query q rule.computed_relation) p (computed rule has named refl)) v
            e)
    ]

    lookup_step-Ends :
        (q : Query) (rule : RewriteRule)
        → P q
        → HasRule m store q rule
        → Ends F us n (lookup_step m store rec q rule)
    unfolding lookup_step tuple_to_userset
    lookup_step-Ends q rule p has v e = elim (Option-cases rule.from_lookup) [
      | inl missing ↦ subst (IsDone F v) (ground arith) (stays F us v false)
      | inr (fl, present) ↦ elim (Result-cases (store.read (from_filter q fl))) [
        | inr (x, read) ↦
            subst (IsDone F v) (ground arith)
              (gives_up F us v (read_from_failed fl.from x) (read_fails (from_filter q fl) x read))
        | inl (tuples, read) ↦ subst (IsDone F v) (ground arith) (
            any_found-Ends F us n (λ ft. rec (lookup_query q fl ft)) tuples
              (λ ft mem. ih (lookup_query q fl ft) (
                closed q (lookup_query q fl ft) p
                  (from_lookup rule fl ft tuples has present read mem refl)))
              v e)
      ]
    ]

    rewrite-Ends :
        (q : Query) (rule : RewriteRule)
        → P q
        → HasRule m store q rule
        → Ends F us n (rewrite m store rec q rule)
    unfolding rewrite
    rewrite-Ends q rule p has v e =
        proceed-IsDone F us n v (direct_step m store rec q rule v)
          (λ w. proceed (computed_step m store rec q rule w) (lookup_step m store rec q rule)) e
          (direct_step-Ends q rule p has v e)
          (λ w e'.
            proceed-IsDone F us n w (computed_step m store rec q rule w)
              (lookup_step m store rec q rule) e' (computed_step-Ends q rule p has w e')
              (lookup_step-Ends q rule p has))

    walk-Ends : (q : Query) → P q → Ends F us n (walk m store rec q)
    unfolding walk
    walk-Ends q p v e = elim (Option-cases (lookup q.object_type m.types)) [
      | inl no_type ↦ subst (IsDone F v) (ground arith) (stays F us v false)
      | inr (td, has_type) ↦ elim (Option-cases (lookup q.relation td.relations)) [
        | inl no_rel ↦ subst (IsDone F v) (ground arith) (stays F us v false)
        | inr (rd, has_rel) ↦ subst (IsDone F v) (ground arith) (
            any_found-Ends F us n (rewrite m store rec q) rd.rewrites
              (λ rule mem. rewrite-Ends q rule p (td, rd, has_type, has_rel, mem)) v e)
      ]
    ]

    -- One more than the fuel of the calls below: marking the query leaves fewer keys unseen.
    enter-Ends : (q : Query) → P q → Ends F us (suc n) (enter m store rec q)
    unfolding enter
    enter-Ends q p v e = elim (Bool-cases (contains (tuple_key q) v.visited)) [
      | inl seen ↦ subst (IsDone F v) (ground arith) (stays F us v false)
      | inr fresh ↦
          let marked : Visit = record v { visited = tuple_key q ∷ v.visited } in
          let done =
            walk-Ends q p marked
              (omega (arith, unseen-mark us (tuple_key q) v.visited (keyed q p) fresh)) in
          rw (fresh, enter)
            (record {
              excused = done.excused;
              answered = done.answered;
              grown = λ k s. done.grown k (Within-cons (tuple_key q) v.visited k s);
            })
    ]

  pub check_in-Ends :
      (ctx : Context)
      → ((n : ℕ) (x : ContextError) → ctx n ≡ some x → F)
      → (fuel : ℕ) (q : Query) → P q
      → Ends F us fuel (check_in m store ctx fuel q)
  unfolding check_in
  check_in-Ends ctx ctx_fails zero q p v e = absurd (omega arith)
  check_in-Ends ctx ctx_fails (suc fuel) q p v e = elim (Option-cases (ctx v.polls)) [
    | inr (x, done) ↦
        rw (done, check_in)
          (record {
            excused = λ y e'. ctx_fails v.polls x done;
            answered = λ y. cc;
            grown = λ k s. s;
          })
    | inl live ↦
        let done =
          enter-Ends fuel (check_in m store ctx fuel)
            (λ r p'. check_in-Ends ctx ctx_fails fuel r p') q p (record v { polls = suc v.polls })
            e in
        rw (live, check_in)
          (record { excused = done.excused; answered = done.answered; grown = done.grown })
  ]
