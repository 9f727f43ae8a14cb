-- ===== src/Zanzibar/Check/Misses.antt =====
-- A traversal that misses has explored all that the query leads to (zanzibar/check/checker.go).
use atol_sdk_go.Prelude.{
  true, false, ◌≡◌, refl, sym, ap, ◌∙◌, subst, ◌≢◌, inl, inr, List, [], ◌∷◌, Option, some, str_dec,
  Member, Result, ok, Option-cases, Result-cases, Bool-cases, arith,
}
use atol_sdk_go.Zanzibar.Model.Types.{FromLookup, RewriteRule, Model, Tuple}
use atol_sdk_go.Zanzibar.Model.Keys.{tuple_key, IsClean}
use atol_sdk_go.Zanzibar.Store.Memory.{StoreError}
use atol_sdk_go.Zanzibar.Check.Checker.{
  TupleReader, Answer, found, failed, out_of_fuel, Query, Visit, Search, proceed, any_found,
  direct_filter, from_filter, computed_query, userset_query, lookup_query, direct_check,
  userset_expansion, tuple_to_userset, direct_step, computed_step, lookup_step, rewrite,
}
use atol_sdk_go.Zanzibar.Check.Grants.{HasRule, Leads, userset, computed, from_lookup}
use atol_sdk_go.Zanzibar.Check.Visits.{Seen, Explored, RuleSettled, Explored-refl, Explored-trans}

proceed-false :
    (r : Answer × Visit) (k : Search) (v' : Visit)
    → proceed r k ≡ (found false, v')
    → (w : Visit) × (r ≡ (found false, w)) × (k w ≡ (found false, v'))
proceed-false (found false, v) k v' h = (v, refl, h)
proceed-false (found true, v) k v' h = absurd (ground arith)
proceed-false (failed e, v) k v' h = absurd (ground arith)
proceed-false (out_of_fuel, v) k v' h = absurd (ground arith)

ok-injective :
    (xs ys : List Tuple) → ◌≡◌ {A = Result StoreError (List Tuple)} (ok xs) (ok ys) → xs ≡ ys
ok-injective xs ys e = ground arith

same_lookup : (a b : FromLookup) → ◌≡◌ {A = Option FromLookup} (some a) (some b) → a ≡ b
same_lookup a b e = ground arith

module _ (m : Model) (store : TupleReader) where
  -- A miss of the search explores, and makes `P` hold.
  abbrev pub Misses : Search → (Visit → Type 0) → Type 0
  Misses s P = (v v' : Visit) → s v ≡ (found false, v') → Explored m store v v' × P v'

  pub any_found-Misses :
      {A : Type 0} (P : A → Visit → Type 0) (f : A → Search) (xs : List A)
      → ((x : A) (v w : Visit) → Explored m store v w → P x v → P x w)
      → ((x : A) → Member x xs → Misses (f x) (P x))
      → Misses (any_found f xs) (λ v. (x : A) → Member x xs → P x v)
  unfolding any_found
  any_found-Misses P f [] mono h v v' e =
      (subst (Explored m store v) (ground arith) (Explored-refl m store v), λ x mem. absurd mem)
  any_found-Misses {A} P f (x ∷ xs) mono h v v' e =
      let (w, first, rest) = proceed-false (f x v) (λ u. any_found f xs u) v' e in
      let (before, px) = h x (inl refl) v w first in
      let (after, pxs) = any_found-Misses P f xs mono (λ y mem. h y (inr mem)) w v' rest in
      (Explored-trans m store before after, each_of after px pxs)
    where
      each_of :
          {w : Visit}
          → Explored m store w v'
          → P x w
          → ((y : A) → Member y xs → P y v')
          → (y : A) → Member y (x ∷ xs)
          → P y v'
      each_of {w} after px pxs y (inl e) = subst (λ z. P z v') (sym e) (mono x w v' after px)
      each_of after px pxs y (inr mem) = pxs y mem

  module _ (rec : Query → Search) (ih : (q : Query) → IsClean q → Misses (rec q) (λ v. Seen v q))
      (clean : (q r : Query) → IsClean q → Leads m store q r → IsClean r) where
    usersets-Misses :
        (q : Query) (rule : RewriteRule)
        → IsClean q
        → HasRule m store q rule
        → rule.direct ≡ true
        → Misses (userset_expansion m store rec q) (λ v.
          (tuples : List Tuple)
          → store.read_usersets q.object_type q.object_id q.relation ≡ ok tuples
          → (us : Tuple) → Member us tuples
          → Seen v (userset_query q us))
    unfolding userset_expansion
    usersets-Misses q rule c has on v v' e =
        elim (Result-cases (store.read_usersets q.object_type q.object_id q.relation)) [
          | inr (x, failed_read) ↦ absurd (ground arith)
          | inl (usersets, read) ↦
              let (x, all_seen) =
                any_found-Misses (λ us u. Seen u (userset_query q us))
                  (λ us. rec (userset_query q us)) usersets
                  (λ us u w grew. grew.grows (tuple_key (userset_query q us)))
                  (λ us mem. ih (userset_query q us) (
                    clean q (userset_query q us) c (userset rule us usersets has on read mem refl)))
                  v v' (ground arith) in
              (
                x,
                λ ts again us mem.
                    all_seen us
                      (subst (Member us) (ok-injective ts usersets (sym again ∙ read)) mem),
              )
        ]

    direct_step-Misses :
        (q : Query) (rule : RewriteRule)
        → IsClean q
        → HasRule m store q rule
        → (v v' : Visit) → direct_step m store rec q rule v ≡ (found false, v')
        → Explored m store v v'
          × ((tuples : List Tuple)
              → rule.direct ≡ true
              → store.read (direct_filter q) ≡ ok tuples
              → tuples ≡ [])
          × ((us : Tuple) (tuples : List Tuple)
              → rule.direct ≡ true
              → store.read_usersets q.object_type q.object_id q.relation ≡ ok tuples
              → Member us tuples
              → Seen v' (userset_query q us))
    unfolding direct_step direct_check userset_expansion
    direct_step-Misses q rule c has v v' e = elim (Bool-cases rule.direct) [
      | inr off ↦ (
        subst (Explored m store v) (ground arith) (Explored-refl m store v),
        λ ts d read. absurd (ground arith),
        λ us ts d read mem. absurd (ground arith),
      )
      | inl on ↦
          let (w, checked, rest) =
            proceed-false (direct_check m store q v) (userset_expansion m store rec q) v'
              (ground arith) in
          let (x, all_seen) = usersets-Misses q rule c has on w v' rest in
          (
            subst (λ u. Explored m store u v') (ground arith) x,
            λ ts d read. no_tuples w ts read checked,
            λ us ts d read mem. all_seen ts read us mem,
          )
    ]
      where
        no_tuples :
            (w : Visit) (ts : List Tuple)
            → store.read (direct_filter q) ≡ ok ts
            → direct_check m store q v ≡ (found false, w)
            → ts ≡ []
        no_tuples w [] read checked = refl
        no_tuples w (t ∷ ts) read checked = absurd (ground arith)

    computed_step-Misses :
        (q : Query) (rule : RewriteRule)
        → IsClean q
        → HasRule m store q rule
        → Misses
            (computed_step m store rec q rule)
            (λ v. rule.computed_relation ≢ [] → Seen v (computed_query q rule.computed_relation))
    unfolding computed_step
    computed_step-Misses q rule c has v v' e = elim (str_dec rule.computed_relation []) [
      | yes empty ↦ (
        subst (Explored m store v) (ground arith) (Explored-refl m store v),
        λ n. absurd (n empty),
      )
      | no named ↦
          let (x, seen) =
            ih (computed_query q rule.computed_relation)
              (clean q (computed_query q rule.computed_relation) c (computed rule has named refl)) v
              v' (ground arith) in
          (x, λ _. seen)
    ]

    lookup_step-Misses :
        (q : Query) (rule : RewriteRule)
        → IsClean q
        → HasRule m store q rule
        → Misses (lookup_step m store rec q rule) (λ v.
          (fl : FromLookup) (ft : Tuple) (tuples : List Tuple)
          → rule.from_lookup ≡ some fl
          → store.read (from_filter q fl) ≡ ok tuples
          → Member ft tuples
          → Seen v (lookup_query q fl ft))
    unfolding lookup_step tuple_to_userset
    lookup_step-Misses q rule c has v v' e = elim (Option-cases rule.from_lookup) [
      | inl missing ↦ (
        subst (Explored m store v) (ground arith) (Explored-refl m store v),
        λ fl ft ts present read mem. absurd (ground arith),
      )
      | inr (fl, present) ↦ elim (Result-cases (store.read (from_filter q fl))) [
        | inr (x, failed_read) ↦ absurd (ground arith)
        | inl (tuples, read) ↦
            let (x, all_seen) =
              any_found-Misses (λ ft u. Seen u (lookup_query q fl ft))
                (λ ft. rec (lookup_query q fl ft)) tuples
                (λ ft u w grew. grew.grows (tuple_key (lookup_query q fl ft)))
                (λ ft mem. ih (lookup_query q fl ft) (
                  clean q (lookup_query q fl ft) c
                    (from_lookup rule fl ft tuples has present read mem refl)))
                v v' (ground arith) in
            (
              x,
              λ fl' ft ts present' read' mem.
                  same fl tuples present read all_seen fl' ft ts present' read' mem,
            )
      ]
    ]
      where
        same :
            (fl : FromLookup) (tuples : List Tuple)
            → rule.from_lookup ≡ some fl
            → store.read (from_filter q fl) ≡ ok tuples
            → ((ft : Tuple) → Member ft tuples → Seen v' (lookup_query q fl ft))
            → (fl' : FromLookup) (ft : Tuple) (ts : List Tuple) → rule.from_lookup ≡ some fl'
            → store.read (from_filter q fl') ≡ ok ts
            → Member ft ts
            → Seen v' (lookup_query q fl' ft)
        same fl tuples present read all_seen fl' ft ts present' read' mem =
            let agree : fl ≡ fl' = same_lookup fl fl' (sym present ∙ present') in
            subst (λ k. Seen v' (lookup_query q k ft)) agree
              (all_seen ft (
                subst (Member ft)
                  (ok-injective ts tuples
                    (sym read' ∙ ap (λ k. store.read (from_filter q k)) (sym agree) ∙ read))
                  mem))

    pub rewrite-Misses :
        (q : Query) (rule : RewriteRule)
        → IsClean q
        → HasRule m store q rule
        → Misses (rewrite m store rec q rule) (RuleSettled m store q rule)
    unfolding rewrite
    rewrite-Misses q rule c has v v' e =
        let (w, first, rest) =
          proceed-false (direct_step m store rec q rule v)
            (λ u. proceed (computed_step m store rec q rule u) (lookup_step m store rec q rule)) v'
            e in
        let (u, second, third) =
          proceed-false (computed_step m store rec q rule w) (lookup_step m store rec q rule) v'
            rest in
        let (x₁, refused, usersets) = direct_step-Misses q rule c has v w first in
        let (x₂, computed_seen) = computed_step-Misses q rule c has w u second in
        let (x₃, lookups) = lookup_step-Misses q rule c has u v' third in
        let x₂₃ = Explored-trans m store x₂ x₃ in
        (
          Explored-trans m store x₁ x₂₃,
          record {
            refused = λ ts d read. refused ts d read;
            usersets = λ us ts d read mem.
                x₂₃.grows (tuple_key (userset_query q us)) (usersets us ts d read mem);
            computed = λ n.
                x₃.grows (tuple_key (computed_query q rule.computed_relation)) (computed_seen n);
            lookups = lookups;
          },
        )
