-- ===== src/Zanzibar/Check/Sound.antt =====
-- A check that finds the user is right: some derivation grants the query.
use atol_sdk_go.Prelude.{
  ℕ, zero, suc, true, false, ◌≡◌, refl, ◌⊎◌, inl, inr, List, [], ◌∷◌, lookup, Member, Option-cases,
  Result-cases, Bool-cases, arith,
}
use atol_sdk_go.Zanzibar.Model.Types.{RewriteRule, Model}
use atol_sdk_go.Zanzibar.Model.Keys.{tuple_key}
use atol_sdk_go.Zanzibar.Check.Checker.{
  TupleReader, Context, Answer, found, failed, out_of_fuel, Query, Visit, Search, contains, proceed,
  any_found, direct_filter, from_filter, computed_query, userset_query, lookup_query, direct_check,
  userset_expansion, tuple_to_userset, direct_step, computed_step, lookup_step, rewrite, walk,
  enter, check_in,
}
use atol_sdk_go.Zanzibar.Check.Grants.{
  HasRule, Grants, userset, computed, from_lookup, direct, through,
}

-- The search finds the user only where `P` holds.
abbrev pub Finds : Search → Type 0 → Type 0
Finds s P = (v v' : Visit) → s v ≡ (found true, v') → P

proceed-true :
    (r : Answer × Visit) (k : Search) (v' : Visit)
    → proceed r k ≡ (found true, v')
    → (r ≡ (found true, v')) ⊎ ((w : Visit) × (r ≡ (found false, w)) × (k w ≡ (found true, v')))
proceed-true (found false, v) k v' h = inr (v, refl, h)
proceed-true (found true, v) k v' h = inl h
proceed-true (failed e, v) k v' h = absurd (ground arith)
proceed-true (out_of_fuel, v) k v' h = absurd (ground arith)

any_found-Finds :
    {A : Type 0} (P : Type 0) (f : A → Search) (xs : List A)
    → ((x : A) → Member x xs → Finds (f x) P)
    → Finds (any_found f xs) P
unfolding any_found
any_found-Finds P f [] h v v' e = absurd (ground arith)
any_found-Finds P f (x ∷ xs) h v v' e = elim (proceed-true (f x v) (λ w. any_found f xs w) v' e) [
  | inl first ↦ h x (inl refl) v v' first
  | inr (w, _, later) ↦ any_found-Finds P f xs (λ y m. h y (inr m)) w v' later
]

module _ (m : Model) (store : TupleReader) (rec : Query → Search)
    (ih : (q : Query) → Finds (rec q) (Grants m store q)) where
  direct_step-Finds :
      (q : Query) (rw : RewriteRule)
      → HasRule m store q rw
      → Finds (direct_step m store rec q rw) (Grants m store q)
  unfolding direct_step direct_check userset_expansion
  direct_step-Finds q rw rule v v' e =
      elim (proceed-true (direct_check m store q v) (userset_expansion m store rec q) v' stepped) [
        | inl first ↦ elim (Result-cases (store.read (direct_filter q))) [
          | inl (tuples, read) ↦
              direct (rw, tuples, rule, is_direct, read, λ none_read. ground arith)
          | inr (x, read) ↦ absurd (ground arith)
        ]
        | inr (w, _, later) ↦
            elim (Result-cases (store.read_usersets q.object_type q.object_id q.relation)) [
              | inl (usersets, read) ↦
                  any_found-Finds (Grants m store q) (λ us. rec (userset_query q us)) usersets
                    (λ us member. λ u u' found_us.
                      through (userset_query q us)
                        (userset rw us usersets rule is_direct read member refl)
                        (ih (userset_query q us) u u' found_us))
                    w v' (ground arith)
              | inr (x, read) ↦ absurd (ground arith)
            ]
      ]
    where
      is_direct : rw.direct ≡ true
      is_direct = ground arith

      stepped :
          proceed (direct_check m store q v) (userset_expansion m store rec q) ≡ (found true, v')
      stepped = ground arith

  computed_step-Finds :
      (q : Query) (rw : RewriteRule)
      → HasRule m store q rw
      → Finds (computed_step m store rec q rw) (Grants m store q)
  unfolding computed_step
  computed_step-Finds q rw rule v v' e =
      through (computed_query q rw.computed_relation) (computed rw rule (ground arith) refl)
        (ih (computed_query q rw.computed_relation) v v' (ground arith))

  lookup_step-Finds :
      (q : Query) (rw : RewriteRule)
      → HasRule m store q rw
      → Finds (lookup_step m store rec q rw) (Grants m store q)
  unfolding lookup_step tuple_to_userset
  lookup_step-Finds q rw rule v v' e = elim (Option-cases rw.from_lookup) [
    | inl missing ↦ absurd (ground arith)
    | inr (fl, present) ↦ elim (Result-cases (store.read (from_filter q fl))) [
      | inl (tuples, read) ↦
          any_found-Finds (Grants m store q) (λ ft. rec (lookup_query q fl ft)) tuples
            (λ ft member. λ u u' found_ft.
              through (lookup_query q fl ft)
                (from_lookup rw fl ft tuples rule present read member refl)
                (ih (lookup_query q fl ft) u u' found_ft))
            v v' (ground arith)
      | inr (x, read) ↦ absurd (ground arith)
    ]
  ]

  rewrite-Finds :
      (q : Query) (rw : RewriteRule)
      → HasRule m store q rw
      → Finds (rewrite m store rec q rw) (Grants m store q)
  unfolding rewrite
  rewrite-Finds q rw rule v v' e =
      elim (proceed-true (direct_step m store rec q rw v)
        (λ w. proceed (computed_step m store rec q rw w) (lookup_step m store rec q rw)) v' e) [
          | inl first ↦ direct_step-Finds q rw rule v v' first
          | inr (w, _, rest) ↦
              elim (proceed-true (computed_step m store rec q rw w) (lookup_step m store rec q rw)
                v' rest) [
                  | inl second ↦ computed_step-Finds q rw rule w v' second
                  | inr (u, _, third) ↦ lookup_step-Finds q rw rule u v' third
                ]
        ]

  enter-Finds : (q : Query) → Finds (enter m store rec q) (Grants m store q)
  unfolding enter walk
  enter-Finds q v v' e = elim (Bool-cases (contains (tuple_key q) v.visited)) [
    | inl seen ↦ absurd (ground arith)
    | inr fresh ↦ elim (Option-cases (lookup q.object_type m.types)) [
      | inl no_type ↦ absurd (ground arith)
      | inr (type_def, has_type) ↦ elim (Option-cases (lookup q.relation type_def.relations)) [
        | inl no_relation ↦ absurd (ground arith)
        | inr (rel_def, has_relation) ↦
            any_found-Finds (Grants m store q) (rewrite m store rec q) rel_def.rewrites
              (λ rw member. rewrite-Finds q rw (type_def, rel_def, has_type, has_relation, member))
              (record v { visited = tuple_key q ∷ v.visited }) v' (ground arith)
      ]
    ]
  ]

module _ (m : Model) (store : TupleReader) (ctx : Context) where
  pub check_in-Finds :
      (fuel : ℕ) (q : Query) → Finds (check_in m store ctx fuel q) (Grants m store q)
  unfolding check_in
  check_in-Finds zero q v v' e = absurd (ground arith)
  check_in-Finds (suc fuel) q v v' e = elim (Option-cases (ctx v.polls)) [
    | inl live ↦
        enter-Finds m store (check_in m store ctx fuel) (check_in-Finds fuel) q
          (record v { polls = suc v.polls }) v' (ground arith)
    | inr (x, done) ↦ absurd (ground arith)
  ]
