-- ===== src/Zanzibar/Check/Complete.antt =====
-- A check that ends without finding the user is right: nothing grants the query
-- (zanzibar/check/checker.go).
use atol_sdk_go.Prelude.{
  ℕ, zero, suc, true, false, ◌≡◌, sym, ap, ◌∙◌, subst, inl, inr, List, [], ◌∷◌, Option, none, some,
  Str, str_dec, lookup, Member, Option-cases, Bool-cases, arith,
}
use atol_sdk_go.Zanzibar.Model.Types.{RewriteRule, RelationDef, TypeDef, Model}
use atol_sdk_go.Zanzibar.Model.Keys.{tuple_key, IsClean, tuple_key_injective}
use atol_sdk_go.Zanzibar.Check.Checker.{
  TupleReader, Context, found, Query, Visit, Search, contains, rewrite, walk, enter, check_in,
}
use atol_sdk_go.Zanzibar.Check.Grants.{HasRule, Leads, Grants}
use atol_sdk_go.Zanzibar.Check.Visits.{
  Seen, Settled, Explored, RuleSettled, Explored-refl, RuleSettled-mono, Settled-of_rules,
  not_Grants,
}
use atol_sdk_go.Zanzibar.Check.Misses.{Misses, any_found-Misses, rewrite-Misses}

same_type : (a b : TypeDef) → ◌≡◌ {A = Option TypeDef} (some a) (some b) → a ≡ b
same_type a b e = ground arith

same_relation : (a b : RelationDef) → ◌≡◌ {A = Option RelationDef} (some a) (some b) → a ≡ b
same_relation a b e = ground arith

contains-cons : (k j : Str) (js : List Str) → contains k js ≡ true → contains k (j ∷ js) ≡ true
contains-cons k j js h = ground arith

contains_head : (k : Str) (js : List Str) → contains k (k ∷ js) ≡ true
contains_head k js = ground arith

module _ (m : Model) (store : TupleReader) where
  -- The rules of a query are those of its relation definition.
  rule_of :
      (q : Query) (rule : RewriteRule) (type_def : TypeDef) (rel_def : RelationDef)
      → lookup q.object_type m.types ≡ some type_def
      → lookup q.relation type_def.relations ≡ some rel_def
      → HasRule m store q rule
      → Member rule rel_def.rewrites
  rule_of q rule td rd has_type has_rel (td', rd', known, known', mem) =
      let e = same_type td' td (sym known ∙ has_type) in
      let e' : rd' ≡ rd =
        same_relation rd' rd
          (sym known' ∙ ap (λ (t : TypeDef). lookup q.relation t.relations) e ∙ has_rel) in
      subst (λ r. Member rule r.rewrites) e' mem

  module _ (rec : Query → Search)
      (ih : (q : Query) → IsClean q → Misses m store (rec q) (λ v. Seen v q))
      (clean : (q r : Query) → IsClean q → Leads m store q r → IsClean r) where
    walk-Misses :
        (q : Query) → IsClean q → Misses m store (walk m store rec q) (λ v. Settled m store v q)
    unfolding walk
    walk-Misses q c v v' e = elim (Option-cases (lookup q.object_type m.types)) [
      | inl no_type ↦ (
        subst (Explored m store v) (ground arith) (Explored-refl m store v),
        Settled-of_rules m store q v' (λ rule (td, rd, known, _, _). absurd (ground arith)),
      )
      | inr (td, has_type) ↦ elim (Option-cases (lookup q.relation td.relations)) [
        | inl no_rel ↦ (
          subst (Explored m store v) (ground arith) (Explored-refl m store v),
          Settled-of_rules m store q v' (λ rule (td', rd', known, known', _).
              absurd (no_relation td' rd' (same_type td' td (sym known ∙ has_type)) no_rel known')),
        )
        | inr (rd, has_rel) ↦
            let (x, settled) =
              any_found-Misses m store (λ rule u. RuleSettled m store q rule u)
                (rewrite m store rec q) rd.rewrites (λ rule u w. RuleSettled-mono m store q rule)
                (λ rule mem.
                  rewrite-Misses m store rec ih clean q rule c (td, rd, has_type, has_rel, mem))
                v v' (ground arith) in
            (
              x,
              Settled-of_rules m store q v'
                  (λ rule has. settled rule (rule_of q rule td rd has_type has_rel has)),
            )
      ]
    ]
      where
        no_relation :
            {td : TypeDef} (td' : TypeDef) (rd' : RelationDef)
            → td' ≡ td
            → lookup q.relation td.relations ≡ none
            → lookup q.relation td'.relations ≡ some rd'
            → ⊥
        no_relation td' rd' e gone known = ground arith

    enter-Misses : (q : Query) → IsClean q → Misses m store (enter m store rec q) (λ v. Seen v q)
    unfolding enter
    enter-Misses q c v v' e = elim (Bool-cases (contains (tuple_key q) v.visited)) [
      | inl seen ↦
          (subst (Explored m store v) (ground arith) (Explored-refl m store v), ground arith)
      | inr fresh ↦
          let marked : Visit = record v { visited = tuple_key q ∷ v.visited } in
          let (x, done) = walk-Misses q c marked v' (ground arith) in
          (
            record {
              grows = λ k h. x.grows k (contains-cons k (tuple_key q) v.visited h);
              settled = λ p cp seen. elim (x.settled p cp seen) [
                | inr finished ↦ inr finished
                | inl here ↦ elim (str_dec (tuple_key q) (tuple_key p)) [
                  | yes same ↦
                      inr (subst (Settled m store v') (tuple_key_injective q p c cp same) done)
                  | no other ↦ inl (ground arith)
                ]
              ];
            },
            x.grows (tuple_key q) (contains_head (tuple_key q) v.visited),
          )
    ]

  module _ (ctx : Context) (clean : (q r : Query) → IsClean q → Leads m store q r → IsClean r) where
    check_in-Misses :
        (fuel : ℕ) (q : Query)
        → IsClean q
        → Misses m store (check_in m store ctx fuel q) (λ v. Seen v q)
    unfolding check_in
    check_in-Misses zero q c v v' e = absurd (ground arith)
    check_in-Misses (suc fuel) q c v v' e = elim (Option-cases (ctx v.polls)) [
      | inr (x, done) ↦ absurd (ground arith)
      | inl live ↦
          let (x, seen) =
            enter-Misses (check_in m store ctx fuel) (check_in-Misses fuel) clean q c
              (record v { polls = suc v.polls }) v' (ground arith) in
          (record { grows = x.grows; settled = x.settled }, seen)
    ]

    -- From an empty visited set, a check of a clean query that ends without finding the user
    -- refutes every derivation.
    pub check_in-false :
        (fuel : ℕ) (q : Query) (v v' : Visit)
        → IsClean q
        → v.visited ≡ []
        → check_in m store ctx fuel q v ≡ (found false, v')
        → ¬ Grants m store q
    check_in-false fuel q v v' c empty e =
        let (x, seen) = check_in-Misses fuel q c v v' e in
        not_Grants m store v v' clean empty x q c seen
