-- ===== src/Zanzibar/Check/Listed.antt =====
-- What ListObjects lists, and where ListUsers does not end (zanzibar/check/list.go).
use atol_sdk_go.Prelude.{
  ℕ, zero, suc, Bool, true, ◌≡◌, refl, ◌≢◌, ◌↔◌, ◌⊎◌, inl, inr, List, [], ◌∷◌, ◌++◌, none, some,
  Str, ◌!=◌, lookup, Member, Member-append, Result, ok, Result-cases, Bool-cases, if◌then◌else◌,
  arith, sym, ap, ◌∙◌,
}
use atol_sdk_go.Zanzibar.Model.Types.{RewriteRule, RelationDef, TypeDef, Model, Tuple, TupleFilter}
use atol_sdk_go.Zanzibar.Check.Checker.{TupleReader, Context, Answer, found, contains, check}
use atol_sdk_go.Zanzibar.Check.Listing.{
  ListError, add_unseen, add_candidates, add_user_keys, add_users, add_computed, check_candidates,
  list_objects, list_users,
}

-- Every tuple of an object type.
abbrev pub type_filter : Str → TupleFilter
type_filter object_type = record {
  object_type = object_type;
  object_id = [];
  relation = [];
  user_type = [];
  user_id = [];
  user_relation = [];
}

add_computed-rule :
    (list : Str → Result ListError (List Str)) (rules : List RewriteRule) (result users : List Str)
    (rule : RewriteRule)
    → add_computed list rules result ≡ ok users
    → Member rule rules
    → rule.computed_relation ≢ []
    → (us : List Str) × (list rule.computed_relation ≡ ok us)
unfolding add_computed
add_computed-rule list [] result users rule h m named = absurd m
add_computed-rule list (r ∷ rules) result users rule h m named =
    elim (Result-cases (if r.computed_relation != [] then list r.computed_relation else ok [])) [
      | inr (e, k) ↦ absurd (ground arith)
      | inl (us, k) ↦ elim m [
        | inl here ↦ (us, ground arith)
        | inr later ↦
            add_computed-rule list rules (add_users us result) users rule (ground arith) later named
      ]
    ]

-- ListUsers on relations that compute from each other: where each relation of a family has a rule
-- that computes from a relation of the family, ListUsers returns no list for any of them, at any
-- depth of the recursion.
pub list_users-cyclic :
    (m : Model) (store : TupleReader) (object_type object_id : Str) (td : TypeDef)
    (cyclic : Str → Type 0)
    → lookup object_type m.types ≡ some td
    → ((r : Str)
        → cyclic r
        → (rel : RelationDef) × (rule : RewriteRule) × (lookup r td.relations ≡ some rel)
          × Member rule rel.rewrites
          × (rule.computed_relation ≢ [])
          × cyclic rule.computed_relation)
    → (fuel : ℕ) (relation : Str) (users : List Str) → cyclic relation
    → list_users m store fuel relation object_type object_id ≢ ok users
unfolding list_users
list_users-cyclic m store ot oi td cyclic known step zero relation users c e = absurd (ground arith)
list_users-cyclic m store ot oi td cyclic known step (suc fuel) relation users c e =
    let (rel, rule, found_rel, mem, named, again) = step relation c in
    elim (Result-cases (
      store.read (record {
        object_type = ot;
        object_id = oi;
        relation = relation;
        user_type = [];
        user_id = [];
        user_relation = [];
      }))) [
        | inr (x, failed_read) ↦ absurd (ground arith)
        | inl (tuples, done) ↦
            let (us, listed) =
              add_computed-rule (λ r. list_users m store fuel r ot oi) rel.rewrites
                (add_user_keys tuples []) users rule (ground arith) mem named in
            list_users-cyclic m store ot oi td cyclic known step fuel rule.computed_relation us
              again listed
      ]

contains_iff : (k : Str) (ks : List Str) → (contains k ks ≡ true) ↔ Member k ks
contains_iff k [] = ground arith
contains_iff k (j ∷ js) = ground (arith, contains_iff k js)

Member-add_unseen :
    (k j : Str) (ks : List Str) → Member k (add_unseen j ks) ↔ ((k ≡ j) ⊎ Member k ks)
Member-add_unseen k j ks = elim (Bool-cases (contains j ks)) [
  | inl seen ↦ ground (arith, contains_iff j ks)
  | inr new ↦ ground (arith, Member-append k ks (j ∷ []))
]

Member-add_candidates :
    (id : Str) (ts : List Tuple) (ids : List Str)
    → Member id (add_candidates ts ids)
      ↔ (((t : Tuple) × Member t ts × (t.object_id ≡ id)) ⊎ Member id ids)
unfolding add_candidates
Member-add_candidates id [] ids = (λ m. inr m, λ e. elim e [ inl (t, m, h) ↦ absurd m | inr m ↦ m ])
Member-add_candidates id (t ∷ ts) ids = (
  λ m. elim ((Member-add_candidates id ts (add_unseen t.object_id ids)).0 m) [
    | inl (u, later, h) ↦ inl (u, inr later, h)
    | inr first ↦ elim ((Member-add_unseen id t.object_id ids).0 first) [
      | inl e ↦ inl (t, inl refl, sym e)
      | inr old ↦ inr old
    ]
  ],
  λ e. (Member-add_candidates id ts (add_unseen t.object_id ids)).1 (elim e [
    | inl (u, inl here, h) ↦
        inr ((Member-add_unseen id t.object_id ids).1 (inl (sym h ∙ ap (λ x. x.object_id) here)))
    | inl (u, inr later, h) ↦ inl (u, later, h)
    | inr old ↦ inr ((Member-add_unseen id t.object_id ids).1 (inr old))
  ]),
)

module _ (m : Model) (store : TupleReader) where
  candidates_lem :
      (ctx : ℕ → Context) (allowed : Context → Str → Answer) (grants : Str → Bool)
      → ((round n : ℕ) → ctx round n ≡ none)
      → (round : ℕ) (ids result : List Str)
      → ((r : ℕ) (id : Str) → Member id ids → allowed (λ n. ctx r (suc n)) id ≡ found (grants id))
      → (listed : List Str) × (check_candidates m store ctx allowed round ids result ≡ ok listed)
        × ((id : Str)
            → Member id listed ↔ (Member id result ⊎ (Member id ids × (grants id ≡ true))))
  unfolding check_candidates
  candidates_lem ctx allowed grants live round [] result answers =
      (result, refl, λ id. ground arith)
  candidates_lem ctx allowed grants live round (id ∷ ids) result answers =
      elim (Bool-cases (grants id)) [
        | inl yes_it ↦
            let (listed, e, iff) =
              candidates_lem ctx allowed grants live (suc round) ids (result ++ (id ∷ []))
                (λ r j mem. answers r j (inr mem)) in
            (
              listed,
              ground (arith, live round 0, answers round id (inl refl)),
              λ j. ground (arith, iff j, Member-append j result (id ∷ [])),
            )
        | inr not_it ↦
            let (listed, e, iff) =
              candidates_lem ctx allowed grants live (suc round) ids result
                (λ r j mem. answers r j (inr mem)) in
            (
              listed,
              ground (arith, live round 0, answers round id (inl refl)),
              λ j. ground (arith, iff j),
            )
      ]

  -- ListObjects with a live context, where the read of the object type succeeds and every
  -- Check of an id that was read answers: it returns exactly the ids of the tuples read for which Check answers true.
  pub list_objects_iff :
      (ctx : ℕ → Context) (fuel : ℕ) (user_type user_id relation object_type : Str)
      (tuples : List Tuple) (grants : Str → Bool)
      → ((round n : ℕ) → ctx round n ≡ none)
      → store.read (type_filter object_type) ≡ ok tuples
      → ((round : ℕ) (id : Str)
          → ((t : Tuple) × Member t tuples × (t.object_id ≡ id))
          → check m store (λ n. ctx round (suc n)) fuel user_type user_id relation object_type id
            ≡ found (grants id))
      → (listed : List Str) × (list_objects m store ctx fuel user_type user_id relation object_type
          ≡ ok listed)
        × ((id : Str)
            → Member id listed
              ↔ (((t : Tuple) × Member t tuples × (t.object_id ≡ id)) × (grants id ≡ true)))
  unfolding list_objects
  list_objects_iff ctx fuel ut ui relation ot tuples grants live known answers =
      let (listed, e, iff) =
        candidates_lem ctx (λ c id. check m store c fuel ut ui relation ot id) grants live 0
          (add_candidates tuples []) []
          (λ r id mem. elim ((Member-add_candidates id tuples []).0 mem) [
            | inl from_tuple ↦ answers r id from_tuple
            | inr none_yet ↦ absurd none_yet
          ]) in
      (
        listed,
        ground arith,
        λ id. (
          λ h. elim ((iff id).0 h) [
            | inl none_yet ↦ absurd none_yet
            | inr (candidate, granted) ↦ elim ((Member-add_candidates id tuples []).0 candidate) [
              | inl from_tuple ↦ (from_tuple, granted)
              | inr none_yet ↦ absurd none_yet
            ]
          ],
          λ (from_tuple, granted).
              (iff id).1 (inr ((Member-add_candidates id tuples []).1 (inl from_tuple), granted)),
        ),
      )
