-- ===== src/Zanzibar/Check/Visits.antt =====
-- What a traversal leaves in the visited set when it does not find the user
-- (zanzibar/check/checker.go).
use atol_sdk_go.Prelude.{true, ◌≡◌, ◌≢◌, ◌⊎◌, inl, inr, List, [], some, Str, Member, ok, arith}
use atol_sdk_go.Zanzibar.Model.Types.{FromLookup, RewriteRule, Model, Tuple}
use atol_sdk_go.Zanzibar.Model.Keys.{tuple_key, IsClean}
use atol_sdk_go.Zanzibar.Check.Checker.{
  TupleReader, Query, Visit, contains, direct_filter, from_filter, computed_query, userset_query,
  lookup_query,
}
use atol_sdk_go.Zanzibar.Check.Grants.{HasRule, Direct, Leads, Grants, direct, through}

-- The query's key is in the visited set.
abbrev pub Seen : Visit → Query → Type 0
Seen v q = contains (tuple_key q) v.visited ≡ true

module _ (m : Model) (store : TupleReader) where
  -- The query is not granted directly, and all that it leads to is in the visited set.
  pub record Settled (v : Visit) (q : Query) : Type 0 where
    pub refused : ¬ Direct m store q
    pub onward : (r : Query) → Leads m store q r → Seen v r

  -- From `v` to `w` the set grew, and every clean query that is new in it is settled.
  pub record Explored (v w : Visit) : Type 0 where
    pub grows : (k : Str) → contains k v.visited ≡ true → contains k w.visited ≡ true
    pub settled : (q : Query) → IsClean q → Seen w q → Seen v q ⊎ Settled w q

  -- The same for one rule of a query.
  pub record RuleSettled (q : Query) (rw : RewriteRule) (v : Visit) : Type 0 where
    pub refused :
        (tuples : List Tuple)
        → rw.direct ≡ true
        → store.read (direct_filter q) ≡ ok tuples
        → tuples ≡ []
    pub usersets :
        (us : Tuple) (tuples : List Tuple)
        → rw.direct ≡ true
        → store.read_usersets q.object_type q.object_id q.relation ≡ ok tuples
        → Member us tuples
        → Seen v (userset_query q us)
    pub computed : rw.computed_relation ≢ [] → Seen v (computed_query q rw.computed_relation)
    pub lookups :
        (fl : FromLookup) (ft : Tuple) (tuples : List Tuple)
        → rw.from_lookup ≡ some fl
        → store.read (from_filter q fl) ≡ ok tuples
        → Member ft tuples
        → Seen v (lookup_query q fl ft)

  pub Explored-refl : (v : Visit) → Explored v v
  Explored-refl v = record { grows = λ k h. h; settled = λ q c h. inl h }

  Settled-mono : {v w : Visit} (q : Query) → Explored v w → Settled v q → Settled w q
  Settled-mono q x s = record {
    refused = s.refused;
    onward = λ r l. x.grows (tuple_key r) (s.onward r l);
  }

  pub Explored-trans : {u v w : Visit} → Explored u v → Explored v w → Explored u w
  Explored-trans a b = record {
    grows = λ k h. b.grows k (a.grows k h);
    settled = λ q c h. elim (b.settled q c h) [
      | inl seen ↦ elim (a.settled q c seen) [
        | inl old ↦ inl old
        | inr done ↦ inr (Settled-mono q b done)
      ]
      | inr done ↦ inr done
    ];
  }

  pub RuleSettled-mono :
      {v w : Visit} (q : Query) (rw : RewriteRule)
      → Explored v w
      → RuleSettled q rw v
      → RuleSettled q rw w
  RuleSettled-mono q rw x s = record {
    refused = s.refused;
    usersets = λ us ts d e h. x.grows (tuple_key (userset_query q us)) (s.usersets us ts d e h);
    computed = λ n. x.grows (tuple_key (computed_query q rw.computed_relation)) (s.computed n);
    lookups =
        λ fl ft ts p e h. x.grows (tuple_key (lookup_query q fl ft)) (s.lookups fl ft ts p e h);
  }

  -- A query with all its rules settled is settled.
  pub Settled-of_rules :
      (q : Query) (v : Visit)
      → ((rw : RewriteRule) → HasRule m store q rw → RuleSettled q rw v)
      → Settled v q
  Settled-of_rules q v rules = record {
    refused = λ (rw, ts, rule, d, read, full). full ((rules rw rule).refused ts d read);
    onward = λ r l. onward_from r l;
  }
    where
      onward_from : (r : Query) → Leads m store q r → Seen v r
      onward_from r (Leads.userset rule us ts has d read member e) =
          rw e ((rules rule has).usersets us ts d read member)
      onward_from r (Leads.computed rule has n e) = rw e ((rules rule has).computed n)
      onward_from r (Leads.from_lookup rule fl ft ts has p read member e) =
          rw e ((rules rule has).lookups fl ft ts p read member)

  first_visit :
      (v w : Visit)
      → v.visited ≡ []
      → Explored v w
      → (q : Query) → IsClean q
      → Seen w q
      → Settled w q
  first_visit v w empty x q c seen = elim (x.settled q c seen) [
    | inl before ↦ absurd (ground arith)
    | inr done ↦ done
  ]

  -- Where nothing was visited before, no visited query is granted.
  pub not_Grants :
      (v w : Visit)
      → ((q r : Query) → IsClean q → Leads m store q r → IsClean r)
      → v.visited ≡ []
      → Explored v w
      → (q : Query) → IsClean q
      → Seen w q
      → ¬ Grants m store q
  not_Grants v w clean empty x q c seen (direct d) = (first_visit v w empty x q c seen).refused d
  not_Grants v w clean empty x q c seen (through r l g) =
      not_Grants v w clean empty x r (clean q r c l) ((first_visit v w empty x q c seen).onward r l)
        g
