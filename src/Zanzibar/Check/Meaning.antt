-- ===== src/Zanzibar/Check/Meaning.antt =====
-- The derivations that the checker follows (zanzibar/check/checker.go) are those that the held tuples
-- and the model have.
use atol_sdk_go.Prelude.{
  ◌≡◌, ◌≢◌, ◌↔◌, inl, inr, refl, ◌∙◌, List, [], ◌∷◌, some, Str, Member, ok, sym, subst, arith,
}
use atol_sdk_go.Zanzibar.Model.Types.{FromLookup, RewriteRule, Model, Tuple, TupleFilter}
use atol_sdk_go.Zanzibar.Model.Keys.{IsClean}
use atol_sdk_go.Zanzibar.Check.Checker.{
  TupleReader, Query, direct_filter, from_filter, userset_query,
}
use atol_sdk_go.Zanzibar.Check.Grants.{Leads, Grants, direct, through}
use atol_sdk_go.Zanzibar.Check.Universe.{Covers}
use atol_sdk_go.Zanzibar.Check.Decides.{IsPlain, Leads-IsClean}
use atol_sdk_go.Zanzibar.Check.Granted.{
  IsOn, asked_of, HasRewrite, Granted, stored, userset, computed, parent, Delivers,
  IsSpelled-HasRewrite, IsNamed,
}

some_member : (ts : List Tuple) → ts ≢ [] → (t : Tuple) × Member t ts
some_member [] full = absurd (full refl)
some_member (t ∷ ts) full = (t, inl refl)

not_empty : (ts : List Tuple) (t : Tuple) → Member t ts → ts ≢ []
not_empty ts t mem e = subst (Member t) e mem

module _ (m : Model) (tuples : List Tuple) where
  IsNamed-asked_of :
      (q : Query) (relation object_type object_id : Str)
      → IsNamed m tuples q
      → object_id ≢ []
      → IsNamed m tuples (asked_of q relation object_type object_id)
  IsNamed-asked_of q relation object_type object_id n named = record {
    spelled = n.spelled;
    ids = n.ids;
    object_id = named;
    user_type = n.user_type;
    user_id = n.user_id;
    user_relation = n.user_relation;
    bare = n.bare;
  }

  module _ (held : Tuple → Type 0) (store : TupleReader) (d : Delivers held store)
      (covers : Covers store tuples) (plain : IsPlain m tuples) where
    -- A tuple that the direct filter lets through is the query itself.
    direct-held :
        (q : Query) (rule : RewriteRule) (ts : List Tuple)
        → IsNamed m tuples q
        → HasRewrite m q rule
        → store.read (direct_filter q) ≡ ok ts
        → ts ≢ []
        → held q
    direct-held q rule ts n has read full =
        let (t, mem) = some_member ts full in
        let (ot, rel, _) = IsSpelled-HasRewrite m q rule n.spelled has in
        let (kept, fits) = (d.reads (direct_filter q) ts t read).0 mem in
        let type_same : t.user_type ≡ q.user_type = ground (arith, n.user_type) in
        let id_same : t.user_id ≡ q.user_id = ground (arith, n.user_id) in
        let bare = n.bare t (covers.reads (direct_filter q) ts t read mem) type_same id_same in
        let same : t ≡ q = ground (arith, n.object_id, n.user_relation) in subst held same kept

    from-IsOn :
        (q : Query) (rule : RewriteRule) (fl : FromLookup) (ts : List Tuple) (t : Tuple)
        → IsNamed m tuples q
        → HasRewrite m q rule
        → rule.from_lookup ≡ some fl
        → store.read (from_filter q fl) ≡ ok ts
        → Member t ts ↔ (held t × IsOn t q fl.from)
    from-IsOn q rule fl ts t n has present read =
        let (ot, rel, named) = IsSpelled-HasRewrite m q rule n.spelled has in
        let from = named fl present in
        ground (arith, d.reads (from_filter q fl) ts t read, n.object_id)

    userset-same :
        (q : Query) (us : Tuple)
        → q.user_relation ≡ []
        → userset_query q us ≡ asked_of q us.user_relation us.user_type us.user_id
    userset-same q us e = ground arith

    pub Grants-Granted :
        (q : Query) → IsClean q → IsNamed m tuples q → Grants m store q → Granted m held q
    Grants-Granted q c n (direct (rule, ts, has, on, read, full)) =
        stored rule has on (direct-held q rule ts n has read full)
    Grants-Granted q c n (through r (Leads.userset rule us ts has on read mem e) g) =
        let (kept, on_object, is_userset) =
          (d.usersets q ts us c.object_type c.object_id read).0 mem in
        let same = e ∙ userset-same q us n.user_relation in
        let known = covers.usersets q.object_type q.object_id q.relation ts us read mem in
        let clean =
          Leads-IsClean m store tuples plain covers q r c
            (Leads.userset rule us ts has on read mem e) in
        let named =
          IsNamed-asked_of q us.user_relation us.user_type us.user_id n (n.ids us known) in
        userset rule us has on kept on_object is_userset (
          subst (Granted m held) same
            (Grants-Granted r clean (subst (IsNamed m tuples) (sym same) named) g))
    Grants-Granted q c n (through r (Leads.computed rule has nonempty e) g) =
        let clean =
          Leads-IsClean m store tuples plain covers q r c (Leads.computed rule has nonempty e) in
        let named =
          IsNamed-asked_of q rule.computed_relation q.object_type q.object_id n n.object_id in
        computed rule has nonempty (
          subst (Granted m held) e
            (Grants-Granted r clean (subst (IsNamed m tuples) (sym e) named) g))
    Grants-Granted q c n (through r (Leads.from_lookup rule fl ft ts has present read mem e) g) =
        let (kept, on_object) = (from-IsOn q rule fl ts ft n has present read).0 mem in
        let known = covers.reads (from_filter q fl) ts ft read mem in
        let clean =
          Leads-IsClean m store tuples plain covers q r c
            (Leads.from_lookup rule fl ft ts has present read mem e) in
        let named = IsNamed-asked_of q fl.lookup ft.user_type ft.user_id n (n.ids ft known) in
        parent rule fl ft has present kept on_object (
          subst (Granted m held) e
            (Grants-Granted r clean (subst (IsNamed m tuples) (sym e) named) g))

    -- The store answers every read.
    pub record Answers : Type 0 where
      pub reads : (f : TupleFilter) → (ts : List Tuple) × (store.read f ≡ ok ts)
      pub usersets : (a b c : Str) → (ts : List Tuple) × (store.read_usersets a b c ≡ ok ts)

    pub Granted-Grants :
        (q : Query) → Answers → IsClean q → IsNamed m tuples q → Granted m held q → Grants m store q
    Granted-Grants q a c n (stored rule has on kept) =
        let (ts, read) = a.reads (direct_filter q) in
        direct (
          rule,
          ts,
          has,
          on,
          read,
          not_empty ts q (
              (d.reads (direct_filter q) ts q read).1
                (kept, (inr refl, inr refl, inr refl, inr refl, inr refl, inr refl))),
        )
    Granted-Grants q a c n (userset rule us has on kept on_object is_userset g) =
        let (ts, read) = a.usersets q.object_type q.object_id q.relation in
        let mem =
          (d.usersets q ts us c.object_type c.object_id read).1 (kept, on_object, is_userset) in
        let same = userset-same q us n.user_relation in
        let leads = Leads.userset rule us ts has on read mem (sym same) in
        let r = asked_of q us.user_relation us.user_type us.user_id in
        let known = covers.usersets q.object_type q.object_id q.relation ts us read mem in
        through r leads (
          Granted-Grants r a (Leads-IsClean m store tuples plain covers q r c leads)
            (IsNamed-asked_of q us.user_relation us.user_type us.user_id n (n.ids us known)) g)
    Granted-Grants q a c n (computed rule has nonempty g) =
        let r = asked_of q rule.computed_relation q.object_type q.object_id in
        let leads = Leads.computed rule has nonempty refl in
        through r leads (
          Granted-Grants r a (Leads-IsClean m store tuples plain covers q r c leads)
            (IsNamed-asked_of q rule.computed_relation q.object_type q.object_id n n.object_id) g)
    Granted-Grants q a c n (parent rule fl ft has present kept on_object g) =
        let (ts, read) = a.reads (from_filter q fl) in
        let mem = (from-IsOn q rule fl ts ft n has present read).1 (kept, on_object) in
        let r = asked_of q fl.lookup ft.user_type ft.user_id in
        let leads = Leads.from_lookup rule fl ft ts has present read mem refl in
        let known = covers.reads (from_filter q fl) ts ft read mem in
        through r leads (
          Granted-Grants r a (Leads-IsClean m store tuples plain covers q r c leads)
            (IsNamed-asked_of q fl.lookup ft.user_type ft.user_id n (n.ids ft known)) g)
