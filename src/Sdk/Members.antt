-- ===== src/Sdk/Members.antt =====
-- access_list.go: ListSubjects over the engine's ListUsers, and ListMembers.
use atol_sdk_go.Prelude.{
  ℕ, Bool, Option, ◌≡◌, ◌⊎◌, inl, inr, arith, List, [], ◌∷◌, ◌++◌, Member, Member-append, none,
  some, Str, Map, lookup, Result, ok, err, map, Result-cases, Option-cases, ap, subst, ◌∙◌,
}
use atol_sdk_go.Zanzibar.Model.Types.{RelationDef, TypeDef, Model}
use atol_sdk_go.Zanzibar.Check.Listing.{ListError}
use atol_sdk_go.Zanzibar.Engine.State.{Engine, EngineError, Op}
use atol_sdk_go.Zanzibar.Engine.Cache.{get_model}
use atol_sdk_go.Zanzibar.Engine.Lists.{engine_list_users}
use atol_sdk_go.Sync.Client.State.{Setting}
use atol_sdk_go.Sdk.Decide.{parse_object}

-- Member of the source.
pub record SubjectMember : Type 0 where
  pub subject : Str
  pub relation : Str

pub data MembersError : Type 0 where
  members_without_model : MembersError
  members_of_unknown : Str → MembersError
  members_refused : Str → EngineError → MembersError
  members_failed : Str → ListError → MembersError

abbrev pub member_of : Str → Str → SubjectMember
member_of relation subject = record { subject = subject; relation = relation }

-- The loop of ListMembers; `list_subjects relation` is ListSubjects on its object.
module _ (list_subjects : Str → Op (Result ListError (List Str))) where
  -- The loop over the relations of the type.
  unfoldable pub collect_members :
      Map RelationDef
      → List SubjectMember
      → Engine
      → Result MembersError (List SubjectMember) × Engine
  collect_members [] members e = (ok members, e)
  collect_members (r ∷ rs) members e =
      let listed = list_subjects r.0 e in
      elim listed.0 [
        | err x ↦ (err (members_refused r.0 x), listed.1)
        | ok answer ↦ elim answer [
          | err x ↦ (err (members_failed r.0 x), listed.1)
          | ok subjects ↦ collect_members rs (members ++ map (member_of r.0) subjects) listed.1
        ]
      ]

  -- A subject that ListSubjects returned for a relation of the list.
  abbrev pub IsListed : Map RelationDef → SubjectMember → Type 0
  IsListed rs x =
      (d : RelationDef) × (e : Engine) × (subjects : List Str) × Member (x.relation, d) rs
      × ((list_subjects x.relation e).0 ≡ ok (ok subjects))
      × Member x.subject subjects

  map-member_of :
      (x : SubjectMember) (r : Str) (ss : List Str)
      → Member x (map (member_of r) ss)
      → (x.relation ≡ r) × Member x.subject ss
  map-member_of x r [] m = absurd m
  map-member_of x r (s ∷ ss) (inl e) = (λ i. (e i).relation, inl (λ i. (e i).subject))
  map-member_of x r (s ∷ ss) (inr m) = let (k, l) = map-member_of x r ss m in (k, inr l)

  -- Every member in the result of the loop was there before, or is a subject that ListSubjects returned
  -- for the member's relation, one of those that the loop visits.
  pub collect_members-IsListed :
      (rs : Map RelationDef) (members out : List SubjectMember) (e f : Engine) (x : SubjectMember)
      → collect_members rs members e ≡ (ok out, f)
      → Member x out
      → Member x members ⊎ IsListed rs x
  unfolding collect_members
  collect_members-IsListed [] members out e f x h k =
      let same : out ≡ members = ground (arith, h) in inl (subst (Member x) same k)
  collect_members-IsListed ((r, d) ∷ rs) members out e f x h k =
      elim (Result-cases (list_subjects r e).0) [
        | inr (y, bad) ↦ absurd (ground (arith, h, bad))
        | inl (answer, given) ↦ elim (Result-cases answer) [
          | inr (y, bad) ↦ absurd (ground (arith, h, given, bad))
          | inl (subjects, good) ↦
              let next =
                collect_members rs (members ++ map (member_of r) subjects) (list_subjects r e).1 in
              let rest : next ≡ (ok out, f) = ground (arith, h, given, good) in
              elim (collect_members-IsListed rs (members ++ map (member_of r) subjects) out
                (list_subjects r e).1 f x rest k) [
                  | inr (d', e', ss, m, g, l) ↦ inr (d', e', ss, inr m, g, l)
                  | inl both ↦
                      elim ((Member-append x members (map (member_of r) subjects)).0 both) [
                        | inl old ↦ inl old
                        | inr new ↦
                            let (same, l) = map-member_of x r subjects new in
                            inr (
                              d,
                              e,
                              subjects,
                              inl (λ i. (same i, d)),
                              ap (λ n. (list_subjects n e).0) same ∙ given ∙ ap ok good,
                              l,
                            )
                      ]
                ]
        ]
      ]

module _ (w : Setting) (gate : Option (Str → Bool)) where
  unfoldable pub list_subjects : ℕ → Str → Str → Op (Result ListError (List Str))
  list_subjects fuel relation object =
      engine_list_users w.unmarshal w.model_store w.context gate fuel relation object

  unfoldable pub list_members : ℕ → Str → Engine → Result MembersError (List SubjectMember) × Engine
  list_members fuel object e = elim (get_model e) [
    | none ↦ (err members_without_model, e)
    | some m ↦ elim (lookup (parse_object object).0 m.types) [
      | none ↦ (err (members_of_unknown (parse_object object).0), e)
      | some type_def ↦ collect_members (λ r. list_subjects fuel r object) type_def.relations [] e
    ]
  ]

  -- Every member that ListMembers returns is a subject that ListSubjects returned for a relation that the
  -- default model declares on the type of the object.
  pub list_members-IsListed :
      (fuel : ℕ) (object : Str) (out : List SubjectMember) (e f : Engine) (x : SubjectMember)
      → list_members fuel object e ≡ (ok out, f)
      → Member x out
      → (m : Model) × (t : TypeDef) × (get_model e ≡ some m)
        × (lookup (parse_object object).0 m.types ≡ some t)
        × IsListed (λ r. list_subjects fuel r object) t.relations x
  unfolding list_members
  list_members-IsListed fuel object out e f x h k = elim (Option-cases (get_model e)) [
    | inl miss ↦ absurd (ground (arith, h, miss))
    | inr (m, found) ↦ elim (Option-cases (lookup (parse_object object).0 m.types)) [
      | inl miss ↦ absurd (ground (arith, h, found, miss))
      | inr (t, declared) ↦
          let rest : collect_members (λ r. list_subjects fuel r object) t.relations [] e
              ≡ (ok out, f) =
            ground (arith, h, found, declared) in
          elim (collect_members-IsListed (λ r. list_subjects fuel r object) t.relations [] out e f x
            rest k) [ inl none_yet ↦ absurd none_yet | inr l ↦ (m, t, found, declared, l) ]
    ]
  ]
