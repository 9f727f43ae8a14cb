-- ===== src/Examples/Listing.antt =====
-- Listing over the sample store, and over a model whose relations compute from each other.
use atol_sdk_go.Prelude.{
  true, false, ◌≡◌, refl, ◌≢◌, ◌↔◌, ◌⊎◌, inl, inr, List, [], ◌∷◌, none, some, Str, bytes, str_dec,
  lookup, insert, Member, ok, arith, subst, sym, ap, ◌∙◌,
}
use atol_sdk_go.Zanzibar.Model.Types.{
  RewriteRule, RelationDef, TypeDef, Model, Tuple, matches_filter,
}
use atol_sdk_go.Zanzibar.Model.Keys.{object_relation_key, tuple_key}
use atol_sdk_go.Zanzibar.Store.Memory.{
  write_locked, read, read_usersets, filter_tuples, scan, scan_materialized, read_indexed,
  is_userset_of,
}
use atol_sdk_go.Zanzibar.Check.Checker.{
  found, any_found, direct_check, userset_expansion, tuple_to_userset, direct_step, computed_step,
  lookup_step, rewrite, walk, enter, check_in, check,
}
use atol_sdk_go.Zanzibar.Check.OverMemory.{memory_reader}
use atol_sdk_go.Zanzibar.Check.Listing.{list_objects, list_users}
use atol_sdk_go.Zanzibar.Check.Listed.{type_filter, list_users-cyclic, list_objects_iff}
use atol_sdk_go.Examples.Data.{sample_model, sample_store, team_views, direct_only, user_relation}

program : Unit {0}
unfolding str_dec lookup insert write_locked object_relation_key tuple_key matches_filter
    filter_tuples scan scan_materialized read_indexed read is_userset_of read_usersets any_found
    direct_check userset_expansion tuple_to_userset direct_step computed_step lookup_step rewrite
    walk enter check_in check
program = tt

docs_read : (memory_reader sample_store).read (type_filter (bytes "doc")) ≡ ok (team_views ∷ [])
unfolding program
docs_read = refl

first_allowed :
    check sample_model
      (memory_reader sample_store)
      (λ n. none)
      9
      (bytes "user")
      (bytes "u")
      (bytes "viewer")
      (bytes "doc")
      (bytes "1")
    ≡ found true
unfolding program
first_allowed = refl

only_first :
    (id : Str) → ((t : Tuple) × Member t (team_views ∷ []) × (t.object_id ≡ id)) → bytes "1" ≡ id
only_first id (t, inl e, h) = sym (ap (λ x. x.object_id) e) ∙ h
only_first id (t, inr m, h) = absurd m

list_objects_iff_example :
    (listed : List Str) × (list_objects sample_model
        (memory_reader sample_store)
        (λ round n. none)
        9
        (bytes "user")
        (bytes "u")
        (bytes "viewer")
        (bytes "doc")
      ≡ ok listed)
    × ((id : Str)
        → Member id listed
          ↔ (((t : Tuple) × Member t (team_views ∷ []) × (t.object_id ≡ id)) × (true ≡ true)))
list_objects_iff_example =
    list_objects_iff sample_model (memory_reader sample_store) (λ round n. none) 9 (bytes "user")
      (bytes "u") (bytes "viewer") (bytes "doc") (team_views ∷ []) (λ id. true) (λ round n. refl)
      docs_read
      (λ round id read_it.
        subst
          (λ x.
            check sample_model (memory_reader sample_store) (λ n. none) 9 (bytes "user") (bytes "u")
              (bytes "viewer") (bytes "doc") x
            ≡ found true)
          (only_first id read_it) first_allowed)

-- editor computes from writer, and writer from editor.
abbrev computes : Str → RewriteRule
computes r = record direct_only { direct = false; computed_relation = r }

abbrev computed_from : Str → RelationDef
computed_from r = record user_relation { rewrites = direct_only ∷ computes r ∷ [] }

abbrev cyclic_doc : TypeDef
cyclic_doc = record {
  name = bytes "doc";
  relations =
      (bytes "editor", computed_from (bytes "writer"))
      ∷ (bytes "writer", computed_from (bytes "editor"))
      ∷ [];
}

abbrev cyclic_model : Model
cyclic_model = record { version = bytes "1.0"; types = (bytes "doc", cyclic_doc) ∷ [] }

abbrev Cyclic : Str → Type 0
Cyclic r = (r ≡ bytes "editor") ⊎ (r ≡ bytes "writer")

abbrev Computes : Str → Type 0
Computes r =
    (rel : RelationDef) × (rule : RewriteRule) × (lookup r cyclic_doc.relations ≡ some rel)
    × Member rule rel.rewrites
    × (rule.computed_relation ≢ [])
    × Cyclic rule.computed_relation

editor_known : lookup (bytes "editor") cyclic_doc.relations ≡ some (computed_from (bytes "writer"))
unfolding program
editor_known = refl

writer_known : lookup (bytes "writer") cyclic_doc.relations ≡ some (computed_from (bytes "editor"))
unfolding program
writer_known = refl

doc_known : lookup (bytes "doc") cyclic_model.types ≡ some cyclic_doc
unfolding program
doc_known = refl

each-Computes : (r : Str) → Cyclic r → Computes r
each-Computes r (inl e) = subst Computes (sym e) (
  computed_from (bytes "writer"),
  computes (bytes "writer"),
  editor_known,
  inr (inl refl),
  (λ x. absurd (ground arith)),
  inr refl,
)
each-Computes r (inr e) = subst Computes (sym e) (
  computed_from (bytes "editor"),
  computes (bytes "editor"),
  writer_known,
  inr (inl refl),
  (λ x. absurd (ground arith)),
  inl refl,
)

list_users-cyclic_example :
    list_users cyclic_model
      (memory_reader sample_store)
      7
      (bytes "editor")
      (bytes "doc")
      (bytes "1")
    ≢ ok []
list_users-cyclic_example =
    list_users-cyclic cyclic_model (memory_reader sample_store) (bytes "doc") (bytes "1") cyclic_doc
      Cyclic doc_known each-Computes 7 (bytes "editor") [] (inl refl)
