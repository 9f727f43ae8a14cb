-- ===== src/Examples/Pages.antt =====
-- Pages of one tuple over the store with three tuples.
use atol_sdk_go.Prelude.{
  suc, Bool, pos, true, ◌≡◌, refl, ◌↔◌, inl, inr, List, [], ◌∷◌, length, Option, none, some, Str,
  bytes, str_dec, cut, lookup, insert, remove, Map, Member, arith, subst, sym, ap,
}
use atol_sdk_go.Zanzibar.Model.Types.{Tuple, TupleFilter, matches_filter}
use atol_sdk_go.Zanzibar.Model.Keys.{
  object_relation_key, tuple_key, parse_user_key, parse_object_key,
}
use atol_sdk_go.Zanzibar.Store.Memory.{MemoryStore, write_locked, scan, scan_materialized}
use atol_sdk_go.Zanzibar.Store.Index.{Holds, IsFiled, write-IsFiled}
use atol_sdk_go.Zanzibar.Page.Cursor.{
  PageCursor, key_of, tuple_of, CursorCodec, max_tuple_page_size, IsPrinted, tuple_page_scope,
}
use atol_sdk_go.Zanzibar.Page.Strict.{Strict}
use atol_sdk_go.Zanzibar.Page.Whole.{matching, all_pages, pages_deliver}
use atol_sdk_go.Zanzibar.Engine.Steps.{request_tuple}
use atol_sdk_go.Zanzibar.Engine.Tuples.{can_delete}
use atol_sdk_go.Zanzibar.Engine.Bounded.{subject_filter, holders_filter, can_delete_bounded}
use atol_sdk_go.Zanzibar.Engine.CanDelete.{IsPaged, as_bounded, can_delete_bounded-can_delete}
use atol_sdk_go.Examples.Data.{sample_store, owns, team_views, in_team, sample-IsValid}
use atol_sdk_go.Examples.Model.{parsed}
use atol_sdk_go.Examples.Engine.{sample_engine}

-- A codec that reads back the keys of the three tuples.
abbrev table : Map Tuple
table =
    (tuple_key owns, owns) ∷ (tuple_key team_views, team_views) ∷ (tuple_key in_team, in_team) ∷ []

abbrev read_key : Str → Option (PageCursor × Bool)
read_key raw = elim (lookup raw table) [
  | none ↦ none
  | some t ↦ some (record { version = pos 1; scope = []; key = key_of t }, true)
]

abbrev sample_codec : CursorCodec
sample_codec = record {
  marshal = λ c. some (tuple_key (tuple_of c.key));
  decode = read_key;
  encode_to_string = λ s. s;
  decode_string = λ s. some s;
  sha256_hex = λ s. [];
}

abbrev owned_store : MemoryStore
owned_store = write_locked owns sample_store

abbrev any_tuple : TupleFilter
any_tuple = record {
  object_type = [];
  object_id = [];
  relation = [];
  user_type = [];
  user_id = [];
  user_relation = [];
}

program : Unit {0}
unfolding str_dec cut lookup insert remove parse_user_key parse_object_key request_tuple
    write_locked object_relation_key tuple_key matches_filter scan scan_materialized
    tuple_page_scope
program = tt

owned-IsFiled : IsFiled owned_store.by_object_relation
owned-IsFiled = write-IsFiled owns sample_store sample-IsValid.filed

nothing_else : owned_store.materialized ≡ []
unfolding program
nothing_else = refl

owns-IsPrinted : (f : TupleFilter) → IsPrinted sample_codec [] f owns
unfolding program
owns-IsPrinted f = record {
  raw = tuple_key owns;
  marshalled = refl;
  unmarshalled = refl;
  decoded = refl;
  not_empty = λ e. absurd (ground arith);
  short = omega arith;
}

team_views-IsPrinted : (f : TupleFilter) → IsPrinted sample_codec [] f team_views
unfolding program
team_views-IsPrinted f = record {
  raw = tuple_key team_views;
  marshalled = refl;
  unmarshalled = refl;
  decoded = refl;
  not_empty = λ e. absurd (ground arith);
  short = omega arith;
}

in_team-IsPrinted : (f : TupleFilter) → IsPrinted sample_codec [] f in_team
unfolding program
in_team-IsPrinted f = record {
  raw = tuple_key in_team;
  marshalled = refl;
  unmarshalled = refl;
  decoded = refl;
  not_empty = λ e. absurd (ground arith);
  short = omega arith;
}

one_of-IsPrinted :
    (f : TupleFilter) (t : Tuple)
    → Member t (team_views ∷ in_team ∷ owns ∷ [])
    → IsPrinted sample_codec [] f t
one_of-IsPrinted f t (inl e) = subst (IsPrinted sample_codec [] f) (sym e) (team_views-IsPrinted f)
one_of-IsPrinted f t (inr (inl e)) =
    subst (IsPrinted sample_codec [] f) (sym e) (in_team-IsPrinted f)
one_of-IsPrinted f t (inr (inr (inl e))) =
    subst (IsPrinted sample_codec [] f) (sym e) (owns-IsPrinted f)
one_of-IsPrinted f t (inr (inr (inr e))) = absurd e

three_tuples : matching sample_codec any_tuple owned_store 1 ≡ team_views ∷ in_team ∷ owns ∷ []
unfolding program
three_tuples = refl

pages_deliver_example :
    (all : List Tuple) × (all_pages sample_codec any_tuple owned_store 1
        (suc (length (matching sample_codec any_tuple owned_store 1)))
        []
      ≡ some all)
    × Strict all
    × ((t : Tuple) → Member t all ↔ (Holds owned_store t × (matches_filter t any_tuple ≡ true)))
pages_deliver_example =
    pages_deliver sample_codec any_tuple owned_store 1 owned-IsFiled nothing_else
      (λ t m. one_of-IsPrinted any_tuple t (subst (Member t) three_tuples m)) (omega arith)
      (omega arith)

abbrev no_tuple : TupleFilter
no_tuple = record any_tuple { relation = bytes "editor" }

only_owner : matching sample_codec (subject_filter owns) owned_store max_tuple_page_size ≡ owns ∷ []
unfolding program
only_owner = refl

only_holder :
    matching sample_codec (holders_filter owns) owned_store max_tuple_page_size ≡ owns ∷ []
unfolding program
only_holder = refl

is_owner : (f : TupleFilter) (t : Tuple) → Member t (owns ∷ []) → IsPrinted sample_codec [] f t
is_owner f t (inl e) = subst (IsPrinted sample_codec [] f) (sym e) (owns-IsPrinted f)
is_owner f t (inr e) = absurd e

owner_pages : IsPaged sample_codec (subject_filter owns) owned_store 2
owner_pages = record {
  printed = λ t m. is_owner (subject_filter owns) t (subst (Member t) only_owner m);
  enough = omega (arith, ap length only_owner);
}

holder_pages : IsPaged sample_codec (holders_filter owns) owned_store 2
holder_pages = record {
  printed = λ t m. is_owner (holders_filter owns) t (subst (Member t) only_holder m);
  enough = omega (arith, ap length only_holder);
}

request : request_tuple (bytes "user:u") (bytes "owner") (bytes "doc:1") ≡ owns
unfolding program
request = refl

can_delete_bounded-can_delete_example :
    can_delete_bounded sample_codec parsed none [] 2
      (bytes "user:u")
      (bytes "owner")
      (bytes "doc:1")
      sample_engine
    ≡ (
      some (
          as_bounded sample_codec
            (can_delete parsed none [] none
              (bytes "user:u")
              (bytes "owner")
              (bytes "doc:1")
              sample_engine).0),
      (can_delete parsed none [] none
          (bytes "user:u")
          (bytes "owner")
          (bytes "doc:1")
          sample_engine).1,
    )
can_delete_bounded-can_delete_example =
    can_delete_bounded-can_delete sample_codec parsed none [] none 2 (bytes "user:u")
      (bytes "owner") (bytes "doc:1") sample_engine owned-IsFiled nothing_else
      (subst (λ t. IsPaged sample_codec (subject_filter t) owned_store 2) (sym request) owner_pages)
      (subst (λ t. IsPaged sample_codec (holders_filter t) owned_store 2) (sym request)
        holder_pages)
