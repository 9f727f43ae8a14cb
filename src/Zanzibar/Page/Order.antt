-- ===== src/Zanzibar/Page/Order.antt =====
-- zanzibar/store/store.go: TupleLess, the order of pages.
use atol_sdk_go.Prelude.{
  Bool, true, false, ◌≡◌, ◌≢◌, refl, List, [], ◌∷◌, Str, ◌!=◌, str_lt, str_lt_irrefl, str_lt_trans,
  str_lt_total, if◌then◌else◌, arith, Bool-cases, ap, length,
}
use atol_sdk_go.Zanzibar.Model.Types.{Tuple}

abbrev pub page_key : Tuple → List Str
page_key t =
    t.object_type ∷ t.object_id ∷ t.relation ∷ t.user_type ∷ t.user_id ∷ t.user_relation ∷ []

-- The loop over the six parts.
unfoldable pub key_less : List Str → List Str → Bool
key_less [] right = false
key_less (a ∷ left) [] = false
key_less (a ∷ left) (b ∷ right) =
    let rest = key_less left right in if a != b then str_lt a b else rest

abbrev pub tuple_less : Tuple → Tuple → Bool
tuple_less left right = key_less (page_key left) (page_key right)

key_less_irrefl : (k : List Str) → key_less k k ≡ false
unfolding key_less
key_less_irrefl [] = refl
key_less_irrefl (a ∷ k) = ground (arith, key_less_irrefl k)

key_less_trans :
    (a b c : List Str) → key_less a b ≡ true → key_less b c ≡ true → key_less a c ≡ true
unfolding key_less
key_less_trans [] b c h k = absurd (ground arith)
key_less_trans (x ∷ a) [] c h k = absurd (ground arith)
key_less_trans (x ∷ a) (y ∷ b) [] h k = absurd (ground arith)
key_less_trans (x ∷ a) (y ∷ b) (z ∷ c) h k =
    ground (arith, key_less_trans a b c, str_lt_trans x y z, str_lt_irrefl x, str_lt_trans x y x)

pub tuple_less_irrefl : (t : Tuple) → tuple_less t t ≡ false
tuple_less_irrefl t = key_less_irrefl (page_key t)

pub tuple_less_trans :
    (t u v : Tuple) → tuple_less t u ≡ true → tuple_less u v ≡ true → tuple_less t v ≡ true
tuple_less_trans t u v h k = key_less_trans (page_key t) (page_key u) (page_key v) h k

key_less_total :
    (a b : List Str) → length a ≡ length b → key_less a b ≡ false → a ≢ b → key_less b a ≡ true
unfolding key_less
key_less_total [] [] l h n = absurd (n refl)
key_less_total [] (y ∷ b) l h n = absurd (omega arith)
key_less_total (x ∷ a) [] l h n = absurd (omega arith)
key_less_total (x ∷ a) (y ∷ b) l h n =
    ground (arith, key_less_total a b, str_lt_total x y, ap (λ k. x ∷ k))

page_key_injective : (t u : Tuple) → page_key t ≡ page_key u → t ≡ u
page_key_injective t u e = ground arith

-- Of two tuples one is less, or they are one tuple.
pub tuple_less_total : (t u : Tuple) → tuple_less t u ≡ false → t ≢ u → tuple_less u t ≡ true
tuple_less_total t u h n =
    key_less_total (page_key t) (page_key u) refl h (λ e. n (page_key_injective t u e))

pub tuple_less_asym : (t u : Tuple) → tuple_less t u ≡ true → tuple_less u t ≡ false
tuple_less_asym t u h =
    ground (arith, tuple_less_trans t u t h, tuple_less_irrefl t, Bool-cases (tuple_less u t))
