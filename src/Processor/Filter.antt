-- ===== src/Processor/Filter.antt =====
-- processor/filter.go.
use pocket_settlement_monito.Prelude.{
  String, ◌≡◌, refl, ◌∙◌, Bool, true, false, Option, none, some, List, [], ◌∷◌, any, arith,
  if◌then◌else◌,
}
use pocket_settlement_monito.Prelude.Eq.{◌=?◌, string_eq}
use pocket_settlement_monito.Prelude.Maps.{Map, get, put, get-put}

pub record SupplierFilter : Type 0 where
  pub addresses : Map String Bool
  pub monitor_all : Bool

add_all : List String → Map String Bool → Map String Bool
add_all [] m = m
add_all (addr ∷ rest) m = add_all rest (put addr true m)

unfoldable pub new_supplier_filter : List String → SupplierFilter
unfolding add_all
new_supplier_filter [] = record { addresses = []; monitor_all = true }
new_supplier_filter (addr ∷ rest) = record {
  addresses = add_all (addr ∷ rest) [];
  monitor_all = false;
}

-- A missing key reads as false.
abbrev or_false : Option Bool → Bool
or_false none = false
or_false (some b) = b

unfoldable pub matches : SupplierFilter → String → Bool
matches f supplier = if f.monitor_all then true else or_false (get supplier f.addresses)

abbrev pub is_empty : List String → Bool
is_empty [] = true
is_empty (_ ∷ _) = false

add_all-get :
    (addrs : List String) (m : Map String Bool) (a : String)
    → or_false (get a (add_all addrs m))
      ≡ (if any (λ b. b =? a) addrs then true else or_false (get a m))
unfolding add_all
add_all-get [] m a = refl
add_all-get (addr ∷ rest) m a =
    ground (arith, add_all-get rest (put addr true m) a, get-put addr a true m)

-- A filter made from no addresses lets every supplier through; one made from some lets through
-- exactly those.
pub matches-new_supplier_filter :
    (addrs : List String) (a : String)
    → matches (new_supplier_filter addrs) a
      ≡ (if is_empty addrs then true else any (λ b. b =? a) addrs)
unfolding matches new_supplier_filter get
matches-new_supplier_filter [] a = refl
matches-new_supplier_filter (addr ∷ rest) a =
    add_all-get (addr ∷ rest) [] a ∙ or_false_last (any (λ b. b =? a) (addr ∷ rest))
  where
    or_false_last : (b : Bool) → (if b then true else false) ≡ b
    or_false_last true = refl
    or_false_last false = refl
