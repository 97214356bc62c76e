-- ===== src/Config/Suppliers/Loaded.antt =====
-- The addresses that are loaded, and the filter that is made from them.
use Prim.Native.String.{String}
use pocket_settlement_monito.Prelude.{
  ◌≡◌, refl, sym, ap, ◌∙◌, Bool, true, false, inl, inr, List, [], ◌∷◌, ◌++◌, Option, any, fold,
  if◌then◌else◌, arith, Bool-cases,
}
use pocket_settlement_monito.Prelude.Eq.{◌=?◌, =?_refl, string_eq}
use pocket_settlement_monito.Prelude.Maps.{add_to}
use pocket_settlement_monito.Prelude.Exec.{Result, ok}
use pocket_settlement_monito.Subscriber.Types.{Bytes}
use pocket_settlement_monito.Processor.Filter.{
  new_supplier_filter, matches, is_empty, matches-new_supplier_filter,
}
use pocket_settlement_monito.Config.{SuppliersConfig}
use pocket_settlement_monito.Config.Suppliers.{
  explicit, deduplicate, derived_addresses, load_supplier_addresses,
}

abbrev pub holds : String → List String → Bool
holds a addrs = any (λ b. b =? a) addrs

abbrev pub Distinct : List String → Type 0
Distinct [] = Unit
Distinct (a ∷ addrs) = (holds a addrs ≡ false) × Distinct addrs

holds-append :
    (a : String) (xs ys : List String)
    → holds a (xs ++ ys) ≡ (if holds a xs then true else holds a ys)
holds-append a [] ys = refl
holds-append a (x ∷ xs) ys = ground (arith, holds-append a xs ys)

Distinct-append_one :
    (xs : List String) (a : String) → holds a xs ≡ false → Distinct xs → Distinct (xs ++ a ∷ [])
Distinct-append_one [] a new done = (refl, tt)
Distinct-append_one (x ∷ xs) a new (fresh, rest) = (
  holds-append x xs (a ∷ [])
      ∙ ground (arith, fresh, new, string_eq.beq_iff x a, string_eq.beq_iff a x),
  Distinct-append_one xs a (ground (arith, new)) rest,
)

add_to-Distinct : (a : String) (xs : List String) → Distinct xs → Distinct (add_to a xs)
unfolding add_to
add_to-Distinct a xs d = elim (Bool-cases (holds a xs)) [
  | inl held ↦ rw held d
  | inr new ↦ rw new (Distinct-append_one xs a new d)
]

holds-add_to :
    (b a : String) (xs : List String)
    → holds b (add_to a xs) ≡ (if holds b xs then true else a =? b)
unfolding add_to
holds-add_to b a xs = elim (Bool-cases (holds a xs)) [
  | inl held ↦ rw held (elim (Bool-cases (a =? b)) [
    | inl same ↦
        let here : holds b xs ≡ true =
          ap (λ c. holds c xs) (sym ((string_eq.beq_iff a b).0 same)) ∙ held in
        ground (arith, here)
    | inr other ↦ ground (arith, other)
  ])
  | inr new ↦ rw new (holds-append b xs (a ∷ []) ∙ ground arith)
]

holds-fold :
    (b : String) (xs acc : List String)
    → holds b (fold (λ deduped a. add_to a deduped) acc xs)
      ≡ (if holds b acc then true else holds b xs)
holds-fold b [] acc = ground arith
holds-fold b (x ∷ xs) acc = ground (arith, holds-fold b xs (add_to x acc), holds-add_to b x acc)

fold-Distinct :
    (xs acc : List String) → Distinct acc → Distinct (fold (λ deduped a. add_to a deduped) acc xs)
fold-Distinct [] acc d = d
fold-Distinct (x ∷ xs) acc d = fold-Distinct xs (add_to x acc) (add_to-Distinct x acc d)

not_empty : (a : String) (addrs : List String) → holds a addrs ≡ true → is_empty addrs ≡ false
not_empty a [] held = absurd (ground arith)
not_empty a (b ∷ addrs) held = refl

deduplicate-is_empty : (addrs : List String) → is_empty (deduplicate addrs) ≡ is_empty addrs
unfolding deduplicate
deduplicate-is_empty [] = refl
deduplicate-is_empty (a ∷ addrs) =
    not_empty a (deduplicate (a ∷ addrs)) (holds-fold a (a ∷ addrs) [] ∙ ground (arith, =?_refl a))

-- Where the keys file gives addresses, or none is configured, the load succeeds, with addresses that are
-- pairwise different. The filter made from them lets a supplier through exactly if it is one of the derived
-- addresses or one of the explicit ones without surrounding space, or if there are none of both, blank ones
-- not counted.
pub load_supplier_addresses_filter :
    (address_of : Bytes → Option String) (read_keys : String → Result (List String))
    (cfg : SuppliersConfig) (derived : List String) (a : String)
    → derived_addresses address_of read_keys cfg.keys_file ≡ ok derived
    → let configured = derived ++ explicit cfg.addresses in
      (addrs : List String) × (load_supplier_addresses address_of read_keys cfg ≡ ok addrs)
      × Distinct addrs
      × (matches (new_supplier_filter addrs) a
          ≡ (if is_empty configured then true else holds a configured))
unfolding load_supplier_addresses deduplicate
load_supplier_addresses_filter address_of read_keys cfg derived a keys =
    let configured = derived ++ explicit cfg.addresses in
    (
      deduplicate configured,
      rw keys refl,
      fold-Distinct configured [] tt,
      matches-new_supplier_filter (deduplicate configured) a
          ∙ rw (deduplicate-is_empty configured) (rw (holds-fold a configured []) refl),
    )
