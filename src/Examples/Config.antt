-- ===== src/Examples/Config.antt =====
-- The default configuration, and a list of suppliers from a file of keys and from explicit addresses.
use Prim.Native.String.{String}
use pocket_settlement_monito.Prelude.{
  ◌-◌, ◌/◌, ◌<◌, ◌≤◌, ◌≡◌, refl, ◌↔◌, true, Option, some, List, [], ◌∷◌, ◌++◌, if◌then◌else◌, arith,
}
use pocket_settlement_monito.Prelude.Exec.{Result, ok}
use pocket_settlement_monito.Subscriber.Types.{Bytes}
use pocket_settlement_monito.Subscriber.Delay.{next_delay}
use pocket_settlement_monito.Processor.Filter.{new_supplier_filter, matches, is_empty}
use pocket_settlement_monito.Config.{default_config, validate, failures, SuppliersConfig}
use pocket_settlement_monito.Config.Valid.{IsValid, validate_iff, validate-next_delay}
use pocket_settlement_monito.Config.Suppliers.{
  explicit, derived_addresses, load_supplier_addresses, trim_left, trim_right, derive_all,
  decode_string,
}
use pocket_settlement_monito.Config.Suppliers.Loaded.{
  holds, Distinct, load_supplier_addresses_filter,
}

abbrev tcp : String → Option String
tcp url = some "tcp"

accepted : validate tcp default_config ≡ []
unfolding validate failures
accepted = refl

validate_iff_example : (validate tcp default_config ≡ []) ↔ IsValid tcp default_config
validate_iff_example =
    validate_iff tcp default_config (ground arith) (ground arith) (ground arith) (ground arith)

validate-next_delay_example :
    (0 < next_delay (λ n. n - 1) 3 1000000000 30000000000)
    × (1000000000 - 1000000000 / 5 ≤ next_delay (λ n. n - 1) 3 1000000000 30000000000)
validate-next_delay_example =
    validate-next_delay tcp default_config (λ n. n - 1) 3 (λ n pos. omega arith) (ground arith)
      (ground arith) (ground arith) (ground arith) accepted

abbrev address_of : Bytes → Option String
address_of key = some "pokt1a"

abbrev keys_in : String → Result (List String)
keys_in path = ok (" 0x0102030405060708090a0b0c0d0e0f101112131415161718191A1b1c1d1e1f20" ∷ [])

abbrev two_suppliers : SuppliersConfig
two_suppliers = record { keys_file = "keys.yaml"; addresses = " pokt1b " ∷ "pokt1a" ∷ "  " ∷ [] }

keys : derived_addresses address_of keys_in "keys.yaml" ≡ ok ("pokt1a" ∷ [])
unfolding derive_all decode_string trim_left trim_right
keys = refl

load_supplier_addresses_filter_example :
    let configured = "pokt1a" ∷ [] ++ explicit two_suppliers.addresses in
    (addrs : List String) × (load_supplier_addresses address_of keys_in two_suppliers ≡ ok addrs)
    × Distinct addrs
    × (matches (new_supplier_filter addrs) "pokt1b"
        ≡ (if is_empty configured then true else holds "pokt1b" configured))
load_supplier_addresses_filter_example =
    load_supplier_addresses_filter address_of keys_in two_suppliers ("pokt1a" ∷ []) "pokt1b" keys
