-- ===== src/Config/Suppliers.antt =====
-- config/suppliers.go. `read_keys` reads the YAML file of keys, `address_of` is secp256k1's public key and
-- its bech32 address; the strings are taken to be valid UTF-8.
pub mod Loaded
use Prim.Native.Char.{Char, code}
use Prim.Native.String.{String}
use pocket_settlement_monito.Prelude.{
  ℕ, ◌+◌, ◌-◌, ◌*◌, Bool, true, false, ◌&&◌, Option, none, some, List, [], ◌∷◌, ◌++◌, ◌==◌, leb,
  any, fold, length, if◌then◌else◌,
}
use pocket_settlement_monito.Prelude.Eq.{◌=?◌, string_eq}
use pocket_settlement_monito.Prelude.Maps.{add_to}
use pocket_settlement_monito.Prelude.Exec.{Result, ok, err, Error, invalid_input}
use pocket_settlement_monito.Subscriber.Types.{Bytes}
use pocket_settlement_monito.Config.{SuppliersConfig}

-- unicode.IsSpace
abbrev is_space : Char → Bool
is_space c =
    let n = code c in
    if leb 9 n && leb n 13
    then true
    else if leb 8192 n && leb n 8202
    then true
    else any (λ k. k == n) (32 ∷ 133 ∷ 160 ∷ 5760 ∷ 8232 ∷ 8233 ∷ 8239 ∷ 8287 ∷ 12288 ∷ [])

unfoldable pub trim_left : String → String
trim_left String.[] = String.[]
trim_left (String.◌∷◌ c s) = let rest = trim_left s in if is_space c then rest else String.◌∷◌ c s

abbrev cons_unless_blank : Char → String → String
cons_unless_blank c String.[] = if is_space c then String.[] else String.◌∷◌ c String.[]
cons_unless_blank c (String.◌∷◌ d s) = String.◌∷◌ c (String.◌∷◌ d s)

unfoldable pub trim_right : String → String
trim_right String.[] = String.[]
trim_right (String.◌∷◌ c s) = cons_unless_blank c (trim_right s)

-- strings.TrimSpace
abbrev pub trim_space : String → String
trim_space s = trim_right (trim_left s)

-- `strings.TrimPrefix(s, "0x")`
abbrev pub trim_prefix : String → String
trim_prefix (String.◌∷◌ c (String.◌∷◌ d s)) =
    if code c == b'0' && code d == b'x' then s else String.◌∷◌ c (String.◌∷◌ d s)
trim_prefix s = s

abbrev from_hex : Char → Option ℕ
from_hex c =
    let n = code c in
    if leb b'0' n && leb n b'9'
    then some (n - b'0')
    else if leb b'a' n && leb n b'f'
    then some (n - b'a' + 10)
    else if leb b'A' n && leb n b'F'
    then some (n - b'A' + 10)
    else none

abbrev cons_byte : Option ℕ → Option ℕ → Option Bytes → Option Bytes
cons_byte (some a) (some b) (some rest) = some ((16 * a + b) ∷ rest)
cons_byte _ _ _ = none

-- hex.DecodeString: an even number of digits.
unfoldable pub decode_string : String → Option Bytes
decode_string String.[] = some []
decode_string (String.◌∷◌ c String.[]) = none
decode_string (String.◌∷◌ c (String.◌∷◌ d s)) =
    cons_byte (from_hex c) (from_hex d) (decode_string s)

module _ (address_of : Bytes → Option String) where
  abbrev or_invalid : Option String → Result String
  or_invalid none = err invalid_input
  or_invalid (some addr) = ok addr

  abbrev derive_from : Option Bytes → Result String
  derive_from none = err invalid_input
  derive_from (some key) =
      if length key == 32 then or_invalid (address_of key) else err invalid_input

  abbrev pub derive_address : String → Result String
  derive_address hex_key = derive_from (decode_string (trim_prefix (trim_space hex_key)))

  abbrev pub cons_result : Result String → Result (List String) → Result (List String)
  cons_result (err e) rest = err e
  cons_result (ok addr) (err e) = err e
  cons_result (ok addr) (ok addrs) = ok (addr ∷ addrs)

  -- The loop over the keys.
  unfoldable pub derive_all : List String → Result (List String)
  derive_all [] = ok []
  derive_all (k ∷ ks) = cons_result (derive_address k) (derive_all ks)

  abbrev of_keys : Result (List String) → Result (List String)
  of_keys (err e) = err e
  of_keys (ok []) = err invalid_input
  of_keys (ok (k ∷ ks)) = derive_all (k ∷ ks)

  abbrev pub addresses_from_keys_file :
      (String → Result (List String)) → String → Result (List String)
  addresses_from_keys_file read_keys path = of_keys (read_keys path)

-- The explicit addresses, trimmed, without the blank ones.
unfoldable pub explicit : List String → List String
explicit [] = []
explicit (a ∷ rest) =
    let addrs = explicit rest in if trim_space a =? "" then addrs else trim_space a ∷ addrs

-- The loop with `seen`, which holds what `deduped` holds.
unfoldable pub deduplicate : List String → List String
deduplicate = fold (λ deduped a. add_to a deduped) []

-- An empty list is nil.
abbrev pub with_explicit : Result (List String) → List String → Result (List String)
with_explicit (err e) addrs = err e
with_explicit (ok derived) addrs = ok (deduplicate (derived ++ explicit addrs))

module _ (address_of : Bytes → Option String) (read_keys : String → Result (List String)) where
  abbrev pub derived_addresses : String → Result (List String)
  derived_addresses keys_file =
      if keys_file =? "" then ok [] else addresses_from_keys_file address_of read_keys keys_file

  unfoldable pub load_supplier_addresses : SuppliersConfig → Result (List String)
  load_supplier_addresses cfg = with_explicit (derived_addresses cfg.keys_file) cfg.addresses
