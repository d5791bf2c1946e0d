-- ===== src/Address.antt =====
-- examples/linx-indexer/src/lib.rs: bytes as hexadecimal text, and the address of a contract. A byte
-- is a number below 256. The base 58 encoding is that of the library `bs58`, an argument.
pub mod Hex
mod Tests
use Prim.Native.Char.{Char, code}
use Prim.Native.String
use linx_app_backend.Base.{
  ℕ, ◌+◌, ◌-◌, ◌*◌, ◌/◌, ◌%◌, Bool, ◌&&◌, Option, some, none, List, [], ◌∷◌, String, leb, ◌==◌,
  if◌then◌else◌,
}
use linx_app_backend.Base.Outcome.{Outcome, ok, panic, ◌>>=◌}

pub data AddressType : Type 0 where
  p2pkh : AddressType
  p2mpkh : AddressType
  p2sh : AddressType
  p2c : AddressType
  p2pk : AddressType
  p2hmpk : AddressType

-- `address_type as u8`
abbrev pub type_byte : AddressType → ℕ
type_byte p2pkh = 0
type_byte p2mpkh = 1
type_byte p2sh = 2
type_byte p2c = 3
type_byte p2pk = 4
type_byte p2hmpk = 5

-- The characters of a text, as numbers.
abbrev pub codes : String → List ℕ
codes String.[] = []
codes (String.◌∷◌ c s) = code c ∷ codes s

-- The value of a hexadecimal digit.
abbrev pub digit_value : ℕ → Option ℕ
digit_value c =
    if leb b'0' c && leb c b'9'
    then some (c - b'0')
    else if leb b'a' c && leb c b'f'
    then some (c - 87)
    else if leb b'A' c && leb c b'F'
    then some (c - 55)
    else none

abbrev two_digits : Option ℕ → Option ℕ → Option ℕ
two_digits none low = none
two_digits (some high) none = none
two_digits (some high) (some low) = some (16 * high + low)

-- `u8::from_str_radix` of two characters; it allows a sign before a digit.
abbrev pub from_str_radix : ℕ → ℕ → Option ℕ
from_str_radix a b = if a == b'+' then digit_value b else two_digits (digit_value a) (digit_value b)

-- The loop of `hex_to_bin_unsafe`. A single character at the end cannot be sliced as a pair. In a text
-- with other than ASCII characters the program's slices fail too, by their bytes.
unfoldable pub hex_pairs : List ℕ → Outcome (List ℕ)
hex_pairs [] = ok []
hex_pairs (a ∷ []) = panic
hex_pairs (a ∷ b ∷ rest) =
    let others = hex_pairs rest in
    elim (from_str_radix a b) [ none ↦ panic | some byte ↦ others >>= λ bytes. ok (byte ∷ bytes) ]

abbrev pub hex_to_bin_unsafe : String → Outcome (List ℕ)
hex_to_bin_unsafe hex = hex_pairs (codes hex)

unfoldable pub address_from_contract_id : (List ℕ → String) → String → Outcome String
address_from_contract_id bs58_encode contract_id =
    hex_to_bin_unsafe contract_id >>= λ hash. ok (bs58_encode (type_byte p2c ∷ hash))

-- `{:x}` of a number below 16
unfoldable pub hex_digit : ℕ → Char
hex_digit n =
    if n == 0
    then "0"
    else if n == 1
    then "1"
    else if n == 2
    then "2"
    else if n == 3
    then "3"
    else if n == 4
    then "4"
    else if n == 5
    then "5"
    else if n == 6
    then "6"
    else if n == 7
    then "7"
    else if n == 8
    then "8"
    else if n == 9
    then "9"
    else if n == 10
    then "a"
    else if n == 11
    then "b"
    else if n == 12
    then "c"
    else if n == 13
    then "d"
    else if n == 14
    then "e"
    else "f"

unfoldable pub bin_to_hex : List ℕ → String
bin_to_hex [] = String.[]
bin_to_hex (byte ∷ bytes) =
    String.◌∷◌ (hex_digit (byte / 16)) (String.◌∷◌ (hex_digit (byte % 16)) (bin_to_hex bytes))
