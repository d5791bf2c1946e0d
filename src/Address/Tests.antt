-- ===== src/Address/Tests.antt =====
-- Addresses and hexadecimal text (examples/linx-indexer/src/lib.rs) at concrete inputs.
use linx_app_backend.Base.{[], ◌∷◌, ◌≡◌, refl, arith}
use linx_app_backend.Base.Outcome.{ok, panic}
use linx_app_backend.Address.{
  hex_to_bin_unsafe, hex_pairs, hex_digit, bin_to_hex, address_from_contract_id,
}
use linx_app_backend.Address.Hex.{hex_to_bin_unsafe-bin_to_hex}

written : bin_to_hex (0 ∷ 175 ∷ 16 ∷ []) ≡ "00af10"
unfolding bin_to_hex hex_digit
written = refl

-- Capital letters and a sign are read too; half a byte is not.
read_capitals : hex_to_bin_unsafe "AF+7" ≡ ok (175 ∷ 7 ∷ [])
unfolding hex_pairs
read_capitals = refl

read_half : hex_to_bin_unsafe "af1" ≡ panic
unfolding hex_pairs
read_half = refl

-- Here the encoding of the bytes is hexadecimal too.
contract_address : address_from_contract_id bin_to_hex "af" ≡ ok "03af"
unfolding address_from_contract_id hex_pairs bin_to_hex hex_digit
contract_address = refl

hex_to_bin_unsafe-bin_to_hex_example :
    hex_to_bin_unsafe (bin_to_hex (0 ∷ 175 ∷ 255 ∷ [])) ≡ ok (0 ∷ 175 ∷ 255 ∷ [])
hex_to_bin_unsafe-bin_to_hex_example =
    hex_to_bin_unsafe-bin_to_hex (0 ∷ 175 ∷ 255 ∷ []) (omega arith)
