-- ===== src/Config/Address.antt =====
-- pkg/spec/constants.go and utils.go: the addresses of the deposit contracts.
use Prim.Native.String.{String}
use goteth.Common.{
  ℕ, Bool, true, false, ◌&&◌, ◌||◌, Option, none, some, List, [], ◌∷◌, ◌==◌, leb, if◌then◌else◌,
  length,
}
use goteth.Config.{codes, same_text}

abbrev pub mainnet_beacon_contract_address : String
mainnet_beacon_contract_address = "0x00000000219ab540356cBB839Cbe05303d7705Fa"

abbrev pub sepolia_beacon_contract_address : String
sepolia_beacon_contract_address = "0x7f02C3E3c98b133055B8B348B2Ac625669Ed295D"

abbrev pub holesky_beacon_contract_address : String
holesky_beacon_contract_address = "0x4242424242424242424242424242424242424242"

unfoldable pub beacon_contract_addresses : String → Option String
beacon_contract_addresses name =
    if same_text name "mainnet"
    then some mainnet_beacon_contract_address
    else if same_text name "sepolia"
    then some sepolia_beacon_contract_address
    else if same_text name "holesky"
    then some holesky_beacon_contract_address
    else if same_text name "hoodi"
    then some mainnet_beacon_contract_address
    else none

-- A digit, or a letter from a to f.
abbrev pub is_hex : ℕ → Bool
is_hex c = (leb 48 c && leb c 57) || (leb 97 c && leb c 102) || (leb 65 c && leb c 70)

abbrev pub all_hex : List ℕ → Bool
all_hex [] = true
all_hex (c ∷ cs) = is_hex c && all_hex cs

abbrev pub some_hex : List ℕ → Bool
some_hex [] = false
some_hex (c ∷ cs) = all_hex (c ∷ cs)

-- The pattern, a prefix 0x that may be missing and then digits, and the length in bytes: a text that
-- the pattern takes is ASCII.
unfoldable pub matches : List ℕ → Bool
matches [] = false
matches (c ∷ []) = is_hex c
matches (c ∷ d ∷ cs) = if (c == 48) && (d == 120) then some_hex cs else all_hex (c ∷ d ∷ cs)

unfoldable pub hex_string_address_is_valid : String → Bool
unfolding matches
hex_string_address_is_valid address = (length (codes address) == 42) && matches (codes address)
