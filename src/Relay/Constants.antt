-- ===== src/Relay/Constants.antt =====
-- pkg/relay/constants.go: the relays of each network, and `getNetworkRelays` (relay_bid_trace.go),
-- which picks them by the time of the genesis.
use Prim.Native.String.{String}
use goteth.Common.{ℕ, ◌==◌, if◌then◌else◌, List, [], ◌∷◌}

abbrev pub mainnet_aestus_relay : String
mainnet_aestus_relay =
    "https://0xa15b52576bcbf1072f4a011c0f99f9fb6c66f3e1ff321f11f461d15e31b1cb359caa092c71bbded0bae5b5ea401aab7e@aestus.live"

abbrev pub mainnet_agnostic_relay : String
mainnet_agnostic_relay =
    "https://0xa7ab7a996c8584251c8f925da3170bdfd6ebc75d50f5ddc4050a6fdc77f2a3b5fce2cc750d0865e05d7228af97d69561@agnostic-relay.net"

abbrev pub mainnet_blox_route_max_profit_relay : String
mainnet_blox_route_max_profit_relay =
    "https://0x8b5d2e73e2a3a55c6c87b8b6eb92e0149a125c852751db1422fa951e42a09b82c142c3ea98d0d9930b056a3bc9896b8f@bloxroute.max-profit.blxrbdn.com"

abbrev pub mainnet_blox_route_regulated_relay : String
mainnet_blox_route_regulated_relay =
    "https://0xb0b07cd0abef743db4260b0ed50619cf6ad4d82064cb4fbec9d3ec530f7c5e6793d9f286c4e082c0244ffb9f2658fe88@bloxroute.regulated.blxrbdn.com"

abbrev pub mainnet_titan_global_relay : String
mainnet_titan_global_relay =
    "https://0x8c4ed5e24fe5c6ae21018437bde147693f68cda427cd1122cf20819c30eda7ed74f72dece09bb313f2a1855595ab677d@global.titanrelay.xyz"

abbrev pub mainnet_titan_regional_relay : String
mainnet_titan_regional_relay =
    "https://0x8c4ed5e24fe5c6ae21018437bde147693f68cda427cd1122cf20819c30eda7ed74f72dece09bb313f2a1855595ab677d@regional.titanrelay.xyz"

abbrev pub mainnet_flashbots_relay : String
mainnet_flashbots_relay =
    "https://0xac6e77dfe25ecd6110b8e780608cce0dab71fdd5ebea22a16c0205200f2f8e2e3ad3b71d3499c54ad14d6c21b41a37ae@boost-relay.flashbots.net"

abbrev pub mainnet_ultra_sound_relay : String
mainnet_ultra_sound_relay =
    "https://0xa1559ace749633b997cb3fdacffb890aeebdb0f5a3b6aaa7eeeaf1a38af0a8fe88b9e4b1f61f236d2e64d95733327a62@relay.ultrasound.money"

abbrev pub holesky_ultra_sound_relay : String
holesky_ultra_sound_relay =
    "https://0xb1559beef7b5ba3127485bbbb090362d9f497ba64e177ee2c8e7db74746306efad687f2cf8574e38d70067d40ef136dc@relay-stag.ultrasound.money"

abbrev pub holesky_blox_route_relay : String
holesky_blox_route_relay =
    "https://0x821f2a65afb70e7f2e820a925a9b4c80a159620582c1766b1b09729fec178b11ea22abb3a51f07b288be815a1a2ff516@bloxroute.holesky.blxrbdn.com"

abbrev pub holesky_flashbots_relay : String
holesky_flashbots_relay =
    "https://0xafa4c6985aa049fb79dd37010438cfebeb0f2bd42b115b89dd678dab0670c1de38da0c4e9138c9290a398ecd9a0b3110@boost-relay-holesky.flashbots.net"

abbrev pub holesky_aestus_relay : String
holesky_aestus_relay =
    "https://0xab78bf8c781c58078c3beb5710c57940874dd96aef2835e7742c866b4c7c0406754376c2c8285a36c630346aa5c5f833@holesky.aestus.live"

abbrev pub holesky_titan_relay : String
holesky_titan_relay =
    "https://0xaa58208899c6105603b74396734a6263cc7d947f444f396a90f7b7d3e65d102aec7e5e5291b27e08d02c50a050825c2f@holesky.titanrelay.xyz"

abbrev pub hoodi_blox_route_relay : String
hoodi_blox_route_relay =
    "https://0x821f2a65afb70e7f2e820a925a9b4c80a159620582c1766b1b09729fec178b11ea22abb3a51f07b288be815a1a2ff516@bloxroute.hoodi.blxrbdn.com"

abbrev pub hoodi_flashbots_relay : String
hoodi_flashbots_relay =
    "https://0xafa4c6985aa049fb79dd37010438cfebeb0f2bd42b115b89dd678dab0670c1de38da0c4e9138c9290a398ecd9a0b3110@boost-relay-hoodi.flashbots.net"

abbrev pub hoodi_ultra_sound_relay : String
hoodi_ultra_sound_relay =
    "https://0xb1559beef7b5ba3127485bbbb090362d9f497ba64e177ee2c8e7db74746306efad687f2cf8574e38d70067d40ef136dc@relay-hoodi.ultrasound.money"

abbrev pub hoodi_titan_relay : String
hoodi_titan_relay =
    "https://0xaa58208899c6105603b74396734a6263cc7d947f444f396a90f7b7d3e65d102aec7e5e5291b27e08d02c50a050825c2f@hoodi.titanrelay.xyz"

abbrev pub hoodi_aestus_relay : String
hoodi_aestus_relay =
    "https://0x98f0ef62f00780cf8eb06701a7d22725b9437d4768bb19b363e882ae87129945ec206ec2dc16933f31d983f8225772b6@hoodi.aestus.live"

abbrev pub sepolia_flashbots_relay : String
sepolia_flashbots_relay =
    "https://0xafa4c6985aa049fb79dd37010438cfebeb0f2bd42b115b89dd678dab0670c1de38da0c4e9138c9290a398ecd9a0b3110@boost-relay-sepolia.flashbots.net"

unfoldable pub mainnet_relay_list : List String
mainnet_relay_list =
    mainnet_aestus_relay ∷ mainnet_agnostic_relay ∷ mainnet_blox_route_max_profit_relay
    ∷ mainnet_blox_route_regulated_relay ∷ mainnet_titan_global_relay ∷ mainnet_titan_regional_relay
    ∷ mainnet_flashbots_relay ∷ mainnet_ultra_sound_relay ∷ []

unfoldable pub holesky_relay_list : List String
holesky_relay_list =
    holesky_ultra_sound_relay ∷ holesky_blox_route_relay ∷ holesky_flashbots_relay
    ∷ holesky_aestus_relay ∷ holesky_titan_relay ∷ []

unfoldable pub hoodi_relay_list : List String
hoodi_relay_list =
    hoodi_blox_route_relay ∷ hoodi_flashbots_relay ∷ hoodi_ultra_sound_relay ∷ hoodi_titan_relay
    ∷ hoodi_aestus_relay ∷ []

unfoldable pub sepolia_relay_list : List String
sepolia_relay_list = sepolia_flashbots_relay ∷ []

-- The times of the genesis of the networks (pkg/spec/constants.go).
abbrev pub mainnet_genesis : ℕ
mainnet_genesis = 1606824023

abbrev pub sepolia_genesis : ℕ
sepolia_genesis = 1655733600

abbrev pub holesky_genesis : ℕ
holesky_genesis = 1695902400

abbrev pub hoodi_genesis : ℕ
hoodi_genesis = 1742213400

unfoldable pub get_network_relays : ℕ → List String
unfolding mainnet_relay_list holesky_relay_list hoodi_relay_list sepolia_relay_list
get_network_relays genesis_time =
    if genesis_time == mainnet_genesis
    then mainnet_relay_list
    else if genesis_time == holesky_genesis
    then holesky_relay_list
    else if genesis_time == hoodi_genesis
    then hoodi_relay_list
    else if genesis_time == sepolia_genesis
    then sepolia_relay_list
    else []
