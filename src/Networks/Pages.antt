-- ===== src/Networks/Pages.antt =====
-- plugins/network.go, plugins/ipmeta.go: the answers of the plugins to HTTP requests, and to the
-- questions of the interface Plugin. The blocker is the block list. `ParseCIDR` gets the two parts
-- of the path joined by a slash; the text of a network and asndb.DB.Lookup and geoip.DB.Lookup are
-- parameters, and so is what a lookup of a place may fail with.
use mathlib.Core.Option
use botex.Prelude.{ℕ, String, Option, none, some, List, [], ◌∷◌, ◌++◌, ◌==◌, if◌then◌else◌}
use botex.Prelude.Atoi.{ℤ, pos, negsuc, atoi}
use botex.Prelude.Sort.{sort_desc}
use botex.Data.{Bytes, Stats, IpStats, BlockMessage, NetworkBlockMessage}
use botex.Store.{KvStore}
use botex.Block.{Block, Outcome, Registry, Codec}
use botex.Block.Lookup.{is_blocked_by_asn}
use botex.Block.Listing.{blocked_networks, blocked_asns}
use botex.NetworkData.{NetworkData}
use botex.Networks.{Systems, Group, Networks, all_networks, network_stats}
use botex.Api.{Answer, ok, not_found, not_acceptable, unprocessable}

-- A read of a map with integer keys.
unfoldable pub find_group : {A F : Type 0} → ℕ → List (ℕ × Group A F) → Option (Group A F)
find_group asn [] = none
find_group asn ((held, g) ∷ groups) =
    let rest = find_group asn groups in if held == asn then some g else rest

module _ {M I A N F : Type 0} where
  -- The number of a system is not negative.
  unfoldable pub asn_stats : ℤ → Networks M I A N F → Option (Stats A F)
  unfolding find_group
  asn_stats (pos n) networks = Option.map (λ g. g.stats) (find_group n networks.asn_data)
  asn_stats (negsuc n) networks = none

  unfoldable pub api_get_networks :
      Networks M I A N F → Answer (List (NetworkData M I A (Option N) F))
  api_get_networks networks = ok (all_networks networks.networks)

  unfoldable pub api_get_network :
      Systems A N F
      → (Bytes → Option N)
      → Bytes
      → Bytes
      → Networks M I A N F
      → Answer (NetworkData M I A (Option N) F)
  api_get_network systems parse_cidr ip bits networks = elim (parse_cidr (ip ++ b'/' ∷ bits)) [
    | none ↦ not_acceptable
    | some network ↦ elim (network_stats systems (some network) networks) [
      | none ↦ not_found
      | some nd ↦ ok nd
    ]
  ]

  unfoldable pub api_get_asn_stats : Bytes → Networks M I A N F → Answer (Stats A F)
  unfolding asn_stats
  api_get_asn_stats asn networks = elim (atoi asn) [
    | none ↦ not_acceptable
    | some n ↦ elim (asn_stats n networks) [ none ↦ not_found | some st ↦ ok st ]
  ]

module _ {S A F C N P : Type 0} ⦃kv : KvStore S⦄ (codec : Codec A F C N P) where
  unfoldable pub api_get_blocked_networks : Block S → Answer (List (NetworkBlockMessage A F C N))
  api_get_blocked_networks b = ok (sort_desc (λ m. m.total) (blocked_networks codec b))

  unfoldable pub api_get_blocked_asns : Block S → Answer (List (BlockMessage A F C))
  api_get_blocked_asns b = ok (sort_desc (λ m. m.total) (blocked_asns codec b))

  -- `Networks.ShouldBeBlocked`
  unfoldable pub should_be_blocked :
      {I : Type 0} → Registry A N → Block S → IpStats A F I → Outcome (Option String)
  should_be_blocked registry b stats = is_blocked_by_asn registry codec b stats.asn

-- `IPMeta.getASN`; the database has no system for some addresses.
unfoldable pub get_asn :
    {A : Type 0} → (String → Option Bytes) → (Bytes → Option A) → String → Answer (Option A)
get_asn parse_ip lookup ip = elim (parse_ip ip) [
  | none ↦ unprocessable
  | some address ↦ ok (lookup address)
]

-- `IPMeta.getGeoIP`
unfoldable pub get_geoip :
    {G : Type 0} → (String → Option Bytes) → (Bytes → Option G) → String → Answer G
get_geoip parse_ip lookup ip = elim (parse_ip ip) [
  | none ↦ unprocessable
  | some address ↦ elim (lookup address) [ none ↦ unprocessable | some geo ↦ ok geo ]
]
