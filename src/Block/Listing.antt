-- ===== src/Block/Listing.antt =====
-- block.go: the lists and the numbers of what is blocked, and the caches built from them.
use botex.Prelude.{ℕ, Option, none, some, List, [], map}
use botex.Data.{BlockMessage, IpBlockMessage, NetworkBlockMessage}
use botex.Store.{KvStore}
use botex.Block.{
  Block, BlockError, Outcome, done, error, Registry, Codec, decode_some, decode_all, ip_namespace,
  asn_namespace, cidr_namespace,
}

module _ {S : Type 0} ⦃kv : KvStore S⦄ where
  unfoldable pub count_ips : Block S → ℕ
  count_ips b = (kv.count b.store (ip_namespace [])).0

  unfoldable pub count_networks : Block S → ℕ
  count_networks b = (kv.count b.store (cidr_namespace [])).0

  unfoldable pub count_asns : Block S → ℕ
  count_asns b = (kv.count b.store (asn_namespace 0)).0

module _ {S A F C N P : Type 0} ⦃kv : KvStore S⦄ (codec : Codec A F C N P) where
  unfoldable pub blocked_ips : Block S → List (IpBlockMessage A F C)
  blocked_ips b = decode_some codec.decode_ip (kv.each b.store (ip_namespace [])).0

  unfoldable pub all_ips : Block S → Outcome (List (IpBlockMessage A F C))
  all_ips b = decode_all codec.decode_ip (kv.all b.store (ip_namespace []))

  unfoldable pub blocked_networks : Block S → List (NetworkBlockMessage A F C N)
  blocked_networks b = decode_some codec.decode_network (kv.each b.store (cidr_namespace [])).0

  unfoldable pub all_networks : Block S → Outcome (List N)
  all_networks b = decode_all codec.decode_ipnet (kv.all b.store (cidr_namespace []))

  unfoldable pub blocked_asns : Block S → List (BlockMessage A F C)
  blocked_asns b = decode_some codec.decode_block (kv.each b.store (asn_namespace 0)).0

  unfoldable pub all_asns : Block S → Outcome (List A)
  all_asns b = decode_all codec.decode_asn (kv.all b.store (asn_namespace 0))

module _ {S A F C N P : Type 0} ⦃kv : KvStore S⦄ (registry : Registry A N)
    (codec : Codec A F C N P) where
  unfoldable pub build_cache : Block S → Block S × Option BlockError
  build_cache b = elim (all_networks codec b) [
    | error e ↦ (b, some e)
    | done networks ↦ elim (all_asns codec b) [
      | error e ↦ (b, some e)
      | done asns ↦ (
        record b {
          network_cache = map registry.cidr networks;
          asn_cache = map registry.asn_number asns;
        },
        none,
      )
    ]
  ]
