-- ===== src/Block/Change.antt =====
-- block.go: blocking and unblocking.
use botex.Prelude.{ℕ, String, Option, none, some, ◌∷◌}
use botex.Data.{Bytes, BlockMessage, IpBlockMessage, NetworkBlockMessage}
use botex.Store.{KvStore}
use botex.Block.{
  Block, BlockError, ip_is_nil, network_is_nil, asn_is_nil, Outcome, done, error, Registry, Codec,
  set_store, write_once, block_namespace, ip_namespace, asn_namespace, cidr_namespace,
}
use botex.Block.Lookup.{is_blocked_by_asn}

abbrev pub cache_network : {S : Type 0} → Block S → Bytes → Block S
cache_network b cidr = record b { network_cache = cidr ∷ b.network_cache }

abbrev pub cache_asn : {S : Type 0} → Block S → ℕ → Block S
cache_asn b asn = record b { asn_cache = asn ∷ b.asn_cache }

module _ {S : Type 0} ⦃kv : KvStore S⦄ where
  unfoldable pub remove_ip : Block S → Bytes → Block S × Option BlockError
  unfolding set_store
  remove_ip b ip = set_store b (kv.remove b.store (ip_namespace ip))

  -- `Clear`: the error of `Remove` is dropped.
  unfoldable pub clear : Block S → Block S
  clear b = record b { store = (kv.remove b.store block_namespace).0 }

module _ {S A F C N P : Type 0} ⦃kv : KvStore S⦄ (codec : Codec A F C N P) where
  -- BlockIP with an address that is not nil.
  unfoldable pub block_address :
      Block S → IpBlockMessage A F C → Option Bytes → Block S × Option BlockError
  block_address b msg none = (b, some ip_is_nil)
  block_address b msg (some ip) =
      write_once b (ip_namespace ip) (codec.encode_ip msg) (kv.get b.store (ip_namespace ip))

  unfoldable pub block_ip : Block S → IpBlockMessage A F C → Block S × Option BlockError
  block_ip b msg = block_address b msg msg.ip

module _ {S A N : Type 0} ⦃kv : KvStore S⦄ (registry : Registry A N) where
  unfoldable pub remove_network : Block S → N → Block S × Option BlockError
  remove_network b network =
      set_store b (kv.remove b.store (cidr_namespace (registry.cidr network)))

  unfoldable pub remove_asn : Block S → A → Block S × Option BlockError
  remove_asn b asn = set_store b (kv.remove b.store (asn_namespace (registry.asn_number asn)))

module _ {S A F C N P : Type 0} ⦃kv : KvStore S⦄ (registry : Registry A N)
    (codec : Codec A F C N P) where
  -- What BlockNetwork does with a network that is not nil.
  unfoldable pub store_network :
      Block S
      → NetworkBlockMessage A F C N
      → N
      → Outcome (Option String)
      → Block S × Option BlockError
  store_network b msg network (error e) = (b, some e)
  store_network b msg network (done (some reason)) = (b, none)
  store_network b msg network (done none) =
      let cidr = registry.cidr network in
      write_once (cache_network b cidr) (cidr_namespace cidr) (codec.encode_network msg)
        (kv.get b.store (cidr_namespace cidr))

  unfoldable pub block_network : Block S → NetworkBlockMessage A F C N → Block S × Option BlockError
  block_network b msg = elim msg.network [
    | none ↦ (b, some network_is_nil)
    | some network ↦ store_network b msg network (is_blocked_by_asn registry codec b msg.asn)
  ]

  -- What BlockASN does with an autonomous system that is not nil.
  unfoldable pub store_asn :
      Block S → BlockMessage A F C → A → Outcome (Option String) → Block S × Option BlockError
  store_asn b msg asn (error e) = (b, some e)
  store_asn b msg asn (done (some reason)) = (b, none)
  store_asn b msg asn (done none) =
      let n = registry.asn_number asn in
      write_once (cache_asn b n) (asn_namespace n) (codec.encode_block msg)
        (kv.get b.store (asn_namespace n))

  unfoldable pub block_asn : Block S → BlockMessage A F C → Block S × Option BlockError
  block_asn b msg = elim msg.asn [
    | none ↦ (b, some asn_is_nil)
    | some asn ↦ store_asn b msg asn (is_blocked_by_asn registry codec b (some asn))
  ]
