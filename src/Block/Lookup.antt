-- ===== src/Block/Lookup.antt =====
-- block.go: what is stored about an address, a network or an autonomous system, and the tests
-- whether one is blocked. `P` is IPDetails.
use botex.Prelude.{String, Option, none, some, Bool, true, false}
use botex.Data.{Bytes, BlockMessage}
use botex.Store.{KvStore}
use botex.Block.{
  Block, panicked, Outcome, done, error, Registry, Codec, decode_stored, ip_namespace,
  asn_namespace, cidr_namespace,
}

-- A test that has found a reason, or none, or has ended the goroutine.
unfoldable pub is_found : Outcome (Option String) → Outcome Bool
is_found (error e) = error e
is_found (done none) = done false
is_found (done (some reason)) = done true

-- The first test that finds something decides; one that fails does not.
unfoldable pub reason_or :
    {A F C : Type 0}
    → Outcome (BlockMessage A F C)
    → Outcome (Option String)
    → Outcome (Option String)
reason_or (done msg) next = done (some msg.reason)
reason_or (error e) next = next

unfoldable pub blocked_or : {P : Type 0} → Outcome P → Outcome Bool → Outcome Bool
blocked_or (done details) next = done true
blocked_or (error e) next = next

module _ {S A F C N P : Type 0} ⦃kv : KvStore S⦄ (registry : Registry A N)
    (codec : Codec A F C N P) where
  unfoldable pub get_ip : Block S → Bytes → Outcome P
  get_ip b ip = decode_stored codec.decode_details (kv.get b.store (ip_namespace ip))

  unfoldable pub get_network : Block S → N → Outcome (BlockMessage A F C)
  get_network b network =
      decode_stored codec.decode_block (kv.get b.store (cidr_namespace (registry.cidr network)))

  unfoldable pub get_asn : Block S → A → Outcome (BlockMessage A F C)
  get_asn b asn =
      decode_stored codec.decode_block (kv.get b.store (asn_namespace (registry.asn_number asn)))

  -- The second half of IsBlockedByASN, with the network of the autonomous system.
  unfoldable pub network_reason : Block S → Option N → Outcome (Option String)
  network_reason b none = error panicked
  network_reason b (some network) = reason_or (get_network b network) (done none)

  -- The reason for which the autonomous system, or its network, is blocked.
  unfoldable pub is_blocked_by_asn : Block S → Option A → Outcome (Option String)
  is_blocked_by_asn b none = error panicked
  is_blocked_by_asn b (some asn) =
      reason_or (get_asn b asn) (network_reason b (registry.asn_network asn))

  -- A nil address has the key of no bytes.
  unfoldable pub is_blocked : Block S → Bytes → Option A → Outcome Bool
  is_blocked b ip asn = blocked_or (get_ip b ip) (is_found (is_blocked_by_asn b asn))
