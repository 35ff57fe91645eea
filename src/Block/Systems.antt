-- ===== src/Block/Systems.antt =====
-- What blocking an autonomous system or a network changes.
use botex.Prelude.{◌≤◌, ◌≡◌, ◌⊎◌, inl, inr, refl, sym, ap, ◌∙◌, String, Option, none, some, true}
use botex.Data.{Bytes, BlockMessage, NetworkBlockMessage}
use botex.Store.{ok, KvStore}
use botex.Store.Laws.{StoreLaws}
use botex.Block.{
  Block, Outcome, done, error, Registry, Codec, decode_stored, ip_namespace, asn_namespace,
  cidr_namespace,
}
use botex.Block.Stored.{write_once_ok, asn_namespace-ip_namespace}
use botex.Block.Laws.{IsDecodable, stored-decoded}
use botex.Block.Lookup.{
  is_found, reason_or, get_ip, get_network, get_asn, network_reason, is_blocked_by_asn,
}
use botex.Block.Change.{
  store_asn, block_asn, store_network, block_network, cache_asn, cache_network,
}

is_found-some :
    (o : Outcome (Option String)) (r : String) → o ≡ done (some r) → is_found o ≡ done true
unfolding is_found
is_found-some o r e = rw e refl

module _ {S A F C N P : Type 0} ⦃kv : KvStore S⦄ (registry : Registry A N)
    (codec : Codec A F C N P) where
  -- The autonomous system is blocked if it is on the list itself.
  pub get_asn-is_found :
      (b : Block S) (asn : A) (m : BlockMessage A F C)
      → get_asn registry codec b asn ≡ done m
      → is_found (is_blocked_by_asn registry codec b (some asn)) ≡ done true
  unfolding is_found is_blocked_by_asn reason_or
  get_asn-is_found b asn m e =
      ap (λ o. is_found (reason_or o (network_reason registry codec b (registry.asn_network asn))))
        e

  store_asn_lem :
      (b b' : Block S) (msg : BlockMessage A F C) (asn : A) (o : Outcome (Option String))
      (ip : Bytes)
      → (laws : StoreLaws S kv) → is_blocked_by_asn registry codec b (some asn) ≡ o
      → store_asn registry codec b msg asn o ≡ (b', none)
      → 1_000_000_000 ≤ b.block_ttl
      → laws.IsReadable b.store
      → laws.IsReadable b'.store
      → let key = asn_namespace (registry.asn_number asn) in
        ((v : Bytes) → codec.encode_block msg ≡ some v → IsDecodable codec.decode_block v)
        → ((v : Bytes) → kv.get b.store key ≡ ok v → IsDecodable codec.decode_block v)
        → (is_found (is_blocked_by_asn registry codec b' (some asn)) ≡ done true)
          × (get_ip registry codec b' ip ≡ get_ip registry codec b ip)
  unfolding store_asn get_ip
  store_asn_lem b b' msg asn (error e) ip laws found h ttl r r' new before = absurd (cc)
  store_asn_lem b b' msg asn (done (some reason)) ip laws found h ttl r r' new before =
      let same : b ≡ b' = ap (λ x. x.0) h in
      (
        is_found-some _ reason
            (ap (λ x. is_blocked_by_asn registry codec x (some asn)) (sym same) ∙ found),
        ap (λ x. decode_stored codec.decode_details (kv.get x.store (ip_namespace ip))) (sym same),
      )
  store_asn_lem b b' msg asn (done none) ip laws found h ttl r r' new before =
      let n = registry.asn_number asn in
      let (stored, rest) =
        write_once_ok laws (cache_asn b n) b' (asn_namespace n) _ _ refl h ttl r r' in
      let (m, d) = stored-decoded codec.decode_block _ _ _ stored new before in
      (
        get_asn-is_found b' asn m (unfold get_asn in d),
        ap (decode_stored codec.decode_details) (rest _ (asn_namespace-ip_namespace ip n)),
      )

  -- BlockASN that reports no error, where reading fails neither before nor after it, the time to
  -- live is at least a second, and both the encoded message and what was under the key before can
  -- be read back: then IsBlockedByASN says of the autonomous system that it is blocked, and the
  -- details of every blocked address are the same as before.
  pub block_asn-is_found :
      (b b' : Block S) (msg : BlockMessage A F C) (asn : A) (ip : Bytes) (laws : StoreLaws S kv)
      → msg.asn ≡ some asn
      → block_asn registry codec b msg ≡ (b', none)
      → 1_000_000_000 ≤ b.block_ttl
      → laws.IsReadable b.store
      → laws.IsReadable b'.store
      → let key = asn_namespace (registry.asn_number asn) in
        ((v : Bytes) → codec.encode_block msg ≡ some v → IsDecodable codec.decode_block v)
        → ((v : Bytes) → kv.get b.store key ≡ ok v → IsDecodable codec.decode_block v)
        → (is_found (is_blocked_by_asn registry codec b' (some asn)) ≡ done true)
          × (get_ip registry codec b' ip ≡ get_ip registry codec b ip)
  unfolding store_asn block_asn
  block_asn-is_found b b' msg asn ip laws e h =
      store_asn_lem b b' msg asn _ ip laws refl (rw (e, block_asn) at h)

  get_network-is_found :
      (b : Block S) (asn : A) (network : N) (m : BlockMessage A F C)
      → registry.asn_network asn ≡ some network
      → get_network registry codec b network ≡ done m
      → is_found (is_blocked_by_asn registry codec b (some asn)) ≡ done true
  unfolding is_found is_blocked_by_asn reason_or network_reason
  get_network-is_found b asn network m e d =
      elim (get_asn registry codec b asn)
        as (λ o.
          is_found (reason_or o (network_reason registry codec b (registry.asn_network asn)))
          ≡ done true) [
            | done x ↦ refl
            | error x ↦ rw e (ap (λ o. is_found (reason_or o (done none))) d)
          ]

  store_network_lem :
      (b b' : Block S) (msg : NetworkBlockMessage A F C N) (network : N) (asn : A)
      → (o : Outcome (Option String)) (laws : StoreLaws S kv)
      → is_blocked_by_asn registry codec b msg.asn ≡ o
      → store_network registry codec b msg network o ≡ (b', none)
      → 1_000_000_000 ≤ b.block_ttl
      → laws.IsReadable b.store
      → laws.IsReadable b'.store
      → let key = cidr_namespace (registry.cidr network) in
        ((v : Bytes) → codec.encode_network msg ≡ some v → IsDecodable codec.decode_block v)
        → ((v : Bytes) → kv.get b.store key ≡ ok v → IsDecodable codec.decode_block v)
        → registry.asn_network asn ≡ some network
        → ((is_found (is_blocked_by_asn registry codec b msg.asn) ≡ done true) × (b' ≡ b))
          ⊎ (is_found (is_blocked_by_asn registry codec b' (some asn)) ≡ done true)
  unfolding store_network
  store_network_lem b b' msg network asn (error e) laws found h ttl r r' new before shared =
      absurd (cc)
  store_network_lem b b' msg network asn (done (some reason)) laws found h ttl r r' new before
        shared =
      inl (is_found-some _ reason found, sym (ap (λ x. x.0) h))
  store_network_lem b b' msg network asn (done none) laws found h ttl r r' new before shared =
      let c = registry.cidr network in
      let (stored, rest) =
        write_once_ok laws (cache_network b c) b' (cidr_namespace c) _ _ refl h ttl r r' in
      let (m, d) = stored-decoded codec.decode_block _ _ _ stored new before in
      inr (get_network-is_found b' asn network m shared (unfold get_network in d))

  -- BlockNetwork that reports no error, under the conditions of `block_asn-is_found`: either
  -- the autonomous system of the message was blocked and nothing has changed, or the network is
  -- on the list, and with it every autonomous system that has this network.
  pub block_network-is_found :
      (b b' : Block S) (msg : NetworkBlockMessage A F C N) (network : N) (asn : A)
      → (laws : StoreLaws S kv) → msg.network ≡ some network
      → block_network registry codec b msg ≡ (b', none)
      → 1_000_000_000 ≤ b.block_ttl
      → laws.IsReadable b.store
      → laws.IsReadable b'.store
      → let key = cidr_namespace (registry.cidr network) in
        ((v : Bytes) → codec.encode_network msg ≡ some v → IsDecodable codec.decode_block v)
        → ((v : Bytes) → kv.get b.store key ≡ ok v → IsDecodable codec.decode_block v)
        → registry.asn_network asn ≡ some network
        → ((is_found (is_blocked_by_asn registry codec b msg.asn) ≡ done true) × (b' ≡ b))
          ⊎ (is_found (is_blocked_by_asn registry codec b' (some asn)) ≡ done true)
  unfolding block_network
  block_network-is_found b b' msg network asn laws e h ttl r r' new before shared =
      store_network_lem b b' msg network asn _ laws refl (rw (e, block_network) at h) ttl r r' new
        before shared
