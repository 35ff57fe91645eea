-- ===== src/Block/Laws.antt =====
-- What blocking and unblocking change.
use botex.Prelude.{
  ℕ, ◌≤◌, ◌≡◌, inl, inr, refl, sym, ap, subst, ◌∙◌, Option, none, some, true, ◌∷◌, if◌then◌else◌,
  Bool-cases,
}
use botex.Data.{Bytes, IpBlockMessage}
use botex.Store.{Result, ok, KvStore}
use botex.Store.Prefix.{bytes_eq, bytes_eq_iff}
use botex.Store.Laws.{StoreLaws}
use botex.Block.{
  Block, done, Registry, Codec, decode_stored, or_encoding, ip_namespace, asn_namespace,
  cidr_namespace,
}
use botex.Block.Stored.{
  IsStored, kept, written, write_once_ok, bytes_eq-ip_namespace, ip_namespace-asn_namespace,
  ip_namespace-cidr_namespace,
}
use botex.Block.Lookup.{
  is_found, reason_or, blocked_or, get_ip, get_network, get_asn, network_reason, is_blocked_by_asn,
  is_blocked,
}
use botex.Block.Change.{block_ip, block_address}

-- The value can be read back.
abbrev pub IsDecodable : {X : Type 0} → (Bytes → Option X) → Bytes → Type 0
IsDecodable {X = X} decode v = (x : X) × (decode v ≡ some x)

module _ {X : Type 0} (decode : Bytes → Option X) where
  decode_stored-decodable :
      (v : Bytes) → IsDecodable decode v → (x : X) × (decode_stored decode (ok v) ≡ done x)
  unfolding decode_stored or_encoding
  decode_stored-decodable v (x, e) = (x, rw e refl)

  pub stored-decoded :
      (old now : Result Bytes) (value : Option Bytes)
      → IsStored old value now
      → ((v : Bytes) → value ≡ some v → IsDecodable decode v)
      → ((v : Bytes) → old ≡ ok v → IsDecodable decode v)
      → (x : X) × (decode_stored decode now ≡ done x)
  stored-decoded old now value (kept c rest e same) new before =
      let (x, d) = decode_stored-decodable (c ∷ rest) (before (c ∷ rest) e) in
      (x, ap (decode_stored decode) (same ∙ e) ∙ d)
  stored-decoded old now value (written v e same) new before =
      let (x, d) = decode_stored-decodable v (new v e) in (x, ap (decode_stored decode) same ∙ d)

module _ {S A F C N P : Type 0} ⦃kv : KvStore S⦄ (registry : Registry A N)
    (codec : Codec A F C N P) where
  -- The test depends on the address, and on what is stored about the autonomous system.
  pub is_blocked-stored :
      (b : Block S) (ip : Bytes) (asn : Option A) (details : P)
      → get_ip registry codec b ip ≡ done details
      → is_blocked registry codec b ip asn ≡ done true
  unfolding is_blocked blocked_or
  is_blocked-stored b ip asn details h =
      ap (λ r. blocked_or r (is_found (is_blocked_by_asn registry codec b asn))) h

  network_reason-agree :
      (b b' : Block S) (n : Option N)
      → ((c : Bytes) → kv.get b'.store (cidr_namespace c) ≡ kv.get b.store (cidr_namespace c))
      → network_reason registry codec b' n ≡ network_reason registry codec b n
  unfolding network_reason get_network
  network_reason-agree b b' none q = refl
  network_reason-agree b b' (some n) q =
      ap (λ r. reason_or (decode_stored codec.decode_block r) (done none)) (q (registry.cidr n))

  -- Two stores that agree on the keys of networks and autonomous systems block the same ones.
  pub is_blocked_by_asn-agree :
      (b b' : Block S) (asn : Option A)
      → ((n : ℕ) → kv.get b'.store (asn_namespace n) ≡ kv.get b.store (asn_namespace n))
      → ((c : Bytes) → kv.get b'.store (cidr_namespace c) ≡ kv.get b.store (cidr_namespace c))
      → is_blocked_by_asn registry codec b' asn ≡ is_blocked_by_asn registry codec b asn
  unfolding is_blocked_by_asn get_asn
  is_blocked_by_asn-agree b b' none p q = refl
  is_blocked_by_asn-agree b b' (some a) p q =
      ap
        (λ r.
          reason_or (decode_stored codec.decode_block r)
            (network_reason registry codec b' (registry.asn_network a)))
        (p (registry.asn_number a))
      ∙ ap (reason_or (get_asn registry codec b a))
          (network_reason-agree b b' (registry.asn_network a) q)

  pub is_blocked-agree :
      (b b' : Block S) (ip : Bytes) (asn : Option A)
      → kv.get b'.store (ip_namespace ip) ≡ kv.get b.store (ip_namespace ip)
      → ((n : ℕ) → kv.get b'.store (asn_namespace n) ≡ kv.get b.store (asn_namespace n))
      → ((c : Bytes) → kv.get b'.store (cidr_namespace c) ≡ kv.get b.store (cidr_namespace c))
      → is_blocked registry codec b' ip asn ≡ is_blocked registry codec b ip asn
  unfolding is_blocked get_ip
  is_blocked-agree b b' ip asn i p q =
      ap
        (λ r.
          blocked_or (decode_stored codec.decode_details r)
            (is_found (is_blocked_by_asn registry codec b' asn)))
        i
      ∙ ap (λ r. blocked_or (get_ip registry codec b ip) (is_found r))
          (is_blocked_by_asn-agree b b' asn p q)

  -- What a successful BlockIP has stored can be read back.
  pub block_ip-get_ip :
      (b b' : Block S) (msg : IpBlockMessage A F C) (ip : Bytes) (laws : StoreLaws S kv)
      → msg.ip ≡ some ip
      → block_ip codec b msg ≡ (b', none)
      → 1_000_000_000 ≤ b.block_ttl
      → laws.IsReadable b.store
      → laws.IsReadable b'.store
      → ((v : Bytes) → codec.encode_ip msg ≡ some v → IsDecodable codec.decode_details v)
      → ((v : Bytes) → kv.get b.store (ip_namespace ip) ≡ ok v → IsDecodable codec.decode_details v)
      → (x : P) × (get_ip registry codec b' ip ≡ done x)
  unfolding block_ip block_address get_ip
  block_ip-get_ip b b' msg ip laws e h ttl r r' new before =
      let w =
        write_once_ok laws b b' (ip_namespace ip) _ _ refl
          (sym (ap (block_address codec b msg) e) ∙ h) ttl r r' in
      stored-decoded codec.decode_details _ _ _ w.0 new before

  -- BlockIP that reports no error, where reading fails neither before nor after it, the time to
  -- live is at least a second, and both the encoded message and what was under the key before can
  -- be read back: then the address is blocked, and every other address is blocked or not as before.
  pub block_ip-is_blocked :
      (b b' : Block S) (msg : IpBlockMessage A F C) (ip : Bytes) (laws : StoreLaws S kv)
      → msg.ip ≡ some ip
      → block_ip codec b msg ≡ (b', none)
      → 1_000_000_000 ≤ b.block_ttl
      → laws.IsReadable b.store
      → laws.IsReadable b'.store
      → ((v : Bytes) → codec.encode_ip msg ≡ some v → IsDecodable codec.decode_details v)
      → ((v : Bytes) → kv.get b.store (ip_namespace ip) ≡ ok v → IsDecodable codec.decode_details v)
      → (other : Bytes) (asn : Option A)
      → is_blocked registry codec b' other asn
        ≡ (if bytes_eq ip other then done true else is_blocked registry codec b other asn)
  unfolding block_ip block_address
  block_ip-is_blocked b b' msg ip laws e h ttl r r' new before other asn =
      let w =
        write_once_ok laws b b' (ip_namespace ip) _ _ refl
          (sym (ap (block_address codec b msg) e) ∙ h) ttl r r' in
      elim (Bool-cases (bytes_eq ip other)) [
        | inl same ↦ rw same (
            subst (λ o. is_blocked registry codec b' o asn ≡ done true)
              ((bytes_eq_iff ip other).0 same)
              (let (x, d) = block_ip-get_ip b b' msg ip laws e h ttl r r' new before in
                is_blocked-stored b' ip asn x d))
        | inr apart ↦ rw apart (
            is_blocked-agree b b' other asn
              (w.1 (ip_namespace other) (bytes_eq-ip_namespace ip other ∙ apart))
              (λ n. w.1 _ (ip_namespace-asn_namespace ip n))
              (λ c. w.1 _ (ip_namespace-cidr_namespace ip c)))
      ]
