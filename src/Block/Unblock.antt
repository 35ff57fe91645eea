-- ===== src/Block/Unblock.antt =====
-- What unblocking takes off the block list.
use botex.Prelude.{
  ℕ, zero, suc, ◌+◌, ◌*◌, ◌/◌, ◌%◌, ◌<◌, ◌≡◌, inl, inr, refl, ap, ◌∙◌, none, some, true, false, [],
  ◌∷◌, ◌++◌, ltb, if◌then◌else◌, arith, Bool-cases, length,
}
use botex.Data.{Bytes}
use botex.Store.{not_found, KvStore}
use botex.Store.Prefix.{bytes_eq, has_prefix, has_prefix_self}
use botex.Store.Laws.{StoreLaws}
use botex.Block.{
  Block, store_error, done, error, Registry, Codec, decode_stored, decimal_from, decimal,
  block_namespace, ip_namespace, asn_namespace, cidr_namespace,
}
use botex.Block.Stored.{
  set_store_ok, has_prefix-ip_namespace, has_prefix-bytes_eq, has_prefix-asn_namespace-ip,
  block_namespace-prefixes,
}
use botex.Block.Lookup.{
  is_found, reason_or, blocked_or, get_ip, get_network, get_asn, network_reason, is_blocked_by_asn,
  is_blocked,
}
use botex.Block.Change.{remove_ip, remove_asn, clear}

-- More fuel than digits changes nothing.
decimal_from-fuel :
    (fuel more n : ℕ) → n < fuel → n < more → decimal_from fuel n ≡ decimal_from more n
unfolding decimal_from
decimal_from-fuel zero more n h k = absurd (omega arith)
decimal_from-fuel (suc fuel) zero n h k = absurd (omega arith)
decimal_from-fuel (suc fuel) (suc more) n h k = elim (Bool-cases (ltb n 10)) [
  | inl e ↦ rw e refl
  | inr e ↦ rw e (rw (decimal_from-fuel fuel more (n / 10) (ground arith) (ground arith)) refl)
]

-- The digits of a number come first in those of a longer one.
decimal-append : (n d : ℕ) → 0 < n → d < 10 → decimal (n * 10 + d) ≡ decimal n ++ (b'0' + d) ∷ []
unfolding decimal decimal_from
decimal-append n d h k =
    let long : ltb (n * 10 + d) 10 ≡ false = ground arith in
    let high : (n * 10 + d) / 10 ≡ n = omega arith in
    let low : (n * 10 + d) % 10 ≡ d = omega arith in
    rw long (
      rw (high, low)
        (ap (λ t. t ++ (b'0' + d) ∷ [])
          (decimal_from-fuel (n * 10 + d) (suc n) n (omega arith) (omega arith))))

-- The key of a number is a prefix of the keys of the longer ones that start with its digits.
asn_namespace-longer :
    (n d : ℕ) → 0 < n → d < 10 → has_prefix (asn_namespace n) (asn_namespace (n * 10 + d)) ≡ true
unfolding asn_namespace has_prefix
asn_namespace-longer n d h k =
    let one : ltb 0 n ≡ true = ground arith in
    let two : ltb 0 (n * 10 + d) ≡ true = ground arith in
    rw one (rw two (rw (decimal-append n d h k) (has_prefix_self (decimal n) _)))

module _ {S A F C N P : Type 0} ⦃kv : KvStore S⦄ (registry : Registry A N)
    (codec : Codec A F C N P) where
  -- RemoveIP that reports no error, where reading fails neither before nor after it, unblocks that
  -- address; every other address of the same length has the details it had.
  pub remove_ip-get_ip :
      (b b' : Block S) (ip other : Bytes) (laws : StoreLaws S kv)
      → remove_ip b ip ≡ (b', none)
      → laws.IsReadable b.store
      → laws.IsReadable b'.store
      → length ip ≡ length other
      → get_ip registry codec b' other ≡ (
          if bytes_eq ip other
          then error (store_error not_found)
          else get_ip registry codec b other)
  unfolding remove_ip get_ip decode_stored
  remove_ip-get_ip b b' ip other laws h r r' same =
      let reads =
        laws.get-remove b.store b'.store (ip_namespace ip) (set_store_ok b b' _ h) r r'
          (ip_namespace other) in
      let exact = has_prefix-ip_namespace ip other ∙ has_prefix-bytes_eq ip other same in
      rw (rw exact at reads)
        (elim (Bool-cases (bytes_eq ip other)) [ inl e ↦ rw e refl | inr e ↦ rw e refl ])

  -- RemoveASN that reports no error, of a number that is positive, where reading fails neither
  -- before nor after it, unblocks also every autonomous system whose number has one more digit at
  -- its end. The blocked addresses stay as they were.
  pub remove_asn-longer :
      (b b' : Block S) (asn longer : A) (ip : Bytes) (d : ℕ) (laws : StoreLaws S kv)
      → remove_asn registry b asn ≡ (b', none)
      → laws.IsReadable b.store
      → laws.IsReadable b'.store
      → 0 < registry.asn_number asn
      → d < 10
      → registry.asn_number longer ≡ registry.asn_number asn * 10 + d
      → (get_asn registry codec b' longer ≡ error (store_error not_found))
        × (get_ip registry codec b' ip ≡ get_ip registry codec b ip)
  unfolding remove_asn get_asn get_ip decode_stored
  remove_asn-longer b b' asn longer ip d laws h r r' pos k e =
      let n = registry.asn_number asn in
      let reads = laws.get-remove b.store b'.store (asn_namespace n) (set_store_ok b b' _ h) r r' in
      let gone = rw (asn_namespace-longer n d pos k) at (reads (asn_namespace (n * 10 + d))) in
      let kept = rw (has_prefix-asn_namespace-ip ip n) at (reads (ip_namespace ip)) in
      (
        ap (λ m. decode_stored codec.decode_block (kv.get b'.store (asn_namespace m))) e
            ∙ ap (decode_stored codec.decode_block) gone,
        ap (decode_stored codec.decode_details) kept,
      )

  -- Clear, where the removal in it reports no error and reading fails neither before nor after it:
  -- then no address is blocked, whatever its autonomous system, if that has a network.
  pub clear-is_blocked :
      (b : Block S) (s' : S) (ip : Bytes) (asn : A) (network : N) (laws : StoreLaws S kv)
      → kv.remove b.store block_namespace ≡ (s', none)
      → laws.IsReadable b.store
      → laws.IsReadable s'
      → registry.asn_network asn ≡ some network
      → is_blocked registry codec (clear b) ip (some asn) ≡ done false
  unfolding clear is_blocked is_blocked_by_asn get_ip get_asn get_network network_reason
      decode_stored reason_or blocked_or is_found
  clear-is_blocked b s' ip asn network laws h r r' e =
      let n = registry.asn_number asn in
      let (i, a, c) = block_namespace-prefixes ip (registry.cidr network) n in
      let reads = laws.get-remove b.store s' block_namespace h r r' in
      let ip_gone = rw i at (reads (ip_namespace ip)) in
      let asn_gone = rw a at (reads (asn_namespace n)) in
      let network_gone = rw c at (reads (cidr_namespace (registry.cidr network))) in
      rw h (rw ip_gone (rw asn_gone (rw e (rw network_gone refl))))
