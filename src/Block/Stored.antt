-- ===== src/Block/Stored.antt =====
-- The writes of the block list seen through the store's laws, and the keys of its three kinds.
use botex.Prelude.{
  ℕ, ◌≤◌, ◌≡◌, inl, inr, refl, sym, ap, ◌∙◌, Option, none, some, true, false, [], ◌∷◌, ◌++◌, ltb,
  arith, Bool-cases, length,
}
use botex.Data.{Bytes}
use botex.Matchers.{codes}
use botex.Store.{StoreError, not_found, failed, Result, ok, err, KvStore}
use botex.Store.Prefix.{bytes_eq, bytes_eq_iff, has_prefix}
use botex.Store.Laws.{StoreLaws}
use botex.Block.{
  Block, set_store, write_new, write_once, block_namespace, ip_namespace, asn_namespace,
  cidr_namespace,
}

bytes_eq-++ : (p a b : Bytes) → bytes_eq (p ++ a) (p ++ b) ≡ bytes_eq a b
unfolding bytes_eq
bytes_eq-++ [] a b = refl
bytes_eq-++ (c ∷ p) a b = ground (arith, bytes_eq-++ p a b)

has_prefix-++ : (p a b : Bytes) → has_prefix (p ++ a) (p ++ b) ≡ has_prefix a b
unfolding has_prefix
has_prefix-++ [] a b = refl
has_prefix-++ (c ∷ p) a b = ground (arith, has_prefix-++ p a b)

pub bytes_eq-ip_namespace :
    (a b : Bytes) → bytes_eq (ip_namespace a) (ip_namespace b) ≡ bytes_eq a b
unfolding ip_namespace
bytes_eq-ip_namespace a b = bytes_eq-++ (codes "bl:ip:") a b

pub has_prefix-ip_namespace :
    (a b : Bytes) → has_prefix (ip_namespace a) (ip_namespace b) ≡ has_prefix a b
unfolding ip_namespace
has_prefix-ip_namespace a b = has_prefix-++ (codes "bl:ip:") a b

pub ip_namespace-asn_namespace :
    (a : Bytes) (n : ℕ) → bytes_eq (ip_namespace a) (asn_namespace n) ≡ false
unfolding bytes_eq ip_namespace asn_namespace
ip_namespace-asn_namespace a n = elim (Bool-cases (ltb 0 n)) [
  | inl e ↦ rw e refl
  | inr e ↦ rw e refl
]

pub ip_namespace-cidr_namespace :
    (a c : Bytes) → bytes_eq (ip_namespace a) (cidr_namespace c) ≡ false
unfolding bytes_eq ip_namespace cidr_namespace
ip_namespace-cidr_namespace a c = refl

module _ {S : Type 0} where
  pub set_store_ok :
      (b b' : Block S) (r : S × Option StoreError)
      → set_store b r ≡ (b', none)
      → r ≡ (b'.store, none)
  unfolding set_store
  set_store_ok b b' (s, none) h = ap (λ r. (r.0.store, none)) h
  set_store_ok b b' (s, some e) h = absurd (cc)

-- What is stored under the key in the end: the value of before, or the new one.
pub data IsStored (old : Result Bytes) (value : Option Bytes) (now : Result Bytes) : Type 0 where
  kept : (c : ℕ) (rest : Bytes) → old ≡ ok (c ∷ rest) → now ≡ old → IsStored old value now
  written : (v : Bytes) → value ≡ some v → now ≡ ok v → IsStored old value now

module _ {S : Type 0} ⦃kv : KvStore S⦄ (laws : StoreLaws S kv) where
  write_new_ok :
      (b b' : Block S) (key : Bytes) (value : Option Bytes) (old : Result Bytes)
      → write_new b key value ≡ (b', none)
      → 1_000_000_000 ≤ b.block_ttl
      → laws.IsReadable b.store
      → laws.IsReadable b'.store
      → IsStored old value (kv.get b'.store key)
        × ((j : Bytes) → bytes_eq key j ≡ false → kv.get b'.store j ≡ kv.get b.store j)
  unfolding write_new
  write_new_ok b b' key none old h ttl r r' = absurd (cc)
  write_new_ok b b' key (some v) old h ttl r r' =
      let reads =
        laws.get-set_ex b.store b'.store key v b.block_ttl (set_store_ok b b' _ h) ttl r r' in
      let same : bytes_eq key key ≡ true = (bytes_eq_iff key key).1 refl in
      (written v refl (reads key ∙ rw same refl), λ j e. reads j ∙ rw e refl)

  -- A write that reports no error leaves a value under the key, and nothing changes elsewhere.
  pub write_once_ok :
      (b b' : Block S) (key : Bytes) (value : Option Bytes) (old : Result Bytes)
      → old ≡ kv.get b.store key
      → write_once b key value old ≡ (b', none)
      → 1_000_000_000 ≤ b.block_ttl
      → laws.IsReadable b.store
      → laws.IsReadable b'.store
      → IsStored old value (kv.get b'.store key)
        × ((j : Bytes) → bytes_eq key j ≡ false → kv.get b'.store j ≡ kv.get b.store j)
  unfolding write_once
  write_once_ok b b' key value (err (failed n)) g h ttl r r' = absurd (cc)
  write_once_ok b b' key value (err not_found) g h ttl r r' =
      write_new_ok b b' key value _ h ttl r r'
  write_once_ok b b' key value (ok []) g h ttl r r' = write_new_ok b b' key value _ h ttl r r'
  write_once_ok b b' key value (ok (c ∷ rest)) g h ttl r r' =
      let same : b ≡ b' = ap (λ x. x.0) h in
      (
        kept c rest refl (ap (λ x. kv.get x.store key) (sym same) ∙ sym g),
        λ j e. ap (λ x. kv.get x.store j) (sym same),
      )

pub asn_namespace-ip_namespace :
    (a : Bytes) (n : ℕ) → bytes_eq (asn_namespace n) (ip_namespace a) ≡ false
unfolding bytes_eq ip_namespace asn_namespace
asn_namespace-ip_namespace a n = elim (Bool-cases (ltb 0 n)) [
  | inl e ↦ rw e refl
  | inr e ↦ rw e refl
]

pub asn_namespace-cidr_namespace :
    (n : ℕ) (cidr : Bytes) → bytes_eq (asn_namespace n) (cidr_namespace cidr) ≡ false
unfolding bytes_eq cidr_namespace asn_namespace
asn_namespace-cidr_namespace n cidr = elim (Bool-cases (ltb 0 n)) [
  | inl e ↦ rw e refl
  | inr e ↦ rw e refl
]

pub has_prefix-asn_namespace-ip :
    (a : Bytes) (n : ℕ) → has_prefix (asn_namespace n) (ip_namespace a) ≡ false
unfolding has_prefix ip_namespace asn_namespace
has_prefix-asn_namespace-ip a n = elim (Bool-cases (ltb 0 n)) [
  | inl e ↦ rw e refl
  | inr e ↦ rw e refl
]

-- Every key of the block list starts with its namespace.
pub block_namespace-prefixes :
    (ip cidr : Bytes) (n : ℕ)
    → (has_prefix block_namespace (ip_namespace ip) ≡ true)
      × (has_prefix block_namespace (asn_namespace n) ≡ true)
      × (has_prefix block_namespace (cidr_namespace cidr) ≡ true)
unfolding has_prefix ip_namespace asn_namespace cidr_namespace
block_namespace-prefixes ip cidr n =
    (refl, elim (Bool-cases (ltb 0 n)) [ inl e ↦ rw e refl | inr e ↦ rw e refl ], refl)

-- Among keys of one length, the only one with a prefix of that length is the prefix.
pub has_prefix-bytes_eq : (p k : Bytes) → length p ≡ length k → has_prefix p k ≡ bytes_eq p k
unfolding has_prefix bytes_eq
has_prefix-bytes_eq [] [] h = refl
has_prefix-bytes_eq [] (d ∷ k) h = absurd (omega arith)
has_prefix-bytes_eq (c ∷ p) [] h = absurd (omega arith)
has_prefix-bytes_eq (c ∷ p) (d ∷ k) h = rw (has_prefix-bytes_eq p k (omega arith)) refl

pub cidr_namespace-ip_namespace :
    (a c : Bytes) → bytes_eq (cidr_namespace c) (ip_namespace a) ≡ false
unfolding bytes_eq ip_namespace cidr_namespace
cidr_namespace-ip_namespace a c = refl
