-- ===== src/Block.antt =====
-- block.go: the block list over the key/value store. Parameters: the numbers and networks of an
-- asndb.ASN and the text of a net.IPNet (Registry), and encoding/json on the messages (Codec, with
-- `P` for IPDetails; a failed decoding is none). A cache, a Go map to `true`, is the list of its
-- keys. An autonomous system number is a natural number: 0 stands for all that are not positive.
-- A nil dereference ends the goroutine; here it is the error `panicked`. Sending on a channel and
-- logging are left out.
mod Keys
pub mod Lookup
pub mod Listing
pub mod Change
pub mod Stored
pub mod Laws
pub mod Systems
pub mod Unblock
pub mod Recheck
pub mod Tests
unfoldable pub use Keys.{
  block_namespace, decimal_from, decimal, ip_namespace, asn_namespace, cidr_namespace,
}
use mathlib.Core.Option
use botex.Prelude.{
  ℕ, zero, suc, ◌+◌, ◌-◌, ◌≤◌, String, Option, none, some, Bool, true, false, List, [], ◌∷◌, ◌++◌,
  ltb, ◌==◌, if◌then◌else◌, length, map,
}
use botex.Data.{Bytes, Stats, BlockMessage, IpBlockMessage, NetworkBlockMessage}
use botex.Window.{Duration}
use botex.Store.{StoreError, not_found, failed, Result, ok, err, KvStore}

pub record Registry (A N : Type 0) : Type 0 where
  pub asn_number : A → ℕ
  pub asn_network : A → Option N
  -- `IPNet.String()`
  pub cidr : N → Bytes

pub record Codec (A F C N P : Type 0) : Type 0 where
  pub encode_ip : IpBlockMessage A F C → Option Bytes
  pub encode_network : NetworkBlockMessage A F C N → Option Bytes
  pub encode_block : BlockMessage A F C → Option Bytes
  pub decode_ip : Bytes → Option (IpBlockMessage A F C)
  pub decode_network : Bytes → Option (NetworkBlockMessage A F C N)
  pub decode_block : Bytes → Option (BlockMessage A F C)
  pub decode_ipnet : Bytes → Option N
  pub decode_asn : Bytes → Option A
  pub decode_details : Bytes → Option P

pub data BlockError : Type 0 where
  ip_is_nil network_is_nil asn_is_nil encoding panicked : BlockError
  store_error : StoreError → BlockError

pub data Outcome (A : Type 0) : Type 0 where
  done : A → Outcome A
  error : BlockError → Outcome A

pub record Block (S : Type 0) : Type 0 where
  pub network_cache : List Bytes
  pub asn_cache : List ℕ
  pub store : S
  pub block_ttl : Duration

abbrev pub to_error : Option StoreError → Option BlockError
to_error none = none
to_error (some e) = some (store_error e)

unfoldable pub or_encoding : {X : Type 0} → Option X → Outcome X
or_encoding none = error encoding
or_encoding (some x) = done x

-- The decoded values; a value that fails to decode is skipped.
unfoldable pub decode_some : {X : Type 0} → (Bytes → Option X) → List Bytes → List X
decode_some decode [] = []
decode_some decode (v ∷ vs) =
    let rest = decode_some decode vs in elim (decode v) [ none ↦ rest | some x ↦ x ∷ rest ]

-- The decoded values; the first that fails to decode ends the call.
unfoldable pub decode_every : {X : Type 0} → (Bytes → Option X) → List Bytes → Outcome (List X)
decode_every decode [] = done []
decode_every decode (v ∷ vs) =
    let rest = decode_every decode vs in
    elim (decode v) [
      | none ↦ error encoding
      | some x ↦ elim rest [ done xs ↦ done (x ∷ xs) | error e ↦ error e ]
    ]

unfoldable pub decode_stored : {X : Type 0} → (Bytes → Option X) → Result Bytes → Outcome X
unfolding or_encoding
decode_stored decode (err e) = error (store_error e)
decode_stored decode (ok v) = or_encoding (decode v)

unfoldable pub decode_all :
    {X : Type 0} → (Bytes → Option X) → Result (List Bytes) → Outcome (List X)
unfolding decode_every
decode_all decode (err e) = error (store_error e)
decode_all decode (ok vs) = decode_every decode vs

unfoldable pub set_store :
    {S : Type 0} → Block S → S × Option StoreError → Block S × Option BlockError
set_store b (s, e) = (record b { store = s }, to_error e)

module _ {S : Type 0} ⦃kv : KvStore S⦄ where
  -- `json.Marshal` and `SetEx`, where nothing is stored under the key yet.
  unfoldable pub write_new : Block S → Bytes → Option Bytes → Block S × Option BlockError
  unfolding set_store
  write_new b key none = (b, some encoding)
  write_new b key (some value) = set_store b (kv.set_ex b.store key value b.block_ttl)

  -- The end of each of the three `Block…` methods, behind its guards.
  unfoldable pub write_once :
      Block S → Bytes → Option Bytes → Result Bytes → Block S × Option BlockError
  unfolding write_new
  write_once b key value (err (failed n)) = (b, some (store_error (failed n)))
  write_once b key value (err not_found) = write_new b key value
  write_once b key value (ok []) = write_new b key value
  write_once b key value (ok (c ∷ old)) = (b, none)
