-- ===== src/Block/Tests.antt =====
-- The theorems at a database in memory, with messages whose code is their total.
use botex.Prelude.{
  ℕ, ◌≡◌, ◌⊎◌, refl, Option, none, some, true, false, [], ◌∷◌, if◌then◌else◌, arith,
}
use botex.Data.{Bytes, BlockMessage, IpBlockMessage, NetworkBlockMessage}
use botex.Matchers.{codes}
use botex.Store.{not_found, ok, KvStore}
use botex.Store.Prefix.{bytes_eq}
use botex.Store.Badger.{
  put_key, find_key, get, item_value, after_commit, set_ex, remove, badger_store,
}
use botex.Store.Badger.Laws.{IsHealthy, badger_laws}
use botex.Store.Badger.Memory.{Memory, memory_db}
use botex.Block.{
  Block, store_error, done, error, Registry, Codec, set_store, write_new, write_once, decode_stored,
  block_namespace, ip_namespace, asn_namespace, cidr_namespace,
}
use botex.Block.Lookup.{
  is_found, reason_or, blocked_or, get_ip, get_network, get_asn, network_reason, is_blocked_by_asn,
  is_blocked,
}
use botex.Block.Change.{
  block_ip, block_address, remove_ip, remove_asn, clear, store_asn, block_asn, store_network,
  block_network,
}
use botex.Block.Laws.{block_ip-is_blocked}
use botex.Block.Systems.{block_asn-is_found, block_network-is_found}
use botex.Block.Unblock.{remove_ip-get_ip, remove_asn-longer, clear-is_blocked}

pub record System : Type 0 where
  pub number : ℕ
  pub network : Bytes

abbrev pub registry : Registry System Bytes
registry = record { asn_number = λ a. a.number; asn_network = λ a. some a.network; cidr = λ n. n }

abbrev hetzner : System
hetzner = record { number = 12; network = codes "5.9.0.0/16" }

abbrev hetzner_branch : System
hetzner_branch = record { number = 123; network = codes "5.10.0.0/16" }

abbrev message : ℕ → BlockMessage System ℕ ℕ
message n = record {
  stats = record { total = n; app = 0; other = n; ratio = 0; ips = 1; asn = some hetzner };
  reason = "too many requests";
  city = none;
  blocked_at = 0;
}

abbrev from_total : Bytes → Option (BlockMessage System ℕ ℕ)
from_total [] = none
from_total (n ∷ ns) = some (message n)

abbrev pub json : Codec System ℕ ℕ Bytes Bytes
json = record {
  encode_ip = λ m. some (m.total ∷ []);
  encode_network = λ m. some (m.total ∷ []);
  encode_block = λ m. some (m.total ∷ []);
  decode_ip = λ v. none;
  decode_network = λ v. none;
  decode_block = from_total;
  decode_ipnet = some;
  decode_asn = λ v. none;
  decode_details = some;
}

abbrev pub local : Bytes
local = 10 ∷ 0 ∷ 0 ∷ 1 ∷ []

abbrev pub neighbour : Bytes
neighbour = 10 ∷ 0 ∷ 0 ∷ 2 ∷ []

abbrev ip_message : IpBlockMessage System ℕ ℕ
ip_message = record { block = message 7; ip = some local; hostname = "" }

abbrev network_message : NetworkBlockMessage System ℕ ℕ Bytes
network_message = record { block = message 7; network = some (codes "5.9.0.0/16") }

abbrev pub empty_block : Block Memory
empty_block = record {
  network_cache = [];
  asn_cache = [];
  store = record { held = []; ordered = tt };
  block_ttl = 3_600_000_000_000;
}

abbrev pub ip_blocked : Block Memory
ip_blocked = (block_ip json empty_block ip_message).0

pub healthy : (d : Memory) → IsHealthy d
healthy d = record { views = refl; values = λ k. refl }

block_ip-is_blocked_example : is_blocked registry json ip_blocked neighbour (some hetzner) ≡ (
    if bytes_eq local neighbour
    then done true
    else is_blocked registry json empty_block neighbour (some hetzner))
unfolding block_ip block_address write_once write_new set_store get item_value find_key set_ex
    after_commit
block_ip-is_blocked_example =
    block_ip-is_blocked registry json empty_block ip_blocked ip_message local badger_laws refl refl
      (omega arith) (healthy _) (healthy _) (λ v e. (v, refl)) (λ v e. (v, refl)) neighbour
      (some hetzner)

-- The address that was blocked.
local_blocked : is_blocked registry json ip_blocked local (some hetzner) ≡ done true
unfolding block_ip is_blocked blocked_or get_ip decode_stored get item_value find_key block_address
    write_once set_ex after_commit put_key bytes_eq ip_namespace
local_blocked = refl

remove_ip-get_ip_run : get_ip registry json (remove_ip ip_blocked local).0 neighbour ≡ (
    if bytes_eq local neighbour
    then error (store_error not_found)
    else get_ip registry json ip_blocked neighbour)
unfolding remove_ip set_store remove after_commit
remove_ip-get_ip_run =
    remove_ip-get_ip registry json ip_blocked (remove_ip ip_blocked local).0 local neighbour
      badger_laws refl (healthy _) (healthy _) refl

abbrev asn_blocked : Block Memory
asn_blocked = (block_asn registry json empty_block (message 7)).0

total_decoded :
    (v : Bytes) (t : ℕ)
    → some (t ∷ []) ≡ some v
    → (x : BlockMessage System ℕ ℕ) × (from_total v ≡ some x)
total_decoded [] t e = absurd (cc)
total_decoded (n ∷ ns) t e = (message n, refl)

pub nothing_stored :
    (j : Bytes) {X : Type 0} → (v : Bytes) → KvStore.get badger_store empty_block.store j ≡ ok v → X
unfolding get item_value find_key
nothing_stored j v e = absurd (cc)

block_asn-is_found_run :
    (is_found (is_blocked_by_asn registry json asn_blocked (some hetzner)) ≡ done true)
    × (get_ip registry json asn_blocked local ≡ get_ip registry json empty_block local)
unfolding block_asn store_asn is_blocked_by_asn reason_or get_asn network_reason get_network
    decode_stored get item_value find_key write_once write_new set_store set_ex after_commit
block_asn-is_found_run =
    block_asn-is_found registry json empty_block asn_blocked (message 7) hetzner local badger_laws
      refl refl (omega arith) (healthy _) (healthy _) (λ v e. total_decoded v 7 e)
      (λ v e. nothing_stored (asn_namespace 12) v e)

abbrev network_blocked : Block Memory
network_blocked = (block_network registry json empty_block network_message).0

block_network-is_found_run :
    ((is_found (is_blocked_by_asn registry json empty_block (some hetzner)) ≡ done true)
      × (network_blocked ≡ empty_block))
    ⊎ (is_found (is_blocked_by_asn registry json network_blocked (some hetzner)) ≡ done true)
unfolding block_network store_network is_blocked_by_asn reason_or get_asn network_reason get_network
    decode_stored get item_value find_key write_once write_new set_store set_ex after_commit
block_network-is_found_run =
    block_network-is_found registry json empty_block network_blocked network_message
      (codes "5.9.0.0/16") hetzner badger_laws refl refl (omega arith) (healthy _) (healthy _)
      (λ v e. total_decoded v 7 e) (λ v e. nothing_stored (cidr_namespace (codes "5.9.0.0/16")) v e)
      refl

remove_asn-longer_run :
    (get_asn registry json (remove_asn registry asn_blocked hetzner).0 hetzner_branch
      ≡ error (store_error not_found))
    × (get_ip registry json (remove_asn registry asn_blocked hetzner).0 local
        ≡ get_ip registry json asn_blocked local)
unfolding remove_asn set_store remove after_commit
remove_asn-longer_run =
    remove_asn-longer registry json asn_blocked (remove_asn registry asn_blocked hetzner).0 hetzner
      hetzner_branch local 3 badger_laws refl (healthy _) (healthy _) (omega arith) (omega arith)
      refl

clear-is_blocked_run : is_blocked registry json (clear ip_blocked) local (some hetzner) ≡ done false
unfolding remove after_commit
clear-is_blocked_run =
    clear-is_blocked registry json ip_blocked (remove ip_blocked.store block_namespace).0 local
      hetzner (codes "5.9.0.0/16") badger_laws refl (healthy _) (healthy _) refl
