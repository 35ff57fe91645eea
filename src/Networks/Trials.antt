-- ===== src/Networks/Trials.antt =====
-- The blocks of Networks.Tests on a block list over a database in memory, with messages whose code
-- is their total.
use botex.Prelude.{ℕ, ◌≡◌, refl, Option, none, some, String, [], ◌∷◌, ◌==◌, All, arith}
use botex.Data.{Bytes, BlockMessage}
use botex.Store.Badger.{find_key, get, item_value, after_commit, set_ex, badger_store}
use botex.Store.Badger.Laws.{badger_laws}
use botex.Store.Badger.Memory.{memory_db}
use botex.Block.{Registry, Codec, set_store, write_new, write_once, decode_stored, asn_namespace}
use botex.Block.Lookup.{reason_or, get_network, get_asn, network_reason, is_blocked_by_asn}
use botex.Block.Change.{store_asn, block_asn}
use botex.Block.Tests.{empty_block, healthy, nothing_stored}
use botex.Treemap.Sorted.{sorted_map}
use botex.NetworkData
use botex.NetworkData.{new_network_data}
use botex.NetworkData.Tests.{addresses, whole_numbers}
use botex.Networks.{update_and_block}
use botex.Networks.Tests.{systems, config, networks, result}
use botex.Networks.Limits.{IsOver}
use botex.Networks.Enforcement.{block_asns, IsBlocked, IsEnforced, update_and_block-IsEnforced}

abbrev registry : Registry ℕ String
registry = record {
  asn_number = λ a. a;
  asn_network = λ a. some "5.9.0.0/16";
  cidr = λ n. 5 ∷ 9 ∷ [];
}

abbrev message : ℕ → BlockMessage ℕ ℕ ℕ
message n = record {
  stats = record { total = n; app = 0; other = n; ratio = 0; ips = 1; asn = some 7 };
  reason = "asn";
  city = none;
  blocked_at = 0;
}

abbrev from_total : Bytes → Option (BlockMessage ℕ ℕ ℕ)
from_total [] = none
from_total (n ∷ ns) = some (message n)

abbrev json : Codec ℕ ℕ ℕ String Bytes
json = record {
  encode_ip = λ m. some (m.total ∷ []);
  encode_network = λ m. some (m.total ∷ []);
  encode_block = λ m. some (m.total ∷ []);
  decode_ip = λ v. none;
  decode_network = λ v. none;
  decode_block = from_total;
  decode_ipnet = λ v. none;
  decode_asn = λ v. none;
  decode_details = some;
}

total_decoded :
    (v : Bytes) (t : ℕ)
    → some (t ∷ []) ≡ some v
    → (x : BlockMessage ℕ ℕ ℕ) × (from_total v ≡ some x)
total_decoded [] t e = absurd (cc)
total_decoded (n ∷ ns) t e = (message n, refl)

update_and_block-IsEnforced_example :
    let b' = block_asns registry json empty_block result.1.asns in
    All
      (λ m.
        IsOver ◌==◌ systems.number result.0.networks whole_numbers config m
        × IsEnforced registry json b' m)
      result.1.asns
    × ((other : ℕ) → IsBlocked registry json empty_block other → IsBlocked registry json b' other)
unfolding update_and_block NetworkData.expire NetworkData.expire_stats new_network_data block_asn
    store_asn is_blocked_by_asn reason_or get_asn network_reason get_network decode_stored get
    item_value find_key write_once write_new set_store set_ex after_commit
update_and_block-IsEnforced_example =
    update_and_block-IsEnforced registry json systems config badger_laws empty_block 110
      (λ cidr i. 110) networks result.0 result.1 refl
      (
        (
          7,
          record {
            lasts = omega arith;
            named = refl;
            stored = refl;
            before = healthy _;
            after = healthy _;
            encoded = λ v e. total_decoded v 5 e;
            held = λ v e. nothing_stored (asn_namespace 7) v e;
          },
        ),
        tt,
      )
