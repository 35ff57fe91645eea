-- ===== src/Api/Pages.antt =====
-- getIPs, getBlockedIPs, getIP and getStats.
use mathlib.Core.Option
use botex.Prelude.{
  ℕ, String, Option, none, some, Bool, true, ◌&&◌, List, [], ◌∷◌, map, ltb, ◌==◌, if◌then◌else◌,
  str_eq,
}
use botex.Prelude.Atoi.{ℤ, pos, negsuc, atoi}
use botex.Prelude.Sort.{sort_desc}
use botex.Data.{Bytes, Request, IpBlockMessage}
use botex.Treemap.{Treemap, Entries}
use botex.StatsWindows
use botex.StatsWindows.{all_stats}
use botex.Store.{StoreError, KvStore}
use botex.Whitelist.{IpDetails}
use botex.Block.{Block, ip_namespace}
use botex.Requests.{latest_requests, useragents}
use botex.IpData.{IpData}
use botex.History.{Net, History, ip_data, each_client}
use botex.Api.{Answer, ok, not_found, failed}

-- The number of an asndb.ASN, and the networks of package net.
pub record Filters (N A : Type 0) : Type 0 where
  pub asn_number : A → ℕ
  pub parse_cidr : Bytes → Option N
  pub contains : N → Bytes → Bool

abbrev or_zero : Option ℤ → ℕ
or_zero (some (pos n)) = n
or_zero (some (negsuc n)) = 0
or_zero none = 0

-- A number that is not positive filters nothing.
abbrev pub asn_filter : Bytes → ℕ
asn_filter [] = 0
asn_filter (c ∷ cs) = or_zero (atoi (c ∷ cs))

abbrev pub network_filter : {N A : Type 0} → Filters N A → Bytes → Option N
network_filter filters [] = none
network_filter filters (c ∷ cs) = filters.parse_cidr (c ∷ cs)

module _ {N A G F : Type 0} (filters : Filters N A) where
  abbrev pub is_inside : Option N → IpDetails A G F → Bool
  is_inside none d = true
  is_inside (some network) d = filters.contains network d.ip

module _ {N A : Type 0} (filters : Filters N A) where
  -- The tests of the callback; the number of a nil system panics.
  unfoldable pub has_asn : ℕ → Option A → Option Bool
  has_asn asn none = if ltb 0 asn then none else some true
  has_asn asn (some a) = some (if ltb 0 asn then filters.asn_number a == asn else true)

module _ {M N A G F : Type 0} (filters : Filters N A) where
  -- The clients that pass, in the order of the map.
  unfoldable pub collect_ips :
      ℕ → Option N → List (String × IpData M A G F) → Option (List (IpDetails A G F))
  unfolding has_asn
  collect_ips asn network [] = some []
  collect_ips asn network ((key, ipd) ∷ clients) =
      let rest = collect_ips asn network clients in
      elim (has_asn filters asn ipd.details.asn) [
        | none ↦ none
        | some same ↦ elim rest [
          | none ↦ none
          | some ips ↦
              some
                (if same && is_inside filters network ipd.details then ipd.details ∷ ips else ips)
        ]
      ]

abbrev pub ip_key : {A G F : Type 0} → String → IpDetails A G F → ℕ
ip_key sort d = if str_eq sort "total" then d.total else d.created_at

abbrev pub block_key : {A F C : Type 0} → String → IpBlockMessage A F C → ℕ
block_key sort m = if str_eq sort "total" then m.total else m.blocked_at

-- The answer with the sorted list.
unfoldable pub sorted_ips :
    {A G F : Type 0}
    → String
    → Option (List (IpDetails A G F))
    → Option (Answer (List (IpDetails A G F)))
sorted_ips sort none = none
sorted_ips sort (some ips) = some (ok (sort_desc (ip_key sort) ips))

module _ {M W N A G F : Type 0} (filters : Filters N A) where
  -- `sort`, `asn` and `network` are the parameters of the query.
  unfoldable pub get_ips :
      String → Bytes → Bytes → History M W A G F → Option (Answer (List (IpDetails A G F)))
  unfolding collect_ips sorted_ips
  get_ips sort asn network h =
      sorted_ips sort
        (collect_ips filters (asn_filter asn) (network_filter filters network) (each_client h))

abbrev pub with_numbers :
    {M A G F C : Type 0} → IpBlockMessage A F C → Option (IpData M A G F) → IpBlockMessage A F C
with_numbers m none = m
with_numbers m (some ipd) = record m {
  block = record m.block {
    stats = record m.block.stats {
      total = ipd.details.total;
      app = ipd.details.app;
      other = ipd.details.other;
      ratio = ipd.details.ratio;
    };
  };
}

module _ {M W A G F C : Type 0} (net : Net A G) where
  -- A message with the numbers of the client as they are now, if there is one.
  abbrev pub refresh : History M W A G F → IpBlockMessage A F C → IpBlockMessage A F C
  refresh h m = with_numbers m (ip_data net h (Option.get_or m.ip []))

abbrev pub sorted_blocks :
    {A F C : Type 0}
    → String
    → List (IpBlockMessage A F C)
    → Option StoreError
    → Answer (List (IpBlockMessage A F C))
sorted_blocks sort blocked none = ok (sort_desc (block_key sort) blocked)
sorted_blocks sort blocked (some e) = failed

module _ {M W S A G F C : Type 0} ⦃kv : KvStore S⦄ (net : Net A G)
    (unmarshal : Bytes → IpBlockMessage A F C) where
  -- `unmarshal` is the message that json.Unmarshal leaves, whether it fails or not.
  unfoldable pub get_blocked_ips :
      String → Block S → History M W A G F → Answer (List (IpBlockMessage A F C))
  get_blocked_ips sort b h =
      let (values, e) = kv.each b.store (ip_namespace []) in
      sorted_blocks sort (map (λ v. refresh net h (unmarshal v)) values) e

-- `data` of getIP.
pub record IpPage (A G F : Type 0) : Type 0 where
  pub ip_details : IpDetails A G F
  pub requests : List (Request A)
  pub useragents : List (String × ℕ)

module _ {M A G F : Type 0} ⦃tm : Treemap M ℕ⦄ where
  unfoldable pub ip_page : Option (IpData M A G F) → Answer (IpPage A G F)
  ip_page none = not_found
  ip_page (some ipd) = ok record {
    ip_details = ipd.details;
    requests = latest_requests ipd.requests;
    useragents = useragents ipd.requests;
  }

module _ {M W A G F : Type 0} ⦃tm : Treemap M ℕ⦄ (net : Net A G) where
  unfoldable pub get_ip : String → History M W A G F → Answer (IpPage A G F)
  unfolding ip_page
  get_ip ip h = ip_page (ip_data net h (Option.get_or (net.parse_ip ip) []))

module _ {M W A G F : Type 0} ⦃wm : Treemap W StatsWindows.Stats⦄ where
  -- The keys of the answer are instants; the source writes them as texts.
  unfoldable pub get_stats : History M W A G F → Answer (Entries StatsWindows.Stats)
  get_stats h = ok (all_stats h.stats)
