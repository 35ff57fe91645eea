-- ===== src/Networks.antt =====
-- plugins/network.go: all networks, by their texts, and the sums per autonomous system and per
-- network. Parameters: the fields of asndb.ASN and the text and mask of a *net.IPNet, which may be
-- nil (Systems), and the reasons that fmt.Sprintf makes. A nil dereference ends the program: none. The
-- calls of the blocker are results, in order; Networks.Enforcement makes those of BlockASN on a
-- block list. A map from numbers or texts is an association list.
pub mod Groups
pub mod Limits
pub mod Enforcement
pub mod Pages
pub mod Tests
pub mod Trials
use mathlib.Core.Option
use botex.Prelude.{
  ℕ, ◌+◌, ◌*◌, ◌/◌, String, Option, none, some, Bool, true, false, ◌&&◌, ◌||◌, List, [], ◌∷◌, ◌==◌,
  ltb, if◌then◌else◌, length, lookup, insert, delete, str_eq,
}
use botex.Float64.{Float64}
use botex.Treemap.{Treemap}
use botex.Data.{Bytes, Request, Stats, BlockMessage, NetworkBlockMessage}
use botex.Window.{Time, Duration}
use botex.MapWindow.{Clock}
use botex.NetworkData.{BidiMap, NetworkData, new_network_data, number_of_ips}
use botex.NetworkData

pub record Systems (A N F : Type 0) : Type 0 where
  pub number : A → ℕ
  pub cidr : A → String
  pub network : A → Option N
  pub net_text : Option N → String
  pub mask : A → Bytes
  pub asn_reason : ℕ → ℕ → F → F → String
  pub network_reason : ℕ → ℕ → F → F → String

-- The fields of config.Config that the plugin reads.
pub record Config (F : Type 0) : Type 0 where
  pub window_size : Duration
  pub num_windows : ℕ
  pub max_app_requests : ℕ
  pub max_ratio : F

-- An entry of the maps of `updateAndBlock`, with its count.
pub record Group (A F : Type 0) : Type 0 where
  pub stats : Stats A F
  pub count : ℕ

pub record Networks (M I A N F : Type 0) : Type 0 where
  pub networks : List (String × NetworkData M I A (Option N) F)
  pub asn_data : List (ℕ × Group A F)
  pub asn_average : ℕ
  pub net_data : List (String × Group A F)
  pub net_average : ℕ

-- `data.Stats` of NetworkStats, with NetworkSize and NetworkRatio.
pub record Averages (F : Type 0) : Type 0 where
  pub total : ℕ
  pub app : ℕ
  pub other : ℕ
  pub ratio : F
  pub network_size : ℕ
  pub network_ratio : F

-- What `updateAndBlock` does: BlockASN and BlockNetwork are called with these, then CheckBlocked.
pub record Blocks (A F C N : Type 0) : Type 0 where
  pub asns : List (BlockMessage A F C)
  pub networks : List (NetworkBlockMessage A F C N)
  pub checks : Bool

abbrev pub empty_group : {A F : Type 0} → Float64 F → A → Group A F
empty_group float asn = record {
  stats = record { total = 0; app = 0; other = 0; ratio = float.of_int 0; ips = 0; asn = some asn };
  count = 0;
}

module _ {M I A N F : Type 0} (float : Float64 F) where
  -- The sums, with the number of addresses of the latest network.
  abbrev pub grow : NetworkData M I A N F → Group A F → Group A F
  grow nd g = record {
    stats = record g.stats {
      total = g.stats.total + nd.total;
      app = g.stats.app + nd.app;
      other = g.stats.other + nd.other;
      ratio = float.add g.stats.ratio nd.ratio;
      ips = nd.ip_count;
    };
    count = g.count + 1;
  }

  -- The entry under a key, new or not, with one more network.
  unfoldable pub add_network :
      {K : Type 0}
      → (K → K → Bool)
      → K
      → A
      → NetworkData M I A N F
      → List (K × Group A F)
      → List (K × Group A F)
  add_network same key asn nd [] = (key, grow nd (empty_group float asn)) ∷ []
  add_network same key asn nd ((held, g) ∷ groups) =
      let rest = add_network same key asn nd groups in
      if same held key then (held, grow nd g) ∷ groups else (held, g) ∷ rest

  -- The loop over the networks, for the map with these keys.
  unfoldable pub collect :
      {K : Type 0}
      → (K → K → Bool)
      → (A → K)
      → List (String × NetworkData M I A N F)
      → List (K × Group A F)
      → Option (List (K × Group A F))
  unfolding add_network
  collect same key_of [] groups = some groups
  collect same key_of ((cidr, nd) ∷ rest) groups = elim nd.asn [
    | none ↦ none
    | some asn ↦ collect same key_of rest (add_network same (key_of asn) asn nd groups)
  ]

abbrev pub sum_total : {M I A N F : Type 0} → List (String × NetworkData M I A N F) → ℕ
sum_total [] = 0
sum_total ((cidr, nd) ∷ rest) = nd.total + sum_total rest

abbrev pub network_of : {A N F : Type 0} → Systems A N F → Option A → Option N
network_of systems none = none
network_of systems (some asn) = systems.network asn

module _ {A F : Type 0} (float : Float64 F) (config : Config F) where
  abbrev pub mean_ratio : Group A F → F
  mean_ratio g = float.div g.stats.ratio (float.of_int g.count)

  -- `stats.Total > requestLimit`, and the mean of the ratios is too high.
  unfoldable pub is_over : Group A F → Bool
  is_over g = ltb config.max_app_requests g.stats.total && float.lt config.max_ratio (mean_ratio g)

module _ {A N F C : Type 0} (float : Float64 F) (systems : Systems A N F) (config : Config F) where
  abbrev pub group_message : Time → String → Group A F → BlockMessage A F C
  group_message now reason g = record {
    stats = record g.stats { ratio = mean_ratio float config g };
    reason = reason;
    city = none;
    blocked_at = now;
  }

  unfoldable pub asn_blocks : Time → List (ℕ × Group A F) → List (BlockMessage A F C)
  unfolding is_over
  asn_blocks now [] = []
  asn_blocks now ((asn, g) ∷ groups) =
      let rest = asn_blocks now groups in
      let reason =
        systems.asn_reason g.stats.total config.max_app_requests (mean_ratio float config g)
          config.max_ratio in
      if is_over float config g then group_message now reason g ∷ rest else rest

  unfoldable pub network_blocks :
      Time → List (String × Group A F) → List (NetworkBlockMessage A F C N)
  unfolding is_over
  network_blocks now [] = []
  network_blocks now ((cidr, g) ∷ groups) =
      let rest = network_blocks now groups in
      let reason =
        systems.network_reason g.stats.total config.max_app_requests (mean_ratio float config g)
          config.max_ratio in
      if is_over float config g
      then record { block = group_message now reason g; network = network_of systems g.stats.asn }
        ∷ rest
      else rest

abbrev pub average : ℕ → ℕ → ℕ
average total count = if ltb 0 count then total / count else 0

module _ {M I A N F : Type 0} ⦃tm : Treemap M ℕ⦄ ⦃bidi : BidiMap I⦄ ⦃float : Float64 F⦄ where
  -- The networks after `nd.expire()`, with the readings of the clock for each.
  unfoldable pub expire_all :
      (String → Clock)
      → List (String × NetworkData M I A N F)
      → List (String × NetworkData M I A N F)
  expire_all clocks [] = []
  expire_all clocks ((cidr, nd) ∷ rest) =
      (cidr, NetworkData.expire nd (clocks cidr)) ∷ expire_all clocks rest

module _ {M I A N F : Type 0} where
  unfoldable pub remove : Systems A N F → Option N → Networks M I A N F → Networks M I A N F
  remove systems network n = record n { networks = delete (systems.net_text network) n.networks }

  unfoldable pub count : Networks M I A N F → ℕ
  count n = length n.networks

  -- `All`
  abbrev pub all_networks :
      List (String × NetworkData M I A (Option N) F) → List (NetworkData M I A (Option N) F)
  all_networks [] = []
  all_networks ((cidr, nd) ∷ rest) = nd ∷ all_networks rest

  unfoldable pub network_stats :
      Systems A N F → Option N → Networks M I A N F → Option (NetworkData M I A (Option N) F)
  network_stats systems network n = lookup (systems.net_text network) n.networks

module _ {M I A N F : Type 0} ⦃tm : Treemap M ℕ⦄ ⦃bidi : BidiMap I⦄ ⦃float : Float64 F⦄
    (systems : Systems A N F) (config : Config F) where
  abbrev pub find_or_new :
      Time
      → Option N
      → List (String × NetworkData M I A (Option N) F)
      → NetworkData M I A (Option N) F
  find_or_new now network networks =
      Option.get_or (lookup (systems.net_text network) networks)
        (new_network_data network config.window_size config.num_windows now)

  -- `HandleRequest`, with the readings of the clock for a new network and for the request.
  unfoldable pub handle_request :
      (String → Bytes) → Time → Time → Request A → Networks M I A N F → Option (Networks M I A N F)
  handle_request ip_text created now r n = elim r.asn [
    | none ↦ none
    | some asn ↦
        let network = systems.network asn in
        let nd =
          NetworkData.handle_request ip_text (find_or_new created network n.networks) r now in
        some (record n { networks = insert (systems.net_text network) nd n.networks })
  ]

  abbrev pub with_groups :
      Time
      → List (String × NetworkData M I A (Option N) F)
      → Networks M I A N F
      → {C : Type 0} → List (ℕ × Group A F)
      → List (String × Group A F)
      → Networks M I A N F × Blocks A F C N
  with_groups now networks n asns nets =
      let blocked_asns = asn_blocks float systems config now asns in
      let blocked_nets = network_blocks float systems config now nets in
      (
        record {
          networks = networks;
          asn_data = asns;
          asn_average = average (sum_total networks) (length asns);
          net_data = nets;
          net_average = average (sum_total networks) (length nets);
        },
        record {
          asns = blocked_asns;
          networks = blocked_nets;
          checks = ltb 0 (length blocked_asns + length blocked_nets);
        },
      )

  -- `updateAndBlock`
  unfoldable pub update_and_block :
      {C : Type 0}
      → Time
      → (String → Clock)
      → Networks M I A N F
      → Option (Networks M I A N F × Blocks A F C N)
  unfolding collect asn_blocks network_blocks expire_all
  update_and_block now clocks n =
      let networks = expire_all clocks n.networks in
      elim (collect float ◌==◌ systems.number networks []) [
        | none ↦ none
        | some asns ↦ elim (collect float str_eq systems.cidr networks []) [
          | none ↦ none
          | some nets ↦ some (with_groups now networks n asns nets)
        ]
      ]

-- NumberOfIPs, of a network whose autonomous system is known.
abbrev pub ips_of : {A N F : Type 0} → Systems A N F → Option A → Option ℕ
ips_of systems none = none
ips_of systems (some asn) = number_of_ips (systems.mask asn)

module _ {F : Type 0} (float : Float64 F) where
  abbrev pub divide : ℕ → Averages F × F → Averages F
  divide n (sums, ncount) = record sums {
    total = sums.total / n;
    app = sums.app / n;
    other = sums.other / n;
    ratio = float.div (float.of_int (sums.app / n)) (float.of_int (sums.total / n));
    network_size = sums.network_size / n;
    network_ratio = float.div sums.network_ratio ncount;
  }

  abbrev pub no_averages : Averages F
  no_averages = record {
    total = 0;
    app = 0;
    other = 0;
    ratio = float.of_int 0;
    network_size = 0;
    network_ratio = float.of_int 0;
  }

module _ {M I A N F : Type 0} (float : Float64 F) (systems : Systems A N F) where
  -- One network in the sums of `Averages`; `ncount` is the second component.
  unfoldable pub add_average : NetworkData M I A (Option N) F → ℕ → Averages F × F → Averages F × F
  add_average nd ips (sums, ncount) = (
    record sums {
      total = sums.total + nd.total;
      app = sums.app + nd.app;
      other = sums.other + nd.other;
      network_size = sums.network_size + ips;
      network_ratio =
          if ltb 0 ips
          then float.add sums.network_ratio (float.div (float.of_int nd.total) (float.of_int ips))
          else sums.network_ratio;
    },
    if ltb 0 ips then float.add ncount (float.of_int 1) else ncount,
  )

  unfoldable pub sum_averages :
      List (String × NetworkData M I A (Option N) F) → Averages F × F → Option (Averages F × F)
  unfolding add_average
  sum_averages [] sums = some sums
  sum_averages ((cidr, nd) ∷ rest) sums = elim (ips_of systems nd.asn) [
    | none ↦ none
    | some ips ↦ sum_averages rest (add_average nd ips sums)
  ]

  -- `Averages`
  unfoldable pub averages : Networks M I A N F → Option (Averages F)
  unfolding sum_averages
  averages n = elim (sum_averages n.networks (no_averages float, float.of_int 0)) [
    | none ↦ none
    | some sums ↦
        some (if ltb 0 (length n.networks) then divide float (length n.networks) sums else sums.0)
  ]
