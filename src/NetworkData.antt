-- ===== src/NetworkData.antt =====
-- plugins/network.go: the requests of one network. `A` is asndb.ASN, `N` net.IPNet, `F` float64,
-- `M` the sorted map and `I` the sorted map in both directions (treebidimap of
-- github.com/emirpasic/gods, with integer keys and the texts of addresses; no law is assumed).
-- `ip_text` is `net.ParseIP(…).String()`. The timer is the instant at which it fires, when the
-- network is removed. A call of `time.Now()` is an argument.
pub mod Totals
pub mod Tests
use mathlib.Core.Option
use mathlib.Core.List.{reverse}
use botex.Prelude.{
  ℕ, zero, suc, ◌+◌, ◌*◌, String, Option, none, some, Bool, true, false, ltb, if◌then◌else◌, ◌-◌,
  ◌^◌, List, [], ◌∷◌,
}
use botex.Float64.{Float64}
use botex.Treemap.{Treemap}
use botex.Treemap.Loop.{each}
use botex.Data.{Bytes, Request}
use botex.Matchers.{is_asset}
use botex.Window.{Time, Duration, bucket_start, is_old}

pub record BidiMap (I : Type 0) : Type 0 where
  pub new : I
  pub get_key : I → Bytes → Option ℕ
  pub put : I → ℕ → Bytes → I
  pub remove : I → ℕ → I
  pub size : I → ℕ
  -- `iter.Next()` and `iter.Key()` behind a key.
  pub next_key : I → Option ℕ → Option ℕ

pub record NetworkData (M I A N F : Type 0) : Type 0 where
  pub network : N
  pub total : ℕ
  pub app : ℕ
  pub other : ℕ
  pub ratio : F
  pub ip_count : ℕ
  pub updated_at : Time
  pub asn : Option A
  pub total_map : M
  pub app_map : M
  pub other_map : M
  pub ip_map : I
  pub window_size : Duration
  pub num_windows : ℕ
  pub expires_at : Time

abbrev pub first_asn : {A : Type 0} → Option A → Option A → Option A
first_asn none new = new
first_asn (some a) new = some a

-- The loop of `NumberOfIPs`, on the mask's bytes from the last one; with one or two of them the
-- index leaves the mask, which ends the goroutine: none. The first byte of the result stays 0.
unfoldable pub host_count : Bytes → Option ℕ
host_count [] = some 0
host_count (a ∷ []) = none
host_count (a ∷ b ∷ []) = none
host_count (a ∷ b ∷ c ∷ rest) = some ((255 - c) * 2 ^ 16 + (255 - b) * 2 ^ 8 + (255 - a))

-- Of the mask of the autonomous system's network.
unfoldable pub number_of_ips : Bytes → Option ℕ
unfolding host_count
number_of_ips mask = host_count (reverse mask)

module _ {M : Type 0} ⦃tm : Treemap M ℕ⦄ where
  unfoldable pub increment : M → ℕ → M
  increment stats key = tm.put stats key (Option.get_or (tm.get stats key) 0 + 1)

  -- `updateCount`: the new value of the field.
  unfoldable pub update_count : M → ℕ
  unfolding each
  update_count stats = each (λ (_ : ℕ). stats) (λ total k v. some (total + v)) 0

  -- The map, and how many keys were removed.
  unfoldable pub expire_stats : Time → Duration → M → M × ℕ
  unfolding each
  expire_stats now age stats =
      each {V = ℕ} (λ (s : M × ℕ). s.0)
        (λ s k v. if is_old now age k then some (tm.remove s.0 k, s.1 + 1) else none) (stats, 0)

module _ {I : Type 0} ⦃bidi : BidiMap I⦄ where
  -- The loop of `expireIPs`; its fuel is the size of the map.
  unfoldable pub remove_old_ips : ℕ → Time → Duration → Option ℕ → I → I
  remove_old_ips zero now age from ips = ips
  remove_old_ips (suc fuel) now age from ips = elim (bidi.next_key ips from) [
    | none ↦ ips
    | some k ↦
        let rest = remove_old_ips fuel now age (some k) (bidi.remove ips k) in
        if is_old now age k then rest else ips
  ]

  unfoldable pub expire_ips : Time → Duration → I → I
  expire_ips now age ips = remove_old_ips (bidi.size ips) now age none ips

  -- The address moves to the instant of its latest request.
  unfoldable pub move_ip : I → Bytes → ℕ → I
  move_ip ips ip at = elim (bidi.get_key ips ip) [
    | none ↦ bidi.put ips at ip
    | some key ↦ bidi.put (bidi.remove ips key) at ip
  ]

module _ {M I A N F : Type 0} ⦃tm : Treemap M ℕ⦄ ⦃bidi : BidiMap I⦄ ⦃float : Float64 F⦄ where
  unfoldable pub new_network_data : N → Duration → ℕ → Time → NetworkData M I A N F
  new_network_data network window_size num_windows now = record {
    network = network;
    total = 0;
    app = 0;
    other = 0;
    ratio = float.of_int 0;
    ip_count = 0;
    updated_at = now;
    asn = none;
    total_map = tm.new;
    app_map = tm.new;
    other_map = tm.new;
    ip_map = bidi.new;
    window_size = window_size;
    num_windows = num_windows;
    expires_at = now + window_size;
  }

  abbrev pub age_limit : NetworkData M I A N F → Duration
  age_limit nd = nd.window_size * nd.num_windows

  unfoldable pub update_stats : NetworkData M I A N F → NetworkData M I A N F
  update_stats nd =
      let total = update_count nd.total_map in
      let app = update_count nd.app_map in
      record nd {
        total = total;
        app = app;
        other = update_count nd.other_map;
        ratio = if ltb 0 total then float.div (float.of_int app) (float.of_int total) else nd.ratio;
        ip_count = bidi.size nd.ip_map;
      }

  -- The part of `HandleRequest` that counts.
  unfoldable pub count_request : NetworkData M I A N F → Request A → NetworkData M I A N F
  unfolding is_asset
  count_request nd r =
      let key = bucket_start nd.window_size r.time in
      let asset = is_asset r.url in
      record nd {
        app_map = if asset then nd.app_map else increment nd.app_map key;
        other_map = if asset then increment nd.other_map key else nd.other_map;
        total_map = increment nd.total_map key;
      }

  unfoldable pub handle_request :
      (String → Bytes) → NetworkData M I A N F → Request A → Time → NetworkData M I A N F
  handle_request ip_text nd r now =
      let counted = update_stats (count_request (record nd { asn = first_asn nd.asn r.asn }) r) in
      record counted {
        updated_at = now;
        ip_map = move_ip counted.ip_map (ip_text r.source) r.time;
        expires_at = r.time + age_limit nd;
      }

  -- `expire` reads the clock once for each of the four maps.
  unfoldable pub expire : NetworkData M I A N F → (ℕ → Time) → NetworkData M I A N F
  expire nd clock =
      let age = age_limit nd in
      let (totals, removed_totals) = expire_stats (clock 0) age nd.total_map in
      let (apps, removed_apps) = expire_stats (clock 1) age nd.app_map in
      let (others, removed_others) = expire_stats (clock 2) age nd.other_map in
      let expired : NetworkData M I A N F = record nd {
        total_map = totals;
        app_map = apps;
        other_map = others;
        ip_map = expire_ips (clock 3) age nd.ip_map;
      } in
      if ltb 0 (removed_totals + removed_apps + removed_others)
      then update_stats expired
      else expired
