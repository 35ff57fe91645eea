-- ===== src/NetworkData/Tests.antt =====
-- A network that sees a page and an image, with buckets of 10 ns over 30 ns.
use botex.Prelude.{
  ℕ, ◌+◌, ◌-◌, ◌*◌, ◌^◌, ◌/◌, ◌≡◌, refl, String, Option, none, some, not, [], ◌∷◌, ltb, leb,
  if◌then◌else◌, length, count_if, select, arith,
}
use botex.Float64.{Float64}
use botex.Treemap.{Entries, put_at, remove_at, first_above}
use botex.Treemap.Sorted.{SortedMap, sorted_map, sorted_run}
use botex.Data.{Bytes, Request}
use botex.Matchers.{codes}
use botex.Store.Prefix.{bytes_eq}
use botex.RequestsWindow.Tests.{request_at}
use botex.Window.{bucket_start}
use botex.NetworkData.{
  BidiMap, NetworkData, new_network_data, handle_request, count_request, update_stats, increment,
  update_count, expire, expire_stats, number_of_ips,
}
use botex.NetworkData.Totals.{asset, page, handle_all, handle_all-totals, number_of_ips_lem}

abbrev pub Addresses : Type 0
Addresses = Entries Bytes

abbrev key_of : Addresses → Bytes → Option ℕ
key_of [] ip = none
key_of ((k, v) ∷ es) ip = let rest = key_of es ip in if bytes_eq v ip then some k else rest

abbrev key_only : Option (ℕ × Bytes) → Option ℕ
key_only none = none
key_only (some (k, v)) = some k

instance abbrev pub addresses : BidiMap Addresses
addresses = record {
  new = [];
  get_key = key_of;
  put = λ m k ip. put_at k ip (select (λ e. not (bytes_eq e.1 ip)) m);
  remove = λ m k. remove_at k m;
  size = λ m. length m;
  next_key = λ m from. key_only (first_above from m);
}

instance abbrev pub whole_numbers : Float64 ℕ
whole_numbers = record {
  of_int = λ n. n;
  add = λ a b. a + b;
  div = λ a b. a / b;
  lt = ltb;
  le = leb;
}

abbrev image : Request String
image = record (request_at 117) { url = codes "/logo.png" }

abbrev html : Request String
html = record (request_at 100) { url = codes "/index.html" }

abbrev new : NetworkData (SortedMap ℕ) Addresses String String ℕ
new = new_network_data "192.0.2.0/24" 10 3 90

abbrev seen : NetworkData (SortedMap ℕ) Addresses String String ℕ
seen = handle_all (λ s. codes s) new ((image, 118) ∷ (html, 101) ∷ [])

late : (expire seen (λ n. 135)).total ≡ 1
unfolding expire expire_stats handle_all handle_request update_stats count_request increment
    new_network_data update_count sorted_run bucket_start
late = refl

handle_all-totals_example :
    let rs = image ∷ html ∷ [] in
    (seen.total ≡ length rs)
    × (seen.app ≡ count_if page rs)
    × (seen.other ≡ count_if asset rs)
    × (seen.total ≡ seen.app + seen.other)
handle_all-totals_example =
    handle_all-totals (SortedMap ℕ) Addresses String String ℕ (λ s. codes s) "192.0.2.0/24" 10 3 90
      image 118 ((html, 101) ∷ [])

number_of_ips_lem_run :
    (n : ℕ) × (number_of_ips (255 ∷ 255 ∷ 255 ∷ 0 ∷ []) ≡ some n)
    × (n + (255 - 255) * 2 ^ 24 + (255 * 2 ^ 24 + 255 * 2 ^ 16 + 255 * 2 ^ 8 + 0) ≡ 2 ^ 32 - 1)
number_of_ips_lem_run =
    number_of_ips_lem 255 255 255 0 (omega arith) (omega arith) (omega arith) (omega arith)
