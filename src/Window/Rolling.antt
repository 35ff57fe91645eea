-- ===== src/Window/Rolling.antt =====
-- The window against its specification: the list of the requests that it counts. `Add` records one
-- more, and `Expire` forgets those whose whole bucket has passed out of the observed time.
use mathlib.Core.List.{foldl}
use botex.Prelude.{
  sym, ℕ, ◌+◌, ◌*◌, ◌≤◌, ◌<◌, ◌≡◌, ◌↔◌, refl, ap, ◌∙◌, true, not, List, [], ◌∷◌, arith, leb, length,
  select, count_if,
}
use botex.Treemap.{Treemap, Entries, put_at}
use botex.Treemap.Loop.{each-visit, each-drain}
use botex.Window.{
  Time, Duration, Window, bucket_start, is_old, new_window, ttl, add, count, expire_buckets, expire,
  bucket_map,
}
use botex.Window.Tally.{total, tally, total-tally, by_key-tally, tally-nil_iff, copy_entries}

pub data Op : Type 0 where
  adds : Time → Op
  expires : Time → Op

-- The requests that a window still counts after `Expire` at an instant.
abbrev pub recent : Time → Duration → ℕ → List Time → List Time
recent now size num = select (λ t. not (is_old now (size * num) (bucket_start size t)))

unfoldable pub note : Duration → ℕ → List Time → Op → List Time
note size num ts (adds t) = t ∷ ts
note size num ts (expires now) = recent now size num ts

old_older : (now age j k : ℕ) → j ≤ k → is_old now age k ≡ true → is_old now age j ≡ true
old_older now age j k h o = ground arith

foldl-total :
    (es : Entries ℕ) (acc : ℕ) → foldl (λ total (e : ℕ × ℕ). total + e.1) acc es ≡ acc + total es
foldl-total [] acc = omega arith
foldl-total (e ∷ es) acc = omega (arith, foldl-total es (acc + e.1))

bucket_start_bounds :
    (size : Duration) (t : Time)
    → 0 < size
    → (bucket_start size t ≤ t) × (t < bucket_start size t + size)
unfolding bucket_start
bucket_start_bounds size t h = grind arith

recent_bounds :
    (now : Time) (size : Duration) (num : ℕ) (ts : List Time)
    → 0 < size
    → (count_if (λ t. leb (now + size) (t + 1 + size * num)) ts ≤ length (recent now size num ts))
      × (length (recent now size num ts) ≤ count_if (λ t. leb now (t + size * num)) ts)
recent_bounds now size num [] h = omega arith
recent_bounds now size num (t ∷ ts) h =
    ground (arith, bucket_start_bounds size t h, recent_bounds now size num ts h)

module _ {M : Type 0} ⦃tm : Treemap M ℕ⦄ where
  unfoldable pub step : Window M → Op → Window M
  step w (adds t) = add w t
  step w (expires now) = (expire now w).0

  -- The buckets are the histogram of the requests.
  pub record Counts (size : Duration) (num : ℕ) (ts : List Time) (w : Window M) : Type 0 where
    pub same_size : w.window_size ≡ size
    pub same_num : w.num_windows ≡ num
    pub histogram : tm.entries w.buckets ≡ tally size ts

  pub new_window-Counts : (size : Duration) (num : ℕ) → Counts size num [] (new_window size num)
  unfolding new_window tally
  new_window-Counts size num = record {
    same_size = refl;
    same_num = refl;
    histogram = tm.entries_new;
  }

  pub add-Counts :
      (size : Duration) (num : ℕ) (ts : List Time) (w : Window M) (t : Time)
      → Counts size num ts w
      → Counts size num (t ∷ ts) (add w t)
  unfolding add tally
  add-Counts size num ts w t c = record {
    same_size = c.same_size;
    same_num = c.same_num;
    histogram = tm.entries_put w.buckets _ _ ∙ rw (tm.get_lem, c.same_size, c.histogram);
  }

  pub entries-expire_buckets :
      (now : Time) (age : Duration) (m : M)
      → tm.entries (expire_buckets now age m)
        ≡ select (λ e. not (is_old now age e.0)) (tm.entries m)
  unfolding expire_buckets
  entries-expire_buckets now age m =
      (each-drain {V = ℕ} (λ (m : M). m) (is_old now age) (λ m k v. tm.remove m k)
        (λ s k v. tm.entries_remove s k) (old_older now age) m).1

  pub expire-Counts :
      (size : Duration) (num : ℕ) (ts : List Time) (w : Window M) (now : Time)
      → Counts size num ts w
      → Counts size num (recent now size num ts) (expire now w).0
  unfolding expire
  expire-Counts size num ts w now c = record {
    same_size = c.same_size;
    same_num = c.same_num;
    histogram =
        entries-expire_buckets now (ttl w) w.buckets
        ∙ rw (c.same_size, c.same_num, c.histogram)
            (by_key-tally (λ k. not (is_old now (size * num) k)) size ts);
  }

  step-Counts :
      (size : Duration) (num : ℕ) (ts : List Time) (w : Window M) (op : Op)
      → Counts size num ts w
      → Counts size num (note size num ts op) (step w op)
  unfolding note step
  step-Counts size num ts w (adds t) c = add-Counts size num ts w t c
  step-Counts size num ts w (expires now) c = expire-Counts size num ts w now c

  run-Counts_from :
      (size : Duration) (num : ℕ) (ops : List Op) (ts : List Time) (w : Window M)
      → Counts size num ts w
      → Counts size num (foldl (note size num) ts ops) (foldl step w ops)
  run-Counts_from size num [] ts w c = c
  run-Counts_from size num (op ∷ ops) ts w c =
      run-Counts_from size num ops (note size num ts op) (step w op)
        (step-Counts size num ts w op c)

  pub run-Counts :
      (size : Duration) (num : ℕ) (ops : List Op)
      → Counts size num (foldl (note size num) [] ops) (foldl step (new_window size num) ops)
  run-Counts size num ops =
      run-Counts_from size num ops [] (new_window size num) (new_window-Counts size num)

  count-total : (w : Window M) → count w ≡ total (tm.entries w.buckets)
  unfolding count
  count-total w =
      each-visit w.buckets (λ total e. total + e.1) 0
      ∙ foldl-total (tm.entries w.buckets) 0
      ∙ omega arith

  -- `Count` is the number of requests that the window still holds.
  pub count-Counts :
      (size : Duration) (num : ℕ) (ts : List Time) (w : Window M)
      → Counts size num ts w
      → count w ≡ length ts
  count-Counts size num ts w c = count-total w ∙ ap total c.histogram ∙ total-tally size ts

  bucket_map-entries : (w : Window M) → bucket_map w ≡ tm.entries w.buckets
  unfolding bucket_map
  bucket_map-entries w =
      each-visit w.buckets (λ res e. put_at e.0 e.1 res) []
      ∙ copy_entries [] (tm.entries w.buckets) (tm.ascending w.buckets)

  -- `Count` is the sum over `Map`.
  pub total-bucket_map : (w : Window M) → total (bucket_map w) ≡ count w
  total-bucket_map w = ap total (bucket_map-entries w) ∙ sym (count-total w)

  pub expire-empty :
      (size : Duration) (num : ℕ) (ts : List Time) (w : Window M) (now : Time)
      → Counts size num ts w
      → ((expire now w).1 ≡ 0) ↔ (recent now size num ts ≡ [])
  unfolding expire
  expire-empty size num ts w now c =
      rw (tm.size_lem, (expire-Counts size num ts w now c).histogram)
        (tally-nil_iff size (recent now size num ts))

  -- `Expire` on a window of positive bucket size that counts the requests `ts`, where `ttl` is the
  -- size times the number of buckets: every request that is at most `ttl - size + 1` nanoseconds
  -- old is still counted, and no request more than `ttl` nanoseconds old is.
  pub count-expire_bounds :
      (size : Duration) (num : ℕ) (ts : List Time) (w : Window M) (now : Time)
      → 0 < size
      → Counts size num ts w
      → (count_if (λ t. leb (now + size) (t + 1 + size * num)) ts ≤ count (expire now w).0)
        × (count (expire now w).0 ≤ count_if (λ t. leb now (t + size * num)) ts)
  count-expire_bounds size num ts w now h c =
      rw (count-Counts size num _ (expire now w).0 (expire-Counts size num ts w now c))
        (recent_bounds now size num ts h)
