-- ===== src/Window/Tally.antt =====
-- What a window's buckets hold, as a function of the requests that they count: the specification
-- of Window. `tally` is a histogram, with ascending starts of buckets and no empty bucket.
use mathlib.Core.Option
use mathlib.Core.List.{foldl, append-nil, append_assoc}
use botex.Prelude.{
  ℕ, suc, ◌+◌, ◌≤◌, ◌<◌, ◌≡◌, ◌↔◌, refl, ◌∙◌, sym, Bool, true, List, [], ◌∷◌, ◌++◌, arith, ◌==◌,
  if◌then◌else◌, length, select, sum_of, count_if,
}
use botex.Treemap.{Entries, Ascending, get_at, put_at}
use botex.Treemap.Ascent.{Ascending-put_at, get_at-put_at, get_at-below, Ascending-weaken}
use botex.Window.{Time, Duration, bucket_start}

abbrev pub bucket_of : Entries ℕ → ℕ → ℕ
bucket_of es k = Option.get_or (get_at k es) 0

abbrev pub total : Entries ℕ → ℕ
total = sum_of (λ e. e.1)

unfoldable pub tally : Duration → List Time → Entries ℕ
tally size [] = []
tally size (t ∷ ts) =
    let rest = tally size ts in let k = bucket_start size t in put_at k (bucket_of rest k + 1) rest

pub Ascending-tally : (size : Duration) (ts : List Time) → Ascending 0 (tally size ts)
unfolding tally
Ascending-tally size [] = tt
Ascending-tally size (t ∷ ts) = Ascending-put_at 0 _ _ _ (omega arith) (Ascending-tally size ts)

total-put_at :
    (b k v : ℕ) (es : Entries ℕ)
    → Ascending b es
    → total (put_at k v es) + bucket_of es k ≡ total es + v
unfolding put_at get_at
total-put_at b k v [] a = ground arith
total-put_at b k v ((j, w) ∷ es) a =
    ground (arith, total-put_at (suc j) k v es, get_at-below (suc j) k es)

-- One more in a bucket is one more in all.
pub total-put_at_suc :
    (k : ℕ) (es : Entries ℕ)
    → Ascending 0 es
    → total (put_at k (bucket_of es k + 1) es) ≡ total es + 1
total-put_at_suc k es a = omega (arith, total-put_at 0 k (bucket_of es k + 1) es a)

-- The buckets add up to the number of requests.
pub total-tally : (size : Duration) (ts : List Time) → total (tally size ts) ≡ length ts
unfolding tally
total-tally size [] = refl
total-tally size (t ∷ ts) = omega (
  arith,
  total-put_at_suc (bucket_start size t) (tally size ts) (Ascending-tally size ts),
  total-tally size ts,
)

-- A bucket holds the number of requests that fall into it.
pub bucket_of-tally :
    (size : Duration) (ts : List Time) (k : ℕ)
    → bucket_of (tally size ts) k ≡ count_if (λ t. bucket_start size t == k) ts
unfolding tally get_at
bucket_of-tally size [] k = refl
bucket_of-tally size (t ∷ ts) k = ground (
  arith,
  get_at-put_at 0 (bucket_start size t) k (bucket_of (tally size ts) (bucket_start size t) + 1)
      (tally size ts) (Ascending-tally size ts),
  bucket_of-tally size ts k,
)

put_at-below : (b k v : ℕ) (es : Entries ℕ) → Ascending b es → k < b → put_at k v es ≡ (k, v) ∷ es
unfolding put_at
put_at-below b k v [] a h = refl
put_at-below b k v ((j, w) ∷ es) a h = ground arith

put_at-ne-nil : (k v : ℕ) (es : Entries ℕ) → 0 < length (put_at k v es)
unfolding put_at
put_at-ne-nil k v [] = omega arith
put_at-ne-nil k v (e ∷ es) = ground arith

module _ (young : ℕ → Bool) where
  abbrev by_key : Entries ℕ → Entries ℕ
  by_key = select (λ e. young e.0)

  get_at-by_key :
      (b k : ℕ) (es : Entries ℕ)
      → Ascending b es
      → young k ≡ true
      → get_at k (by_key es) ≡ get_at k es
  unfolding get_at
  get_at-by_key b k [] a h = refl
  get_at-by_key b k ((j, w) ∷ es) a h = ground (arith, get_at-by_key (suc j) k es)

  by_key-Ascending : (b : ℕ) (es : Entries ℕ) → Ascending b es → Ascending b (by_key es)
  by_key-Ascending b [] a = tt
  by_key-Ascending b ((j, w) ∷ es) a =
      ground (arith, by_key-Ascending (suc j) es, Ascending-weaken b (suc j) (by_key es))

  by_key-put_at :
      (b k v : ℕ) (es : Entries ℕ)
      → Ascending b es
      → by_key (put_at k v es) ≡ (if young k then put_at k v (by_key es) else by_key es)
  unfolding put_at
  by_key-put_at b k v [] a = ground arith
  by_key-put_at b k v ((j, w) ∷ es) a = ground (
    arith,
    by_key-put_at (suc j) k v es,
    put_at-below (suc j) k v (by_key es),
    by_key-Ascending (suc j) es,
  )

  -- Dropping the buckets with other keys is forgetting the requests in those buckets.
  pub by_key-tally :
      (size : Duration) (ts : List Time)
      → by_key (tally size ts) ≡ tally size (select (λ t. young (bucket_start size t)) ts)
  unfolding tally
  by_key-tally size [] = refl
  by_key-tally size (t ∷ ts) =
      let k = bucket_start size t in
      let es = tally size ts in
      let a = Ascending-tally size ts in
      by_key-put_at 0 k (bucket_of es k + 1) es a
      ∙ ground (arith, by_key-tally size ts, get_at-by_key 0 k es a)

-- No bucket is left exactly when no request is.
pub tally-nil_iff : (size : Duration) (ts : List Time) → (length (tally size ts) ≡ 0) ↔ (ts ≡ [])
unfolding tally
tally-nil_iff size [] = (λ _. refl, λ _. refl)
tally-nil_iff size (t ∷ ts) =
    let es = tally size ts in
    let k = bucket_start size t in
    (λ h. absurd (omega (arith, put_at-ne-nil k (bucket_of es k + 1) es)), λ e. cc)

between : (b k v : ℕ) (acc es : Entries ℕ) → Ascending b (acc ++ (k, v) ∷ es) → b ≤ k
between b k v [] es a = a.0
between b k v ((j, w) ∷ acc) es a = omega (arith, between (suc j) k v acc es a.1)

put_at_last :
    (b k v : ℕ) (acc es : Entries ℕ)
    → Ascending b (acc ++ (k, v) ∷ es)
    → put_at k v acc ≡ acc ++ (k, v) ∷ []
unfolding put_at
put_at_last b k v [] es a = refl
put_at_last b k v ((j, w) ∷ acc) es a =
    ground (arith, put_at_last (suc j) k v acc es, between (suc j) k v acc es)

-- Copying ascending entries one by one into an empty map gives them back.
pub copy_entries :
    (acc es : Entries ℕ)
    → Ascending 0 (acc ++ es)
    → foldl (λ res (e : ℕ × ℕ). put_at e.0 e.1 res) acc es ≡ acc ++ es
copy_entries acc [] a = sym (append-nil acc)
copy_entries acc ((k, v) ∷ es) a = rw (put_at_last 0 k v acc es a) (
    copy_entries (acc ++ (k, v) ∷ []) es (rw (append_assoc acc ((k, v) ∷ []) es) a)
    ∙ append_assoc acc ((k, v) ∷ []) es)
