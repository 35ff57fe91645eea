-- ===== src/History/Order.antt =====
-- history.go: the order in which Go ranges over the map of the clients, which is not the same in
-- two calls.
use mathlib.Core.List.{Perm, foldr}
use mathlib.Core.List.Perm
use native.Mathlib.Nat.{ℕ_set}
use botex.Prelude.{
  ℕ, ◌+◌, ◌≡◌, refl, sym, ap, ◌∙◌, Bool, List, [], ◌∷◌, arith, if◌then◌else◌, sum_of, count_if,
}
use botex.Data.{Bytes, IpStats}
use botex.Float64.{Float64}
use botex.History.{History, no_stats, sum_clients, total_stats}
use botex.History.Updates.{Entry, is_named, total_stats_lem}

module _ {A : Type 0} where
  sum_of-foldr : (f : A → ℕ) (xs : List A) → sum_of f xs ≡ foldr (λ x n. f x + n) 0 xs
  sum_of-foldr f [] = refl
  sum_of-foldr f (x ∷ xs) = ap (λ n. f x + n) (sum_of-foldr f xs)

  pub sum_of-Perm : (f : A → ℕ) (xs ys : List A) → Perm xs ys → sum_of f xs ≡ sum_of f ys
  sum_of-Perm f xs ys p =
      sum_of-foldr f xs
      ∙ Perm.foldr-eq ℕ_set (λ x n. f x + n) (λ a b n. omega arith) p 0
      ∙ sym (sum_of-foldr f ys)

  count_if-sum_of :
      (p : A → Bool) (xs : List A) → count_if p xs ≡ sum_of (λ x. if p x then 1 else 0) xs
  count_if-sum_of p [] = refl
  count_if-sum_of p (x ∷ xs) = ap (λ n. (if p x then 1 else 0) + n) (count_if-sum_of p xs)

  pub count_if-Perm : (p : A → Bool) (xs ys : List A) → Perm xs ys → count_if p xs ≡ count_if p ys
  count_if-Perm p xs ys q =
      count_if-sum_of p xs ∙ sum_of-Perm _ xs ys q ∙ sym (count_if-sum_of p ys)

module _ {A F : Type 0} (fl : Float64 F) where
  -- The sums with everything else as in `st`.
  abbrev with_sums : IpStats A F Bytes → ℕ → ℕ → ℕ → ℕ → IpStats A F Bytes
  with_sums st t a o w = record st {
    stats = record st.stats { total = t; app = a; other = o };
    with_hostname = w;
  }

  abbrev with_ratio : ℕ → ℕ → ℕ → ℕ → IpStats A F Bytes
  with_ratio t a o w =
      let sums = with_sums (no_stats fl) t a o w in
      record sums { stats = record sums.stats { ratio = fl.div (fl.of_int a) (fl.of_int t) } }

module _ {M A G F : Type 0} (fl : Float64 F) where
  -- `sum_clients` sets no other field.
  sum_clients-with_sums :
      (es : List (Entry M A G F)) (st : IpStats A F Bytes)
      → let r = sum_clients fl es st in r ≡ with_sums fl st r.total r.app r.other r.with_hostname
  unfolding sum_clients
  sum_clients-with_sums [] st = refl
  sum_clients-with_sums ((key, ipd) ∷ es) st = sum_clients-with_sums es _

  total_stats-with_ratio :
      {W : Type 0} (h : History M W A G F)
      → let r = total_stats fl h in r ≡ with_ratio fl r.total r.app r.other r.with_hostname
  unfolding total_stats
  total_stats-with_ratio h =
      ap
        (λ (r : IpStats A F Bytes). record r {
          stats = record r.stats { ratio = fl.div (fl.of_int r.app) (fl.of_int r.total) };
        })
        (sum_clients-with_sums h.clients (no_stats fl))

  total_stats-Perm :
      {W : Type 0} (h k : History M W A G F)
      → Perm h.clients k.clients
      → total_stats fl h ≡ total_stats fl k
  total_stats-Perm h k p =
      let (t, a, o, w, _) = total_stats_lem fl h in
      let (t', a', o', w', _) = total_stats_lem fl k in
      let moved = λ (f : Entry M A G F → ℕ). sum_of-Perm f h.clients k.clients p in
      total_stats-with_ratio h
      ∙ rw
          (
            t ∙ moved _ ∙ sym t',
            a ∙ moved _ ∙ sym a',
            o ∙ moved _ ∙ sym o',
            w ∙ count_if-Perm is_named h.clients k.clients p ∙ sym w',
          )
          refl
      ∙ sym (total_stats-with_ratio k)

  -- TotalStats, in whatever order it goes through the clients of `h`, which are those of `k` in
  -- another order: the sums of their total, app and other requests, the number of those whose name
  -- is not empty, and the ratio of the app requests to all; and no part of the answer depends on the
  -- order.
  pub total_stats_in_any_order :
      {W : Type 0} (h k : History M W A G F)
      → Perm h.clients k.clients
      → let r = total_stats fl h in
        (r.total ≡ sum_of (λ (e : Entry M A G F). e.1.details.total) k.clients)
        × (r.app ≡ sum_of (λ (e : Entry M A G F). e.1.details.app) k.clients)
        × (r.other ≡ sum_of (λ (e : Entry M A G F). e.1.details.other) k.clients)
        × (r.with_hostname ≡ count_if is_named k.clients)
        × (r.ratio ≡ fl.div (fl.of_int r.app) (fl.of_int r.total))
        × (r ≡ total_stats fl k)
  total_stats_in_any_order h k p =
      let (t, a, o, w, q) = total_stats_lem fl h in
      let moved = λ (f : Entry M A G F → ℕ). sum_of-Perm f h.clients k.clients p in
      (
        t ∙ moved _,
        a ∙ moved _,
        o ∙ moved _,
        w ∙ count_if-Perm is_named h.clients k.clients p,
        q,
        total_stats-Perm h k p,
      )
