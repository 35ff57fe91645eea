-- ===== src/Api/Buckets.antt =====
-- What the windows of getRequestStats count.
use mathlib.Core.Option.{some-injective, none-ne-some}
use native.Mathlib.Nat.{zero-div}
use botex.Prelude.{
  ℕ, ◌≤◌, zero, suc, ◌+◌, ◌-◌, ◌/◌, ◌≡◌, ◌<◌, ◌↔◌, ◌⊎◌, inl, inr, refl, sym, ap, subst, ◌∙◌, Option,
  none, some, Bool, Bool-cases, true, false, ◌&&◌, ◌||◌, List, [], ◌∷◌, ltb, leb, ◌==◌,
  if◌then◌else◌, arith, length, sum_of, get_elem?, Option-cases,
}
use botex.Prelude.Atoi.{pos}
use botex.Treemap.{Entries}
use botex.Window.{Time, Duration}
use botex.Window.Tally.{total}
use botex.Api.RequestStats.{
  RequestWindow, window_start, empty_windows, window_size, window_index, add_count, add_at,
  add_counts, count_windows,
}

abbrev pub counted : List RequestWindow → ℕ
counted = sum_of (λ w. w.count)

-- The age of an instant in window sizes, and at most that of the last window; an instant that is
-- ahead of the clock has the age 0.
abbrev pub age : Time → Duration → ℕ → Time → ℕ
age now size last ts = let whole = (now - ts) / size in if ltb last whole then last else whole

-- The window with more requests.
abbrev pub raise : ℕ → Option RequestWindow → Option RequestWindow
raise n none = none
raise n (some w) = some (record w { count = w.count + n })

-- The requests of the instants whose age is `j`.
abbrev pub share : Time → Duration → ℕ → ℕ → Entries ℕ → ℕ
share now size last j = sum_of (λ e. if age now size last e.0 == j then e.1 else 0)

window_index-age :
    (now : Time) (size : Duration) (last : ℕ) (ts : Time) (i : ℕ)
    → window_index now size (suc last) ts ≡ some i
    → age now size last ts ≡ i
unfolding window_index
window_index-age now size last ts i h = elim (Bool-cases (ltb now ts)) [
  | inl e ↦ elim (Bool-cases (leb size (ts - now))) [
    | inl f ↦ absurd (none-ne-some i (rw f at (rw (e, window_index) at h)))
    | inr f ↦
        let none_yet : now - ts ≡ 0 = ground (arith, e) in
        let first : 0 ≡ i = some-injective _ _ (rw f at (rw (e, window_index) at h)) in
        rw (none_yet, zero-div size) (ground (arith, first))
  ]
  | inr e ↦
      let whole = (now - ts) / size in
      let found : (if leb (suc last) whole then suc last - 1 else whole) ≡ i =
        some-injective _ _ (rw (e, window_index) at h) in
      ground (arith, found)
]

abbrev IsRaised : ℕ → ℕ → List RequestWindow → List RequestWindow → Type 0
IsRaised idx n ws ws' =
    (length ws' ≡ length ws)
    × (counted ws' ≡ counted ws + n)
    × ((j : ℕ) → get_elem? ws' j ≡ raise (if idx == j then n else 0) (get_elem? ws j))

raise-zero : (w : Option RequestWindow) → raise 0 w ≡ w
raise-zero none = refl
raise-zero (some w) = ground arith

raise-raise : (m n : ℕ) (w : Option RequestWindow) → raise n (raise m w) ≡ raise (m + n) w
raise-raise m n none = refl
raise-raise m n (some w) = ground arith

raise_head :
    (n : ℕ) (w : RequestWindow) (ws : List RequestWindow) (j : ℕ)
    → get_elem? (record w { count = w.count + n } ∷ ws) j
      ≡ raise (if 0 == j then n else 0) (get_elem? (w ∷ ws) j)
raise_head n w ws zero = refl
raise_head n w ws (suc j) =
    let other : (0 == suc j) ≡ false = ground arith in rw other (sym (raise-zero (get_elem? ws j)))

raise_tail :
    (idx n : ℕ) (w : RequestWindow) (ws ws' : List RequestWindow) (j : ℕ)
    → ((j : ℕ) → get_elem? ws' j ≡ raise (if idx == j then n else 0) (get_elem? ws j))
    → get_elem? (w ∷ ws') j ≡ raise (if suc idx == j then n else 0) (get_elem? (w ∷ ws) j)
raise_tail idx n w ws ws' zero g =
    let other : (suc idx == 0) ≡ false = ground arith in rw other (sym (raise-zero (some w)))
raise_tail idx n w ws ws' (suc j) g =
    let same : (suc idx == suc j) ≡ (idx == j) = ground arith in rw same (g j)

-- Adding at an index changes that window and the sum.
add_count_lem :
    (idx n : ℕ) (ws ws' : List RequestWindow)
    → add_count idx n ws ≡ some ws'
    → IsRaised idx n ws ws'
unfolding add_count
add_count_lem idx n [] ws' h = absurd (none-ne-some ws' h)
add_count_lem zero n (w ∷ ws) ws' h =
    subst (IsRaised 0 n (w ∷ ws)) (some-injective _ _ h) (refl, omega arith, raise_head n w ws)
add_count_lem (suc idx) n (w ∷ ws) ws' h = elim (Option-cases (add_count idx n ws)) [
  | inl e ↦ absurd (none-ne-some ws' (rw (e, add_count) at h))
  | inr (rest, e) ↦
      let (l, c, g) = add_count_lem idx n ws rest e in
      subst (IsRaised (suc idx) n (w ∷ ws)) (some-injective _ _ (rw (e, add_count) at h))
        (omega (arith, l), omega (arith, c), λ j. raise_tail idx n w ws rest j g)
]

add_count_total :
    (idx n : ℕ) (ws : List RequestWindow)
    → idx < length ws
    → (ws' : List RequestWindow) × (add_count idx n ws ≡ some ws')
unfolding add_count
add_count_total idx n [] h = absurd (omega arith)
add_count_total zero n (w ∷ ws) h = (_, refl)
add_count_total (suc idx) n (w ∷ ws) h =
    let (rest, e) = add_count_total idx n ws (omega arith) in (w ∷ rest, rw e refl)

module _ (now : Time) (size : Duration) (last : ℕ) where
  abbrev Distributes : Entries ℕ → List RequestWindow → List RequestWindow → Type 0
  Distributes es ws ws' =
      (length ws' ≡ length ws)
      × (counted ws' ≡ counted ws + total es)
      × ((j : ℕ) → get_elem? ws' j ≡ raise (share now size last j es) (get_elem? ws j))

  add_counts_step :
      (idx : Option ℕ) (ts n : ℕ) (es : Entries ℕ) (ws mid ws' : List RequestWindow)
      → window_index now size (suc last) ts ≡ idx
      → add_at idx n ws ≡ some mid
      → Distributes es mid ws'
      → Distributes ((ts, n) ∷ es) ws ws'
  unfolding add_at
  add_counts_step none ts n es ws mid ws' e h d = absurd (none-ne-some mid h)
  add_counts_step (some idx) ts n es ws mid ws' e h (l, c, g) =
      let (l', c', g') = add_count_lem idx n ws mid h in
      (
        omega (arith, l, l'),
        omega (arith, c, c'),
        λ j.
            rw (window_index-age now size last ts idx e)
              (g j ∙ ap (raise (share now size last j es)) (g' j) ∙ raise-raise _ _ _),
      )

  add_counts_lem :
      (es : Entries ℕ) (ws ws' : List RequestWindow)
      → add_counts now size (suc last) es ws ≡ some ws'
      → Distributes es ws ws'
  unfolding add_counts
  add_counts_lem [] ws ws' h =
      subst (Distributes [] ws) (some-injective _ _ h)
        (refl, omega arith, λ j. sym (raise-zero (get_elem? ws j)))
  add_counts_lem ((ts, n) ∷ es) ws ws' h =
      elim (Option-cases (add_at (window_index now size (suc last) ts) n ws)) [
        | inl e ↦ absurd (none-ne-some ws' (rw (e, add_counts) at h))
        | inr (mid, e) ↦
            add_counts_step _ ts n es ws mid ws' refl e
              (add_counts_lem es mid ws' (rw (e, add_counts) at h))
      ]

-- The windows that the loop has filled: window `j` starts `left + i - 1 - j` windows ago.
pub empty_windows-length :
    (now : Time) (size : Duration) (left i : ℕ) (ws : List RequestWindow)
    → length (empty_windows now size left i ws) ≡ left + length ws
unfolding empty_windows
empty_windows-length now size zero i ws = omega arith
empty_windows-length now size (suc left) i ws =
    omega (arith, empty_windows-length now size left (suc i) (_ ∷ ws))

empty_windows-counted :
    (now : Time) (size : Duration) (left i : ℕ) (ws : List RequestWindow)
    → counted (empty_windows now size left i ws) ≡ counted ws
unfolding empty_windows
empty_windows-counted now size zero i ws = refl
empty_windows-counted now size (suc left) i ws = omega (
  arith,
  empty_windows-counted now size left (suc i)
      (record { time = window_start now size i; count = 0 } ∷ ws),
)

empty_windows-past :
    (now : Time) (size : Duration) (left i : ℕ) (ws : List RequestWindow) (j k : ℕ)
    → left + k ≡ j
    → get_elem? (empty_windows now size left i ws) j ≡ get_elem? ws k
unfolding empty_windows
empty_windows-past now size zero i ws j k e =
    let same : j ≡ k = omega arith in ap (get_elem? ws) same
empty_windows-past now size (suc left) i ws j k e =
    empty_windows-past now size left (suc i) (_ ∷ ws) j (suc k) (omega arith)

empty_windows-inside :
    (now : Time) (size : Duration) (left i : ℕ) (ws : List RequestWindow) (j k : ℕ)
    → j + suc k ≡ left
    → get_elem? (empty_windows now size left i ws) j
      ≡ some (record { time = window_start now size (k + i); count = 0 })
unfolding empty_windows
empty_windows-inside now size zero i ws j k e = absurd (omega arith)
empty_windows-inside now size (suc left) i ws j zero e =
    empty_windows-past now size left (suc i) (_ ∷ ws) j 0 (omega arith)
    ∙ ap (λ k. some (record { time = window_start now size k; count = 0 }))
        (let same : i ≡ 0 + i = omega arith in same)
empty_windows-inside now size (suc left) i ws j (suc k) e =
    empty_windows-inside now size left (suc i) (_ ∷ ws) j k (omega arith)
    ∙ ap (λ k. some (record { time = window_start now size k; count = 0 }))
        (let same : k + suc i ≡ suc k + i = omega arith in same)

raise_empty :
    (now : Time) (size : Duration) (i k n : ℕ)
    → i ≡ k
    → raise n (some (record { time = window_start now size i; count = 0 }))
      ≡ some (record { time = window_start now size k; count = n })
raise_empty now size i k n e = rw e (ground arith)

-- The windows for these statistics, with `n` more behind the first: their counts add up, and the
-- window at index `j` starts `n - j` window sizes ago and counts the requests whose age is `j`.
abbrev pub IsCounted : Time → ℕ → Entries ℕ → List RequestWindow → Type 0
IsCounted now n es ws =
    (length ws ≡ suc n)
    × (counted ws ≡ total es)
    × ((j k : ℕ)
        → j + k ≡ n
        → get_elem? ws j
          ≡ some (record {
            time = window_start now (window_size (suc n) es) k;
            count = share now (window_size (suc n) es) n j es;
          }))

windows_lem :
    (now : Time) (n : ℕ) (es : Entries ℕ) (ws : List RequestWindow)
    → let size = window_size (suc n) es in
      add_counts now size (suc n) es (empty_windows now size (suc n) 0 []) ≡ some ws
      → IsCounted now n es ws
windows_lem now n es ws h =
    let size = window_size (suc n) es in
    let empty = empty_windows now size (suc n) 0 [] in
    let (l, c, g) = add_counts_lem now size n es empty ws h in
    (
      omega (arith, l, empty_windows-length now size (suc n) 0 []),
      omega (arith, c, empty_windows-counted now size (suc n) 0 []),
      λ j k e.
          g j
          ∙ ap (raise (share now size n j es))
              (empty_windows-inside now size (suc n) 0 [] j k (omega arith))
          ∙ raise_empty now size (k + 0) k _ (omega arith),
    )

pub count_windows_lem :
    (limit : ℕ) (now : Time) (n : ℕ) (es : Entries ℕ) (ws : List RequestWindow)
    → count_windows limit now (pos (suc n)) es ≡ some ws
    → (suc n ≤ limit) × IsCounted now n es ws
unfolding count_windows
count_windows_lem limit now n es ws h = elim (Bool-cases (ltb limit (suc n))) [
  | inl e ↦ absurd (none-ne-some ws (rw (e, count_windows) at h))
  | inr e ↦ (ground (arith, e), windows_lem now n es ws (rw (e, count_windows) at h))
]

-- Some instant lies a window or more ahead of the clock.
abbrev pub is_ahead : Time → Duration → Entries ℕ → Bool
is_ahead now size [] = false
is_ahead now size ((ts, n) ∷ es) = (ltb now ts && leb size (ts - now)) || is_ahead now size es

module _ (now : Time) (size : Duration) (n : ℕ) where
  window_index-cases :
      (ts : Time)
      → ((ltb now ts && leb size (ts - now)) ≡ true × (window_index now size (suc n) ts ≡ none))
        ⊎ ((i : ℕ) × ((ltb now ts && leb size (ts - now)) ≡ false)
            × (window_index now size (suc n) ts ≡ some i)
            × (i < suc n))
  unfolding window_index
  window_index-cases ts = elim (Bool-cases (ltb now ts)) [
    | inl e ↦ elim (Bool-cases (leb size (ts - now))) [
      | inl f ↦ rw (e, f) (inl (refl, refl))
      | inr f ↦ rw (e, f) (inr (0, refl, refl, omega arith))
    ]
    | inr e ↦ rw e (inr (_, refl, refl, ground arith))
  ]

  add_at-cases :
      (ts m : ℕ) (ws : List RequestWindow)
      → length ws ≡ suc n
      → ((ltb now ts && leb size (ts - now)) ≡ true
          × (add_at (window_index now size (suc n) ts) m ws ≡ none))
        ⊎ ((ws' : List RequestWindow) × ((ltb now ts && leb size (ts - now)) ≡ false)
            × (add_at (window_index now size (suc n) ts) m ws ≡ some ws')
            × (length ws' ≡ suc n))
  unfolding add_at
  add_at-cases ts m ws l = elim (window_index-cases ts) [
    | inl (e, f) ↦ inl (e, rw f refl)
    | inr (i, e, f, b) ↦
        let (ws', g) = add_count_total i m ws (omega (arith, l)) in
        inr (ws', e, rw f g, (add_count_lem i m ws ws' g).0 ∙ l)
  ]

  pub add_counts-none_iff :
      (es : Entries ℕ) (ws : List RequestWindow)
      → length ws ≡ suc n
      → (add_counts now size (suc n) es ws ≡ none) ↔ (is_ahead now size es ≡ true)
  unfolding add_counts
  add_counts-none_iff [] ws l = (λ h. absurd (none-ne-some ws (sym h)), λ h. absurd (cc))
  add_counts-none_iff ((ts, m) ∷ es) ws l = elim (add_at-cases ts m ws l) [
    | inl (e, f) ↦ rw e (rw (f, add_counts) (λ _. refl, λ _. refl))
    | inr (ws', e, f, l') ↦ rw e (rw (f, add_counts) (add_counts-none_iff es ws' l'))
  ]
