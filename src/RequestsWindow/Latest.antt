-- ===== src/RequestsWindow/Latest.antt =====
-- The window keeps the newest requests, and `Expire` drops what is too old from the back.
use mathlib.Core.Option.{some-injective}
use mathlib.Core.List.{foldl, append-nil, append_assoc}
use botex.Prelude.{
  ℕ, zero, suc, ◌+◌, ◌≤◌, ◌≡◌, refl, ap, subst, ◌∙◌, sym, Option, none, some, Bool, true, false,
  List, [], ◌∷◌, ◌++◌, arith, ltb, leb, if◌then◌else◌, length, length-append, All, All-append,
  Bool-cases, take, take-take-suc, take_all, length-take-le, not, ◌⊎◌, inl, inr,
}
use botex.Window.{Time, Duration}
use botex.Data.{Request}
use botex.RequestsWindow.{
  RequestsWindow, back, remove_back, new_requests_window, add, expire_back, expire,
}

module _ {R : Type 0} where
  back-append : (rs : List R) (r : R) → back (rs ++ r ∷ []) ≡ some r
  unfolding back
  back-append [] r = refl
  back-append (s ∷ []) r = refl
  back-append (s ∷ t ∷ rs) r = back-append (t ∷ rs) r

  remove_back-append : (rs : List R) (r : R) → remove_back (rs ++ r ∷ []) ≡ rs
  unfolding remove_back
  remove_back-append [] r = refl
  remove_back-append (s ∷ []) r = refl
  remove_back-append (s ∷ t ∷ rs) r = ap (◌∷◌ s) (remove_back-append (t ∷ rs) r)

  remove_back-take : (n : ℕ) (rs : List R) → length rs ≡ suc n → remove_back rs ≡ take n rs
  unfolding remove_back
  remove_back-take n [] h = absurd (omega arith)
  remove_back-take zero (r ∷ []) h = refl
  remove_back-take (suc n) (r ∷ []) h = absurd (omega arith)
  remove_back-take zero (r ∷ s ∷ rs) h = absurd (omega arith)
  remove_back-take (suc n) (r ∷ s ∷ rs) h = ap (◌∷◌ r) (remove_back-take n (s ∷ rs) (omega arith))

  take-cons-take : (n : ℕ) (r : R) (rs : List R) → take n (r ∷ take n rs) ≡ take n (r ∷ rs)
  take-cons-take zero r rs = refl
  take-cons-take (suc n) r rs = ap (◌∷◌ r) (take-take-suc n rs)

  trim :
      (n : ℕ) (rs : List R)
      → length rs ≤ suc n
      → (if ltb n (length rs) then remove_back rs else rs) ≡ take n rs
  trim n rs h = ground (arith, remove_back-take n rs, take_all n rs)

  abbrev Snoc : List R → Type 0
  Snoc rs = (rs ≡ []) ⊎ ((init : List R) × (r : R) × (rs ≡ init ++ r ∷ []))

  Snoc-cases : (rs : List R) → Snoc rs
  Snoc-cases [] = inl refl
  Snoc-cases (r ∷ rs) = elim (Snoc-cases rs) [
    | inl e ↦ inr ([], r, ap (◌∷◌ r) e)
    | inr (init, s, e) ↦ inr (r ∷ init, s, ap (◌∷◌ r) e)
  ]

  -- The pushed elements, newest first.
  abbrev pub newest_first : List R → List R → List R
  newest_first = foldl (λ h r. r ∷ h)

module _ {A : Type 0} where
  add_step :
      (w : RequestsWindow A) (h : List (Request A)) (r : Request A)
      → w.requests ≡ take w.max_size h
      → (add w r).requests ≡ take w.max_size (r ∷ h)
  unfolding add
  add_step w h r e =
      trim w.max_size (r ∷ w.requests) (rw e (omega (arith, length-take-le w.max_size h)))
      ∙ ap (λ rs. take w.max_size (r ∷ rs)) e
      ∙ take-cons-take w.max_size r h

  max_size-add : (w : RequestsWindow A) (r : Request A) → (add w r).max_size ≡ w.max_size
  unfolding add
  max_size-add w r = refl

  run_adds :
      (n : ℕ) (rs : List (Request A)) (w : RequestsWindow A) (h : List (Request A))
      → w.max_size ≡ n
      → w.requests ≡ take n h
      → (foldl add w rs).requests ≡ take n (newest_first h rs)
  run_adds n [] w h m e = e
  run_adds n (r ∷ rs) w h m e =
      run_adds n rs (add w r) (r ∷ h) (max_size-add w r ∙ m) (rw (← m) (add_step w h r (rw m e)))

  -- From a new window, the requests that were added are kept newest first: the window holds exactly
  -- the newest `max_requests` of them, in that order.
  pub adds_keep_newest :
      (max_requests : ℕ) (size : Duration) (num : ℕ) (rs : List (Request A))
      → (foldl add (new_requests_window max_requests size num) rs).requests
        ≡ take max_requests (newest_first [] rs)
  unfolding new_requests_window
  adds_keep_newest max_requests size num rs =
      run_adds max_requests rs (new_requests_window max_requests size num) [] refl
        (sym (take_all max_requests [] (omega arith)))

  abbrev is_stale : Time → Duration → Request A → Bool
  is_stale now ttl r = not (leb now (r.time + ttl))

  -- What the loop of `Expire` may leave of a list.
  pub record Trimmed (now : Time) (ttl : Duration) (rs rest : List (Request A)) : Type 0 where
    pub dropped : List (Request A)
    pub split : rs ≡ rest ++ dropped
    pub all_old : All (λ r. is_stale now ttl r ≡ true) dropped
    pub last_young : (r : Request A) → back rest ≡ some r → is_stale now ttl r ≡ false

  Trimmed-nil : (now : Time) (ttl : Duration) → Trimmed now ttl [] []
  unfolding back
  Trimmed-nil now ttl = record {
    dropped = [];
    split = refl;
    all_old = tt;
    last_young = λ r e. absurd (ground arith);
  }

  Trimmed-keep :
      (now : Time) (ttl : Duration) (init : List (Request A)) (r : Request A)
      → is_stale now ttl r ≡ false
      → Trimmed now ttl (init ++ r ∷ []) (init ++ r ∷ [])
  Trimmed-keep now ttl init r young = record {
    dropped = [];
    split = sym (append-nil (init ++ r ∷ []));
    all_old = tt;
    last_young = λ s e.
        subst (λ q. is_stale now ttl q ≡ false) (some-injective _ _ (sym (back-append init r) ∙ e))
          young;
  }

  Trimmed-drop :
      (now : Time) (ttl : Duration) (init rest : List (Request A)) (r : Request A)
      → is_stale now ttl r ≡ true
      → Trimmed now ttl init rest
      → Trimmed now ttl (init ++ r ∷ []) rest
  Trimmed-drop now ttl init rest r old t = record {
    dropped = t.dropped ++ r ∷ [];
    split = ap (λ l. l ++ r ∷ []) t.split ∙ append_assoc rest t.dropped (r ∷ []);
    all_old = All-append _ t.dropped (r ∷ []) t.all_old (old, tt);
    last_young = t.last_young;
  }

  after_back :
      Time → Duration → List (Request A) → List (Request A) → Option (Request A) → List (Request A)
  after_back now ttl rs rest none = rs
  after_back now ttl rs rest (some oldest) = if leb now (oldest.time + ttl) then rs else rest

  expire_back-suc :
      (fuel : ℕ) (now : Time) (ttl : Duration) (rs : List (Request A))
      → expire_back (suc fuel) now ttl rs
        ≡ after_back now ttl rs (expire_back fuel now ttl (remove_back rs)) (back rs)
  unfolding expire_back after_back
  expire_back-suc fuel now ttl rs = ground arith

  expire_back-nil :
      (fuel : ℕ) (now : Time) (ttl : Duration)
      → Trimmed now ttl [] (expire_back (suc fuel) now ttl [])
  unfolding expire_back
  expire_back-nil fuel now ttl = Trimmed-nil now ttl

  expire_back_young :
      (fuel : ℕ) (now : Time) (ttl : Duration) (init : List (Request A)) (r : Request A)
      → leb now (r.time + ttl) ≡ true
      → expire_back (suc fuel) now ttl (init ++ r ∷ []) ≡ init ++ r ∷ []
  expire_back_young fuel now ttl init r young =
      rw expire_back-suc (rw (back-append init r) (unfold after_back in rw young refl))

  expire_back_old :
      (fuel : ℕ) (now : Time) (ttl : Duration) (init : List (Request A)) (r : Request A)
      → leb now (r.time + ttl) ≡ false
      → expire_back (suc fuel) now ttl (init ++ r ∷ []) ≡ expire_back fuel now ttl init
  expire_back_old fuel now ttl init r old =
      rw expire_back-suc
        (rw (back-append init r, remove_back-append) (unfold after_back in rw old refl))

  expire_back-snoc :
      (fuel : ℕ) (now : Time) (ttl : Duration) (init : List (Request A)) (r : Request A)
      → Trimmed now ttl init (expire_back fuel now ttl init)
      → Trimmed now ttl (init ++ r ∷ []) (expire_back (suc fuel) now ttl (init ++ r ∷ []))
  expire_back-snoc fuel now ttl init r t = elim (Bool-cases (leb now (r.time + ttl))) [
    | inl young ↦
        rw (expire_back_young fuel now ttl init r young)
          (Trimmed-keep now ttl init r (ap not young))
    | inr old ↦
        rw (expire_back_old fuel now ttl init r old) (Trimmed-drop now ttl init _ r (ap not old) t)
  ]

  expire_back-Trimmed :
      (fuel : ℕ) (now : Time) (ttl : Duration) (rs : List (Request A))
      → length rs ≤ fuel
      → Trimmed now ttl rs (expire_back fuel now ttl rs)
  unfolding expire_back
  expire_back-Trimmed zero now ttl [] h = Trimmed-nil now ttl
  expire_back-Trimmed zero now ttl (r ∷ rs) h = absurd (omega arith)
  expire_back-Trimmed (suc fuel) now ttl rs h = elim (Snoc-cases rs) [
    | inl e ↦
        subst (λ l. Trimmed now ttl l (expire_back (suc fuel) now ttl l)) (sym e)
          (expire_back-nil fuel now ttl)
    | inr (init, r, e) ↦
        subst (λ l. Trimmed now ttl l (expire_back (suc fuel) now ttl l)) (sym e)
          (expire_back-snoc fuel now ttl init r (
            expire_back-Trimmed fuel now ttl init
              (omega (arith, ap length e, length-append init (r ∷ [])))))
  ]

  -- `Expire` on any window drops, from the back, requests that are too old, as far as
  -- the first that is not: the requests are those that are left, in their order, followed by
  -- requests that are all older than the time to live; the last one left, if any, is not; and the
  -- returned number is how many are left.
  pub expire-Trimmed :
      (now : Time) (w : RequestsWindow A)
      → Trimmed now w.ttl w.requests (expire now w).0.requests
        × ((expire now w).1 ≡ length (expire now w).0.requests)
  unfolding expire
  expire-Trimmed now w =
      (expire_back-Trimmed (length w.requests) now w.ttl w.requests (omega arith), refl)
