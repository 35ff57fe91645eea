-- ===== src/Store/Badger/Laws.antt =====
-- What the operations of the store do to its entries.
use botex.Prelude.{
  ◌≤◌, ◌≡◌, inl, inr, refl, ap, ◌∙◌, sym, Option, none, some, Bool, true, false, not, List, [], ◌∷◌,
  if◌then◌else◌, length, select, select-select, All, arith, Option-cases, ◌||◌,
}
use botex.Data.{Bytes}
use botex.Window.{Duration}
use botex.Store.{StoreError, not_found, Result, ok, err}
use botex.Store.Laws.{StoreLaws}
use botex.Store.Prefix.{bytes_eq, bytes_eq_iff, has_prefix, with_prefix, range_lem}
use botex.Store.Badger.{
  IsLasting, Items, put_key, drop_key, apply_writes, BadgerLib, find_key, item_value, get,
  after_commit, set_ex, iterate, deletes, remove, each, all, count, read_values, has, has_result,
  all_result, badger_store,
}

find_key-put_key :
    (k j v : Bytes) (es : Items)
    → find_key j (put_key k v es) ≡ (if bytes_eq k j then some v else find_key j es)
unfolding find_key put_key
find_key-put_key k j v [] = refl
find_key-put_key k j v ((i, w) ∷ es) =
    ground (arith, find_key-put_key k j v es, bytes_eq_iff i k, bytes_eq_iff k j, bytes_eq_iff i j)

-- The key is one of the entries'.
abbrev has_key : Items → Bytes → Bool
has_key [] k = false
has_key ((j, v) ∷ es) k = bytes_eq k j || has_key es k

select_ext :
    (p q : Bytes × Bytes → Bool) (es l : Items)
    → ((e : Bytes × Bytes) → has_key l e.0 ≡ true → p e ≡ q e)
    → ((k : Bytes) → has_key es k ≡ true → has_key l k ≡ true)
    → select p es ≡ select q es
select_ext p q [] l h sub = refl
select_ext p q ((k, v) ∷ es) l h sub =
    rw (h (k, v) (sub k (ground (arith, bytes_eq_iff k k))))
      (rw (select_ext p q es l h (λ j m. sub j (ground arith))) refl)

select_pointwise :
    (p q : Bytes × Bytes → Bool) (es : Items)
    → ((e : Bytes × Bytes) → p e ≡ q e)
    → select p es ≡ select q es
select_pointwise p q [] h = refl
select_pointwise p q (e ∷ es) h = ground (arith, h e, select_pointwise p q es h)

select_all :
    (p : Bytes × Bytes → Bool) (es : Items) → ((e : Bytes × Bytes) → p e ≡ true) → select p es ≡ es
select_all p [] h = refl
select_all p (e ∷ es) h = ground (arith, h e, select_all p es h)

apply-deletes :
    (ds es : Items) → apply_writes (deletes ds) es ≡ select (λ e. not (has_key ds e.0)) es
unfolding deletes
apply-deletes [] es = sym (select_all (λ _. true) es (λ e. refl))
apply-deletes ((k, v) ∷ ds) es =
    apply-deletes ds (drop_key k es)
    ∙ select-select (λ e. not (has_key ds e.0)) (λ e. not (bytes_eq e.0 k)) es
    ∙ select_pointwise _ _ es (λ e. ground arith)

with_prefix_sound :
    (p k : Bytes) (es : Items) → has_key (with_prefix p es) k ≡ true → has_prefix p k ≡ true
with_prefix_sound p k [] h = cc
with_prefix_sound p k ((j, v) ∷ es) h = ground (arith, with_prefix_sound p k es, bytes_eq_iff k j)

with_prefix_complete :
    (p k : Bytes) (es : Items)
    → has_key es k ≡ true
    → has_prefix p k ≡ true
    → has_key (with_prefix p es) k ≡ true
with_prefix_complete p k [] h q = h
with_prefix_complete p k ((j, v) ∷ es) h q =
    ground (arith, with_prefix_complete p k es, bytes_eq_iff k j)

has_key-with_prefix :
    (p k : Bytes) (es : Items) → has_key es k ≡ true → has_key (with_prefix p es) k ≡ has_prefix p k
has_key-with_prefix p k es h = ground (arith, with_prefix_sound p k es, with_prefix_complete p k es)

after_commit_ok :
    {D : Type 0} ⦃lib : BadgerLib D⦄ (d d' : D) (r : Result D)
    → after_commit d r ≡ (d', none)
    → r ≡ ok d'
unfolding after_commit
after_commit_ok d d' (ok x) h = cc
after_commit_ok d d' (err e) h = cc

deletes-IsLasting : (es : Items) → All IsLasting (deletes es)
unfolding deletes
deletes-IsLasting [] = tt
deletes-IsLasting ((k, v) ∷ es) = (tt, deletes-IsLasting es)

abbrev pub found : Option Bytes → Result Bytes
found none = err not_found
found (some v) = ok v

abbrev pub values_of : Items → List Bytes
values_of [] = []
values_of ((k, v) ∷ es) = v ∷ values_of es

abbrev pub is_some : Option Bytes → Bool
is_some none = false
is_some (some v) = true

found-if :
    (b : Bool) (o p : Option Bytes) → found (if b then o else p) ≡ (if b then found o else found p)
found-if true o p = refl
found-if false o p = refl

has_cases : (o : Option Bytes) → has_result (found o) ≡ (is_some o, none)
unfolding has_result
has_cases none = refl
has_cases (some v) = refl

find_key-select :
    (p j : Bytes) (es : Items)
    → find_key j (select (λ e. not (has_prefix p e.0)) es)
      ≡ (if has_prefix p j then none else find_key j es)
unfolding find_key
find_key-select p j [] = ground arith
find_key-select p j ((i, v) ∷ es) = ground (arith, find_key-select p j es, bytes_eq_iff i j)

module _ {D : Type 0} ⦃lib : BadgerLib D⦄ where
  iterate-with_prefix : (d : D) (p : Bytes) → iterate d p ≡ with_prefix p (lib.entries d)
  unfolding iterate
  iterate-with_prefix d p = range_lem p (lib.entries d) (lib.sorted d)

  -- `Remove` that reports no error has deleted exactly the entries whose keys start with its
  -- argument: not a single entry, and nothing else.
  pub remove-entries :
      (d d' : D) (prefix : Bytes)
      → remove d prefix ≡ (d', none)
      → lib.entries d' ≡ select (λ e. not (has_prefix prefix e.0)) (lib.entries d)
  unfolding remove
  remove-entries d d' prefix h = elim (Option-cases (lib.view_error d)) [
    | inl e ↦
        let es = lib.entries d in
        let c = after_commit_ok d d' _ (rw (e, remove) at h) in
        lib.commit_lem d d' _ c (deletes-IsLasting (iterate d prefix))
        ∙ apply-deletes (iterate d prefix) es
        ∙ rw (iterate-with_prefix d prefix) (
            select_ext (λ e. not (has_key (with_prefix prefix es) e.0))
              (λ e. not (has_prefix prefix e.0)) es es
              (λ e m. ap not (has_key-with_prefix prefix e.0 es m)) (λ k m. m))
    | inr (x, e) ↦
        let failing : ◌≡◌ {A = D × Option StoreError} (d, some x) (d', none) =
          rw (e, remove) at h in
        cc
  ]

  set_ex-find_key :
      (d d' : D) (key value : Bytes) (ttl : Duration)
      → set_ex d key value ttl ≡ (d', none)
      → 1_000_000_000 ≤ ttl
      → (j : Bytes)
      → find_key j (lib.entries d')
        ≡ (if bytes_eq key j then some value else find_key j (lib.entries d))
  unfolding set_ex
  set_ex-find_key d d' key value ttl h lasts j =
      ap (find_key j) (lib.commit_lem d d' _ (after_commit_ok d d' _ h) (lasts, tt))
      ∙ find_key-put_key key j value (lib.entries d)

  -- Nothing fails to be read.
  pub record IsHealthy (d : D) : Type 0 where
    pub views : lib.view_error d ≡ none
    pub values : (k : Bytes) → lib.value_error d k ≡ none

  get-found : (d : D) (k : Bytes) → IsHealthy d → get d k ≡ found (find_key k (lib.entries d))
  unfolding get item_value
  get-found d k h = rw (h.views, get) (found_cases (find_key k (lib.entries d)))
    where
      found_cases : (o : Option Bytes) → item_value d k o ≡ found o
      found_cases none = refl
      found_cases (some v) = rw (h.values k, item_value)

  -- `SetEx` for at least a second that reports no error, where reading fails neither before nor
  -- after it: then `Get` returns the value under its key, and under every other key what it
  -- returned before.
  pub get-set_ex :
      (d d' : D) (key value : Bytes) (ttl : Duration)
      → set_ex d key value ttl ≡ (d', none)
      → 1_000_000_000 ≤ ttl
      → IsHealthy d
      → IsHealthy d'
      → (j : Bytes) → get d' j ≡ (if bytes_eq key j then ok value else get d j)
  get-set_ex d d' key value ttl h lasts s s' j =
      get-found d' j s'
      ∙ ap found (set_ex-find_key d d' key value ttl h lasts j)
      ∙ rw (get-found d j s) (found-if (bytes_eq key j) (some value) (find_key j (lib.entries d)))

  read_values-healthy : (d : D) (es : Items) → IsHealthy d → read_values d es ≡ (values_of es, none)
  unfolding read_values
  read_values-healthy d [] h = refl
  read_values-healthy d ((k, v) ∷ es) h =
      rw (h.values k, read_values) (rw (read_values-healthy d es h) refl)

  each_lem :
      (d : D) (p : Bytes)
      → IsHealthy d
      → each d p ≡ (values_of (with_prefix p (lib.entries d)), none)
  unfolding each
  each_lem d p h =
      rw (h.views, each)
        (rw (iterate-with_prefix d p) (read_values-healthy d (with_prefix p (lib.entries d)) h))

  -- Where reading does not fail, `Each` and `All` give the values of exactly the entries whose keys
  -- start with the prefix, in the order of the keys, and `Count` their number; `Has` says whether
  -- the key is there.
  pub reads_agree :
      (d : D) (prefix key : Bytes)
      → IsHealthy d
      → let es = with_prefix prefix (lib.entries d) in
        (each d prefix ≡ (values_of es, none))
        × (all d prefix ≡ ok (values_of es))
        × (count d prefix ≡ (length es, none))
        × (has d key ≡ (is_some (find_key key (lib.entries d)), none))
  reads_agree d prefix key h = (
    each_lem d prefix h,
    unfold all all_result in rw (each_lem d prefix h) refl,
    unfold count in rw (h.views, count) (rw (iterate-with_prefix d prefix) refl),
    unfold has has_result in rw (get-found d key h) (has_cases (find_key key (lib.entries d))),
  )

  -- `Get` after `Remove`.
  pub get-remove :
      (d d' : D) (prefix : Bytes)
      → remove d prefix ≡ (d', none)
      → IsHealthy d
      → IsHealthy d'
      → (j : Bytes) → get d' j ≡ (if has_prefix prefix j then err not_found else get d j)
  get-remove d d' prefix h s s' j =
      get-found d' j s'
      ∙ ap (λ es. found (find_key j es)) (remove-entries d d' prefix h)
      ∙ ap found (find_key-select prefix j (lib.entries d))
      ∙ rw (get-found d j s) (found-if (has_prefix prefix j) none (find_key j (lib.entries d)))

  instance abbrev pub badger_laws : StoreLaws D badger_store
  badger_laws = record { IsReadable = IsHealthy; get-set_ex = get-set_ex; get-remove = get-remove }
