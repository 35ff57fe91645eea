-- ===== src/Store/Badger.antt =====
-- store/badger.go: the store over github.com/dgraph-io/badger, which is a parameter. A View
-- transaction sees the unexpired entries in ascending order of their keys; it may fail as a
-- whole, and the value of an item may fail to be read. An Update transaction applies all its
-- writes or, with an error, none. `runGC` and `Close` change nothing that the model holds.
pub mod Laws
pub mod Memory
pub mod Tests
use botex.Prelude.{
  ℕ, ◌+◌, ◌≤◌, ◌≡◌, Option, none, some, Bool, true, false, not, List, [], ◌∷◌, if◌then◌else◌,
  length, select, map, All,
}
use botex.Data.{Bytes}
use botex.Window.{Duration}
use botex.Store.{StoreError, not_found, failed, Result, ok, err, KvStore}
use botex.Store.Prefix.{bytes_eq, before, Sorted, while_prefix, seek}

pub data Write : Type 0 where
  put : Bytes → Bytes → Option Duration → Write
  delete : Bytes → Write

abbrev pub Items : Type 0
Items = List (Bytes × Bytes)

unfoldable pub put_key : Bytes → Bytes → Items → Items
put_key k v [] = (k, v) ∷ []
put_key k v ((j, w) ∷ es) =
    if before k j
    then (k, v) ∷ (j, w) ∷ es
    else if bytes_eq j k
    then (k, v) ∷ es
    else (j, w) ∷ put_key k v es

abbrev pub drop_key : Bytes → Items → Items
drop_key k = select (λ e. not (bytes_eq e.0 k))

abbrev pub apply_writes : List Write → Items → Items
apply_writes [] es = es
apply_writes (put k v ttl ∷ ws) es = apply_writes ws (put_key k v es)
apply_writes (delete k ∷ ws) es = apply_writes ws (drop_key k es)

-- The entry is there when the transaction ends: badger counts a time to live in whole seconds.
abbrev pub IsLasting : Write → Type 0
IsLasting (put k v none) = Unit {0}
IsLasting (put k v (some ttl)) = 1_000_000_000 ≤ ttl
IsLasting (delete k) = Unit {0}

pub record BadgerLib (D : Type 0) : Type 0 where
  pub entries : D → Items
  pub view_error : D → Option StoreError
  pub value_error : D → Bytes → Option StoreError
  pub commit : D → List Write → Result D
  pub sorted : (d : D) → Sorted (entries d)
  pub commit_lem :
      (d d' : D) (ws : List Write)
      → commit d ws ≡ ok d'
      → All IsLasting ws
      → entries d' ≡ apply_writes ws (entries d)

unfoldable pub find_key : Bytes → Items → Option Bytes
find_key k [] = none
find_key k ((j, v) ∷ es) = if bytes_eq j k then some v else find_key k es

unfoldable pub deletes : Items → List Write
deletes [] = []
deletes ((k, v) ∷ es) = delete k ∷ deletes es

unfoldable pub has_result : Result Bytes → Bool × Option StoreError
has_result (ok v) = (true, none)
has_result (err not_found) = (false, none)
has_result (err (failed n)) = (false, some (failed n))

unfoldable pub all_result : List Bytes × Option StoreError → Result (List Bytes)
all_result (vs, none) = ok vs
all_result (vs, some e) = err e

module _ {D : Type 0} ⦃lib : BadgerLib D⦄ where
  -- `item.Value`
  unfoldable pub item_value : D → Bytes → Option Bytes → Result Bytes
  item_value d key none = err not_found
  item_value d key (some v) = elim (lib.value_error d key) [ none ↦ ok v | some e ↦ err e ]

  unfoldable pub get : D → Bytes → Result Bytes
  get d key = elim (lib.view_error d) [
    | none ↦ item_value d key (find_key key (lib.entries d))
    | some e ↦ err e
  ]

  -- The store after an Update, which stays as it was if that fails.
  unfoldable pub after_commit : D → Result D → D × Option StoreError
  after_commit d (ok d') = (d', none)
  after_commit d (err e) = (d, some e)

  unfoldable pub set : D → Bytes → Bytes → D × Option StoreError
  set d key value = after_commit d (lib.commit d (put key value none ∷ []))

  unfoldable pub set_ex : D → Bytes → Bytes → Duration → D × Option StoreError
  set_ex d key value ttl = after_commit d (lib.commit d (put key value (some ttl) ∷ []))

  -- `for it.Seek(prefix); it.ValidForPrefix(prefix); it.Next()`
  unfoldable pub iterate : D → Bytes → Items
  iterate d prefix = while_prefix prefix (seek prefix (lib.entries d))

  unfoldable pub remove : D → Bytes → D × Option StoreError
  remove d prefix = elim (lib.view_error d) [
    | none ↦ after_commit d (lib.commit d (deletes (iterate d prefix)))
    | some e ↦ (d, some e)
  ]

  unfoldable pub has : D → Bytes → Bool × Option StoreError
  has d key = has_result (get d key)

  -- The values of the items up to the first that fails, and that failure.
  unfoldable pub read_values : D → Items → List Bytes × Option StoreError
  read_values d [] = ([], none)
  read_values d ((k, v) ∷ es) =
      let rest = read_values d es in
      elim (lib.value_error d k) [ none ↦ (v ∷ rest.0, rest.1) | some e ↦ ([], some e) ]

  unfoldable pub each : D → Bytes → List Bytes × Option StoreError
  each d prefix = elim (lib.view_error d) [
    | none ↦ read_values d (iterate d prefix)
    | some e ↦ ([], some e)
  ]

  unfoldable pub all : D → Bytes → Result (List Bytes)
  all d prefix = all_result (each d prefix)

  unfoldable pub count : D → Bytes → ℕ × Option StoreError
  count d prefix = elim (lib.view_error d) [
    | none ↦ (length (iterate d prefix), none)
    | some e ↦ (0, some e)
  ]

  instance abbrev pub badger_store : KvStore D
  badger_store = record {
    get = get;
    set_ex = set_ex;
    set = set;
    has = has;
    all = all;
    count = count;
    remove = remove;
    each = each;
  }
