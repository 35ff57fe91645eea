-- ===== src/Store.antt =====
-- store/kvstore.go: the interface of the embedded key/value store, which the block list and the
-- resolver use. A value of type `S` is the store as it stands. Writes return the store and the
-- error, if any; reads a result. `Each` is the list of the values that the callback gets, and
-- the error that ended the iteration.
pub mod Prefix
pub mod Laws
pub mod Badger
use botex.Prelude.{ℕ, Option, List, Bool}
use botex.Data.{Bytes}
use botex.Window.{Duration}

-- `badger.ErrKeyNotFound`, or another error.
pub data StoreError : Type 0 where
  not_found : StoreError
  failed : ℕ → StoreError

pub data Result (A : Type 0) : Type 0 where
  ok : A → Result A
  err : StoreError → Result A

pub record KvStore (S : Type 0) : Type 0 where
  pub get : S → Bytes → Result Bytes
  pub set_ex : S → Bytes → Bytes → Duration → S × Option StoreError
  pub set : S → Bytes → Bytes → S × Option StoreError
  pub has : S → Bytes → Bool × Option StoreError
  pub all : S → Bytes → Result (List Bytes)
  pub count : S → Bytes → ℕ × Option StoreError
  pub remove : S → Bytes → S × Option StoreError
  pub each : S → Bytes → List Bytes × Option StoreError
