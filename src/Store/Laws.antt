-- ===== src/Store/Laws.antt =====
-- What a client of the store relies on: the reads after a write or a removal that succeeded,
-- between states of the store in which reading does not fail.
use botex.Prelude.{◌≤◌, ◌≡◌, none, if◌then◌else◌}
use botex.Data.{Bytes}
use botex.Window.{Duration}
use botex.Store.{ok, err, not_found, KvStore}
use botex.Store.Prefix.{bytes_eq, has_prefix}

pub record StoreLaws (S : Type 0) (kv : KvStore S) : Type 1 where
  pub IsReadable : S → Type 0
  pub get-set_ex :
      (s s' : S) (key value : Bytes) (ttl : Duration)
      → kv.set_ex s key value ttl ≡ (s', none)
      → 1_000_000_000 ≤ ttl
      → IsReadable s
      → IsReadable s'
      → (j : Bytes) → kv.get s' j ≡ (if bytes_eq key j then ok value else kv.get s j)
  pub get-remove :
      (s s' : S) (prefix : Bytes)
      → kv.remove s prefix ≡ (s', none)
      → IsReadable s
      → IsReadable s'
      → (j : Bytes) → kv.get s' j ≡ (if has_prefix prefix j then err not_found else kv.get s j)
