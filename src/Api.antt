-- ===== src/Api.antt =====
-- api.go: the answers of the HTTP interface. A handler's answer is what c.JSON or
-- c.AbortWithStatusJSON gets; a panic, which gin answers with status 500, is none. The parameters
-- of a request are texts, empty if they are not there. The routes are left out. Parameters: the
-- bytes of a text, `net.ParseCIDR`, `IPNet.Contains`, the numbers of asndb.ASN, and encoding/json.
pub mod RequestStats
pub mod Buckets
pub mod Windows
pub mod Pages
pub mod Listing
pub mod Sockets
pub mod Pool
pub mod Tests
use botex.Prelude.{ℕ, String}

pub data Answer (X : Type 0) : Type 0 where
  ok : X → Answer X
  not_found not_acceptable unprocessable failed : Answer X
