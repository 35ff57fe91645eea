-- ===== src/Data.antt =====
-- data/request.go and data/stats.go: the structs that the parts pass to each other. `A` is the
-- struct `asndb.ASN` of github.com/scraperwall/asndb, and `F` is float64.
-- A text that the program searches is a list of its bytes; any other text is a String.
use botex.Prelude.{ℕ, String, Bool, List, Option}
use botex.Window.{Time}

abbrev pub Bytes : Type 0
Bytes = List ℕ

pub record Request (A : Type 0) : Type 0 where
  pub url : Bytes
  pub host : String
  pub user_agent : String
  pub source : String
  pub method : String
  pub seq : ℕ
  pub timestamp : ℕ
  pub time : Time
  pub asn : Option A
  pub is_app : Bool

pub record Stats (A F : Type 0) : Type 0 where
  pub total : ℕ
  pub app : ℕ
  pub other : ℕ
  pub ratio : F
  pub ips : ℕ
  pub asn : Option A

-- `I` is net.IP.
pub record IpStats (A F I : Type 0) : Type 0 where
  pub stats : Stats A F
  pub open stats use *
  pub ip : I
  pub with_hostname : ℕ

-- data/message.go. `C` is geoip.City, `N` is net.IPNet. A net.IP is its bytes, and none if nil.
pub record BlockMessage (A F C : Type 0) : Type 0 where
  pub stats : Stats A F
  pub open stats use *
  pub reason : String
  pub city : Option C
  pub blocked_at : Time

pub record IpBlockMessage (A F C : Type 0) : Type 0 where
  pub block : BlockMessage A F C
  pub open block use *
  pub ip : Option Bytes
  pub hostname : String

pub record NetworkBlockMessage (A F C N : Type 0) : Type 0 where
  pub block : BlockMessage A F C
  pub open block use *
  pub network : Option N
