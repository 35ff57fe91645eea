-- ===== src/WebserverSocket/Decide.antt =====
-- webserversocket.go: `decide`, and `serve` for the lines of one connection. Each lookup of an
-- address is a goroutine, so their answers arrive in any order: `arrive` gives the order. Parameters:
-- Contains of net.IPNet, and json.Unmarshal into the struct that the lines of a connection share: it
-- leaves the fields that a line does not name as they are.
use botex.Prelude.{
  String, Option, none, some, Bool, true, false, ◌||◌, ◌&&◌, List, [], ◌∷◌, if◌then◌else◌, map,
}
use botex.Data.{Bytes}
use botex.MapWindow.{Clock}
use botex.Store.{KvStore}
use botex.Block.{Block, Registry, Codec, Outcome, done, error}
use botex.Block.Lookup.{get_ip}
use botex.WebserverSocket.Cipher.{Aes}
use botex.WebserverSocket.Cookie.{Texts, Config, split, has_valid_captcha_cookie}

-- `wssOK` and `wssBlock`.
pub data Answer : Type 0 where
  passes blocks : Answer

-- The struct of `serve`; the value of the header `host` is empty if there is none.
pub record ServerData : Type 0 where
  pub url : Bytes
  pub ip : Bytes
  pub xff : Bytes
  pub cookies : Bytes
  pub user_agent : String
  pub host : String
  pub method : String

abbrev pub or_blocks : Answer → Answer → Answer
or_blocks passes decision = decision
or_blocks blocks decision = blocks

-- The loop that receives from the channel.
unfoldable pub decision_of : List Answer → Answer
decision_of [] = passes
decision_of (answer ∷ answers) = or_blocks answer (decision_of answers)

module _ {N : Type 0} (contains : N → Bytes → Bool) (config : Config)
    (private_blocks : List N) where
  abbrev pub in_any : List N → Bytes → Bool
  in_any [] ip = false
  in_any (net ∷ nets) ip = contains net ip || in_any nets ip

  unfoldable pub is_private_ip : Bytes → Bool
  is_private_ip ip = config.ignore_private_ips && in_any private_blocks ip

  abbrev pub keep_public : Option Bytes → List Bytes → List Bytes
  keep_public none ips = ips
  keep_public (some ip) ips = if is_private_ip ip then ips else ip ∷ ips

  -- The loop over the parts of X-Forwarded-For.
  unfoldable pub forwarded_ips : Texts → List Bytes → List Bytes
  unfolding is_private_ip
  forwarded_ips texts [] = []
  forwarded_ips texts (part ∷ parts) =
      keep_public (texts.parse_ip (texts.trim part)) (forwarded_ips texts parts)

  abbrev pub with_remote : Option Bytes → List Bytes → List Bytes
  with_remote none ips = ips
  with_remote (some ip) ips = ip ∷ ips

  unfoldable pub client_ips : Texts → Bytes → Bytes → List Bytes
  unfolding forwarded_ips split
  client_ips texts ip xff = with_remote (texts.parse_ip ip) (forwarded_ips texts (split b',' xff))

abbrev pub answer_to : {P : Type 0} → Outcome P → Answer
answer_to (done details) = blocks
answer_to (error e) = passes

module _ {S A F C N P : Type 0} ⦃kv : KvStore S⦄ (registry : Registry A N)
    (codec : Codec A F C N P) where
  -- `lookup`
  unfoldable pub lookup_ip : Block S → Bytes → Answer
  lookup_ip b ip = answer_to (get_ip registry codec b ip)

abbrev pub unless_solved : Option Bool → Option Answer
unless_solved none = none
unless_solved (some true) = some passes
unless_solved (some false) = some blocks

-- The end of `decide`: none where the test of the cookie panics.
unfoldable pub answer_with : Answer → Option Bool → Option Answer
answer_with passes valid = some passes
answer_with blocks valid = unless_solved valid

module _ {S A F C N P : Type 0} ⦃kv : KvStore S⦄ (registry : Registry A N) (codec : Codec A F C N P)
    (contains : N → Bytes → Bool) (aes : Aes) (texts : Texts) (config : Config)
    (private_blocks : List N) where
  unfoldable pub decide :
      (List Answer → List Answer) → Clock → Block S → Bytes → Bytes → Bytes → Option Answer
  unfolding decision_of client_ips lookup_ip answer_with
  decide arrive clock b ip xff cookies =
      let ips = client_ips contains config private_blocks texts ip xff in
      answer_with (decision_of (arrive (map (lookup_ip registry codec b) ips)))
        (has_valid_captcha_cookie aes texts config clock cookies ips)
