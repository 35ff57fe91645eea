-- ===== src/Botex/Enforcement.antt =====
-- From the worker that blocks to the web server: a client that has been sent to be blocked.
use mathlib.Core.List.{Mem, Perm, mem-map_of_mem}
use botex.Prelude.{
  ◌≤◌, ◌≡◌, refl, subst, ap, String, Option, none, some, Bool, true, false, not, ◌&&◌, List, lookup,
  map,
}
use botex.Data.{Bytes, IpBlockMessage}
use botex.Window.{Time}
use botex.MapWindow.{Clock}
use botex.Store.{ok, KvStore}
use botex.Store.Laws.{StoreLaws}
use botex.Block.{Block, BlockError, done, Registry, Codec, ip_namespace}
use botex.Block.Lookup.{get_ip}
use botex.Block.Change.{block_ip}
use botex.Block.Laws.{IsDecodable, block_ip-get_ip}
use botex.IpData.{IpData, with_details}
use botex.History.{Net, put_client}
use botex.Botex.{Botex, message_of, block_client, block_with_place, put_details, block_one}
use botex.WebserverSocket.Cipher.{Aes}
use botex.WebserverSocket.Cookie.{Texts, Config, has_valid_captcha_cookie}
use botex.WebserverSocket.Decide.{Answer, blocks, answer_to, lookup_ip, client_ips, decide}
use botex.WebserverSocket.Verdicts.{decide_lem}

module _ {M W S A G F C N P : Type 0} ⦃kv : KvStore S⦄ (net : Net A G) (codec : Codec A F C N P)
    (text_of : Bytes → String) (city : G → C) where
  -- The state after a message for a client that is there, has a place and is to be blocked.
  abbrev pub blocked_state :
      Time → Bytes → IpData M A G F → G → Block S → Botex M W S A G F → Botex M W S A G F
  blocked_state now ip ipd geo blocked b = record {
    history =
        put_client b.history (net.ip_string ip)
          (with_details ipd (record ipd.details { is_blocked = true }));
    blocked = blocked;
  }

  block_one-blocked_state :
      (now : Time) (ip : Bytes) (ipd : IpData M A G F) (geo : G) (b : Botex M W S A G F)
      → lookup (net.ip_string ip) b.history.clients ≡ some ipd
      → ipd.details.geoip ≡ some geo
      → (ipd.details.is_blocked && not ipd.details.force_block) ≡ false
      → block_one net codec text_of city now ip none b
        ≡ some (
            blocked_state now ip ipd geo
              (block_ip codec b.blocked (message_of text_of city now ipd.details geo)).0
              b)
  unfolding block_one block_client block_with_place put_details
  block_one-blocked_state now ip ipd geo b there place due =
      rw (there, block_one)
        (rw (due, block_client)
          (ap
            (λ g.
              put_details b (net.ip_string ip) ipd
                (block_with_place codec text_of city now b.blocked ipd.details g))
            place))

module _ {S A F C N P : Type 0} ⦃kv : KvStore S⦄ (registry : Registry A N)
    (codec : Codec A F C N P) where
  lookup_ip-blocks :
      (b : Block S) (ip : Bytes) (details : P)
      → get_ip registry codec b ip ≡ done details
      → lookup_ip registry codec b ip ≡ blocks
  unfolding lookup_ip
  lookup_ip-blocks b ip details h = ap answer_to h

module _ {M W S A G F C N P : Type 0} ⦃kv : KvStore S⦄ (codec : Codec A F C N P)
    (text_of : Bytes → String) (city : G → C) where
  -- The call of BlockIP for a client with this place.
  abbrev pub blocking : Time → IpData M A G F → G → Botex M W S A G F → Block S × Option BlockError
  blocking now ipd geo b = block_ip codec b.blocked (message_of text_of city now ipd.details geo)

module _ {M W S A G F C N P : Type 0} ⦃kv : KvStore S⦄ (net : Net A G) (registry : Registry A N)
    (codec : Codec A F C N P) (text_of : Bytes → String) (city : G → C)
    (contains : N → Bytes → Bool) (aes : Aes) (texts : Texts) (config : Config)
    (private_blocks : List N) where
  -- A message of BlockChan for a client in the map that has a place, and is not blocked or is forced, where
  -- BlockIP reports no error, reading the store fails neither before nor after it, the time to live is
  -- at least a second, and what is stored for the address can be read back. After the worker has
  -- taken it, a web server that asks for a request of the client's address, among others or alone,
  -- is told to block it, in whatever order the lookups answer, if the request has no valid cookie.
  pub block_one-decide :
      (now : Time) (ip : Bytes) (ipd : IpData M A G F) (geo : G) (b : Botex M W S A G F)
      (laws : StoreLaws S kv) (arrive : List Answer → List Answer) (clock : Clock)
      (remote xff cookies : Bytes)
      → lookup (net.ip_string ip) b.history.clients ≡ some ipd
      → ipd.details.geoip ≡ some geo
      → (ipd.details.is_blocked && not ipd.details.force_block) ≡ false
      → (blocking codec text_of city now ipd geo b).1 ≡ none
      → 1_000_000_000 ≤ b.blocked.block_ttl
      → laws.IsReadable b.blocked.store
      → laws.IsReadable (blocking codec text_of city now ipd geo b).0.store
      → ((v : Bytes)
          → codec.encode_ip (message_of text_of city now ipd.details geo) ≡ some v
          → IsDecodable codec.decode_details v)
      → ((v : Bytes)
          → kv.get b.blocked.store (ip_namespace ipd.details.ip) ≡ ok v
          → IsDecodable codec.decode_details v)
      → ((answers : List Answer) → Perm (arrive answers) answers)
      → Mem ipd.details.ip (client_ips contains config private_blocks texts remote xff)
      → has_valid_captcha_cookie aes texts config clock cookies
          (client_ips contains config private_blocks texts remote xff)
        ≡ some false
      → (next : Botex M W S A G F) × (block_one net codec text_of city now ip none b ≡ some next)
        × (decide registry codec contains aes texts config private_blocks arrive clock next.blocked
              remote xff cookies
            ≡ some blocks)
  block_one-decide now ip ipd geo b laws arrive clock remote xff cookies there place due written ttl
        readable readable' new before shuffles asked invalid =
      let d = ipd.details in
      let ips = client_ips contains config private_blocks texts remote xff in
      let msg : IpBlockMessage A F C = message_of text_of city now d geo in
      let b' = (block_ip codec b.blocked msg).0 in
      let (x, found) =
        block_ip-get_ip registry codec b.blocked b' msg d.ip laws refl (ap (λ e. (b', e)) written)
          ttl readable readable' new before in
      let answers =
        decide_lem registry codec contains aes texts config private_blocks arrive clock b' remote
          xff cookies shuffles in
      (
        blocked_state net codec text_of city now ip ipd geo b' b,
        block_one-blocked_state net codec text_of city now ip ipd geo b there place due,
        answers.0.1 (
          subst (λ a. Mem a (map (lookup_ip registry codec b') ips))
              (lookup_ip-blocks registry codec b' d.ip x found)
              (mem-map_of_mem (lookup_ip registry codec b') asked),
          invalid,
        ),
      )
