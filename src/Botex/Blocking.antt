-- ===== src/Botex/Blocking.antt =====
-- What the two workers that block do.
use mathlib.Core.Option.{some-injective, none-ne-some}
use botex.Prelude.{
  ◌≡◌, ◌⊎◌, inl, inr, refl, ap, sym, ◌∙◌, String, Option, none, some, Bool, true, false, Bool-cases,
  not, ◌&&◌, List, [], ◌∷◌, arith, map, select, All, ◌||◌, if◌then◌else◌,
}
use botex.Data.{Bytes}
use botex.Window.{Time}
use botex.Store.{KvStore}
use botex.Whitelist.{IpDetails}
use botex.Block.{Block, Registry, Codec}
use botex.Block.Lookup.{is_blocked_by_asn}
use botex.Block.Change.{block_ip}
use botex.IpData.{Env, IpData}
use botex.History.{Net}
use botex.History
use botex.MapWindow.{Clock}
use botex.Botex.{
  Botex, block_asn_nets, update_all, Attempt, is_asn_blocked, client_stats, message_of, to_block,
  block_client, block_with_place,
}

not_both : (x y : Bool) → (x && not y) ≡ false → (x ≡ false) ⊎ (y ≡ true)
not_both x y h = ground (arith, h)

module _ {S A G F C N P : Type 0} ⦃kv : KvStore S⦄ (codec : Codec A F C N P)
    (text_of : Bytes → String) (city : G → C) where
  -- What a message of the channel comes to: nothing for a client that is blocked and not forced, and
  -- otherwise one call of BlockIP with the message that the websocket gets as well.
  abbrev pub IsHandled : Time → Block S → IpDetails A G F → Attempt S A G F C → Type 0
  IsHandled now b d a =
      ((d.is_blocked ≡ true)
        × (d.force_block ≡ false)
        × (a ≡ record { blocked = b; details = d; message = none }))
      ⊎ ((geo : G) × ((d.is_blocked ≡ false) ⊎ (d.force_block ≡ true))
          × (d.geoip ≡ some geo)
          × (a ≡ record {
            blocked = (block_ip codec b (message_of text_of city now d geo)).0;
            details = record d { is_blocked = true };
            message = some (message_of text_of city now d geo);
          }))

  block_with_place-IsHandled :
      (now : Time) (b : Block S) (d : IpDetails A G F) (place : Option G) (a : Attempt S A G F C)
      → (d.is_blocked && not d.force_block) ≡ false
      → d.geoip ≡ place
      → block_with_place codec text_of city now b d place ≡ some a
      → IsHandled now b d a
  unfolding block_with_place
  block_with_place-IsHandled now b d none a due e h = absurd (none-ne-some a h)
  block_with_place-IsHandled now b d (some geo) a due e h =
      inr (geo, not_both d.is_blocked d.force_block due, e, sym (some-injective _ _ h))

  IsHandled-blocked :
      (now : Time) (b : Block S) (d : IpDetails A G F) (a : Attempt S A G F C)
      → IsHandled now b d a
      → a.details.is_blocked ≡ true
  IsHandled-blocked now b d a (inl (p, q, s)) = ap (λ a. a.details.is_blocked) s ∙ p
  IsHandled-blocked now b d a (inr (geo, due, e, s)) = ap (λ a. a.details.is_blocked) s

  -- blockWorker, where it does not panic: a client that is blocked, and is not to be forced, is left
  -- alone. Any other has a place, the block list gets the message that goes to the websocket, and the client is marked as blocked,
  -- whether the block list could be written or not.
  pub block_client-IsHandled :
      (now : Time) (b : Block S) (d : IpDetails A G F) (a : Attempt S A G F C)
      → block_client codec text_of city now b d ≡ some a
      → IsHandled now b d a × (a.details.is_blocked ≡ true)
  unfolding block_client
  block_client-IsHandled now b d a h =
      let handled : IsHandled now b d a = elim (Bool-cases (d.is_blocked && not d.force_block)) [
        | inl e ↦ inl (
          ground (arith, e),
          ground (arith, e),
          sym (some-injective _ _ (rw (e, block_client) at h)),
        )
        | inr e ↦ block_with_place-IsHandled now b d d.geoip a e refl (rw (e, block_client) at h)
      ] in
      (handled, IsHandled-blocked now b d a handled)

  pub block_client-ip :
      (now : Time) (b : Block S) (d : IpDetails A G F) (a : Attempt S A G F C)
      → block_client codec text_of city now b d ≡ some a
      → a.details.ip ≡ d.ip
  block_client-ip now b d a h = elim (block_client-IsHandled now b d a h).0 [
    | inl (p, q, e) ↦ ap (λ (a : Attempt S A G F C). a.details.ip) e
    | inr (geo, due, p, e) ↦ ap (λ (a : Attempt S A G F C). a.details.ip) e
  ]

abbrev pub or_false : Option Bool → Bool
or_false none = false
or_false (some b) = b

module _ {M S A G F C N P : Type 0} ⦃kv : KvStore S⦄ (registry : Registry A N)
    (codec : Codec A F C N P) where
  -- What IsBlockedByASN says of the client's system; none is a panic.
  abbrev pub asn_state : Block S → String × IpData M A G F → Option Bool
  asn_state b e = is_asn_blocked (is_blocked_by_asn registry codec b e.1.details.asn)

  -- A client that is forced, or that is not blocked although its autonomous system is.
  abbrev pub is_missing : Block S → String × IpData M A G F → Bool
  is_missing b e =
      let d = e.1.details in
      if d.force_block then true else if d.is_blocked then false else or_false (asn_state b e)

  pub to_block-select :
      (b : Block S) (clients : List (String × IpData M A G F))
      → All (λ e. (by_asn : Bool) × (asn_state b e ≡ some by_asn)) clients
      → to_block registry codec b clients
        ≡ some (
            map
              (λ (e : String × IpData M A G F). client_stats e.1.details)
              (select (is_missing b) clients))
  unfolding to_block
  to_block-select b [] known = refl
  to_block-select b ((key, ipd) ∷ clients) ((by_asn, e), known) =
      rw (e, to_block)
        (rw (to_block-select b clients known) (
          chosen (λ (e : String × IpData M A G F). client_stats e.1.details) ipd.details.force_block
            ipd.details.is_blocked by_asn (key, ipd) (select (is_missing b) clients)))
    where
      chosen :
          {X Y : Type 0} (f : X → Y) (forced blocked by_asn : Bool) (x : X) (xs : List X)
          → let wanted = if forced then true else if blocked then false else by_asn in
            some (if forced || (not blocked && by_asn) then f x ∷ map f xs else map f xs)
            ≡ some (map f (if wanted then x ∷ xs else xs))
      chosen f true blocked by_asn x xs = refl
      chosen f false true by_asn x xs = refl
      chosen f false false true x xs = refl
      chosen f false false false x xs = refl

module _ {M W S R N A G F C P : Type 0} ⦃kv : KvStore S⦄ (env : Env R N A F) (net : Net A G)
    (registry : Registry A N) (codec : Codec A F C N P) where
  -- blockASNNetWorker, where IsBlockedByASN panics for no client: History.update is called once, with
  -- force. It gets the statistics of exactly the clients that are forced, or that are not blocked
  -- although their autonomous systems are, in the order of the map.
  pub block_asn_nets_lem :
      (clock : Clock) (b : Botex M W S A G F)
      → All
          (λ e. (by_asn : Bool) × (asn_state registry codec b.blocked e ≡ some by_asn))
          b.history.clients
      → block_asn_nets env net registry codec clock b
        ≡ History.update env net true clock
            (map
              (λ (e : String × IpData M A G F). client_stats e.1.details)
              (select (is_missing registry codec b.blocked) b.history.clients))
            b.history
  unfolding block_asn_nets update_all
  block_asn_nets_lem clock b known =
      rw (to_block-select registry codec b.blocked b.history.clients known) refl
