-- ===== src/Networks/Enforcement.antt =====
-- plugins/network.go and block.go: the messages of updateAndBlock for BlockASN, one after the other,
-- on the block list.
use botex.Prelude.{
  ℕ, ◌==◌, ◌≤◌, ◌≡◌, inl, inr, refl, sym, ap, ◌∙◌, String, Option, none, some, true, List, [], ◌∷◌,
  Bool-cases, All,
}
use botex.Data.{Bytes, BlockMessage}
use botex.Store.{ok, KvStore}
use botex.Store.Prefix.{bytes_eq, bytes_eq_iff}
use botex.Store.Laws.{StoreLaws}
use botex.Block.{
  Block, Outcome, done, error, Registry, Codec, decode_stored, asn_namespace, cidr_namespace,
}
use botex.Block.Stored.{write_once_ok, asn_namespace-cidr_namespace}
use botex.Block.Laws.{IsDecodable, stored-decoded}
use botex.Block.Lookup.{
  is_found, reason_or, get_network, get_asn, network_reason, is_blocked_by_asn,
}
use botex.Block.Change.{store_asn, block_asn, cache_asn}
use botex.Block.Systems.{get_asn-is_found, block_asn-is_found}
use botex.Window.{Time}
use botex.MapWindow.{Clock}
use botex.Treemap.{Treemap}
use botex.Float64.{Float64}
use botex.NetworkData.{BidiMap}
use botex.Networks.{Systems, Config, Networks, Blocks, update_and_block}
use botex.Networks.Limits.{All-zip, IsOver, update_and_block-IsOver}

module _ {S A F C N P : Type 0} ⦃kv : KvStore S⦄ (registry : Registry A N)
    (codec : Codec A F C N P) where
  -- The calls of BlockASN; their errors are dropped.
  unfoldable pub block_asns : Block S → List (BlockMessage A F C) → Block S
  block_asns b [] = b
  block_asns b (msg ∷ msgs) = block_asns (block_asn registry codec b msg).0 msgs

  abbrev pub IsBlocked : Block S → A → Type 0
  IsBlocked b asn = is_found (is_blocked_by_asn registry codec b (some asn)) ≡ done true

  network_reason-rest :
      (b b' : Block S)
      → ((cidr : Bytes)
          → kv.get b'.store (cidr_namespace cidr) ≡ kv.get b.store (cidr_namespace cidr))
      → (network : Option N)
      → network_reason registry codec b' network ≡ network_reason registry codec b network
  unfolding network_reason get_network
  network_reason-rest b b' rest none = refl
  network_reason-rest b b' rest (some network) =
      ap (λ o. reason_or (decode_stored codec.decode_block o) (done none)) (rest _)

  is_blocked_by_asn-rest :
      (b b' : Block S) (asn : A)
      → let key = asn_namespace (registry.asn_number asn) in
        kv.get b'.store key ≡ kv.get b.store key
        → ((cidr : Bytes)
            → kv.get b'.store (cidr_namespace cidr) ≡ kv.get b.store (cidr_namespace cidr))
        → is_blocked_by_asn registry codec b' (some asn)
          ≡ is_blocked_by_asn registry codec b (some asn)
  unfolding is_blocked_by_asn get_asn
  is_blocked_by_asn-rest b b' asn same rest =
      rw (same, network_reason-rest b b' rest (registry.asn_network asn)) refl

  get_asn-IsBlocked :
      (b : Block S) (asn : A) (m : BlockMessage A F C) (key : Bytes)
      → decode_stored codec.decode_block (kv.get b.store key) ≡ done m
      → key ≡ asn_namespace (registry.asn_number asn)
      → IsBlocked b asn
  unfolding get_asn
  get_asn-IsBlocked b asn m key d same =
      get_asn-is_found registry codec b asn m
        (ap (λ k. decode_stored codec.decode_block (kv.get b.store k)) (sym same) ∙ d)

  store_asn-IsBlocked :
      (b b' : Block S) (msg : BlockMessage A F C) (asn : A) (o : Outcome (Option String))
      (laws : StoreLaws S kv)
      → store_asn registry codec b msg asn o ≡ (b', none)
      → 1_000_000_000 ≤ b.block_ttl
      → laws.IsReadable b.store
      → laws.IsReadable b'.store
      → let key = asn_namespace (registry.asn_number asn) in
        ((v : Bytes) → codec.encode_block msg ≡ some v → IsDecodable codec.decode_block v)
        → ((v : Bytes) → kv.get b.store key ≡ ok v → IsDecodable codec.decode_block v)
        → (other : A) → IsBlocked b other
        → IsBlocked b' other
  unfolding store_asn
  store_asn-IsBlocked b b' msg asn (error e) laws h ttl r r' new before other old = absurd (cc)
  store_asn-IsBlocked b b' msg asn (done (some reason)) laws h ttl r r' new before other old =
      ap (λ x. is_found (is_blocked_by_asn registry codec x (some other))) (sym (ap (λ x. x.0) h))
      ∙ old
  store_asn-IsBlocked b b' msg asn (done none) laws h ttl r r' new before other old =
      let n = registry.asn_number asn in
      let n' = registry.asn_number other in
      let (stored, rest) =
        write_once_ok laws (cache_asn b n) b' (asn_namespace n) _ _ refl h ttl r r' in
      let (m, d) = stored-decoded codec.decode_block _ _ _ stored new before in
      elim (Bool-cases (bytes_eq (asn_namespace n) (asn_namespace n'))) [
        | inl e ↦ get_asn-IsBlocked b' other m _ d ((bytes_eq_iff _ _).0 e)
        | inr e ↦
            ap is_found (
              is_blocked_by_asn-rest b b' other (rest _ e)
                (λ cidr. rest _ (asn_namespace-cidr_namespace n cidr)))
            ∙ old
      ]

  -- A call of BlockASN that reports no error, on a store that can be read before and after it, where
  -- what it encodes, and what is under its key before, can be read back, and which keeps it for a
  -- second at least.
  pub record Succeeds (laws : StoreLaws S kv) (b : Block S) (msg : BlockMessage A F C) (asn : A)
      : Type 0 where
    pub lasts : 1_000_000_000 ≤ b.block_ttl
    pub named : msg.asn ≡ some asn
    pub stored : (block_asn registry codec b msg).1 ≡ none
    pub before : laws.IsReadable b.store
    pub after : laws.IsReadable (block_asn registry codec b msg).0.store
    pub encoded : (v : Bytes) → codec.encode_block msg ≡ some v → IsDecodable codec.decode_block v
    pub held :
        (v : Bytes)
        → kv.get b.store (asn_namespace (registry.asn_number asn)) ≡ ok v
        → IsDecodable codec.decode_block v

  block_asn-keeps :
      (laws : StoreLaws S kv) (b b' : Block S) (msg : BlockMessage A F C) (asn : A)
      → block_asn registry codec b msg ≡ (b', none)
      → Succeeds laws b msg asn
      → laws.IsReadable b'.store
      → (other : A) → IsBlocked b other
      → IsBlocked b' other
  unfolding block_asn
  block_asn-keeps laws b b' msg asn h well after =
      store_asn-IsBlocked b b' msg asn _ laws (rw (well.named, block_asn) at h) well.lasts
        well.before after well.encoded well.held

  block_asn-IsBlocked :
      (laws : StoreLaws S kv) (b : Block S) (msg : BlockMessage A F C) (asn : A)
      → Succeeds laws b msg asn
      → IsBlocked (block_asn registry codec b msg).0 asn
        × ((other : A) → IsBlocked b other → IsBlocked (block_asn registry codec b msg).0 other)
  block_asn-IsBlocked laws b msg asn well =
      let b' = (block_asn registry codec b msg).0 in
      let h : block_asn registry codec b msg ≡ (b', none) = ap (λ e. (b', e)) well.stored in
      (
        (block_asn-is_found registry codec b b' msg asn [] laws well.named h well.lasts well.before
            well.after well.encoded well.held).0,
        block_asn-keeps laws b b' msg asn h well well.after,
      )

  -- Every call succeeds, on the block list as the calls before it leave it.
  abbrev pub AllSucceed : StoreLaws S kv → Block S → List (BlockMessage A F C) → Type 0
  AllSucceed laws b [] = Unit
  AllSucceed laws b (msg ∷ msgs) =
      ((asn : A) × Succeeds laws b msg asn)
      × AllSucceed laws (block_asn registry codec b msg).0 msgs

  -- The system of the message is blocked.
  abbrev pub IsEnforced : Block S → BlockMessage A F C → Type 0
  IsEnforced b msg = (asn : A) × (msg.asn ≡ some asn) × IsBlocked b asn

  pub block_asns-IsEnforced :
      (laws : StoreLaws S kv) (b : Block S) (msgs : List (BlockMessage A F C))
      → AllSucceed laws b msgs
      → All (IsEnforced (block_asns b msgs)) msgs
        × ((other : A) → IsBlocked b other → IsBlocked (block_asns b msgs) other)
  unfolding block_asns
  block_asns-IsEnforced laws b [] well = (well, λ other h. h)
  block_asns-IsEnforced laws b (msg ∷ msgs) ((asn, now), later) =
      let (here, keeps) = block_asn-IsBlocked laws b msg asn now in
      let (rest, kept) = block_asns-IsEnforced laws (block_asn registry codec b msg).0 msgs later in
      (((asn, now.named, kept asn here), rest), λ other h. kept other (keeps other h))

module _ {S M I A N F C P : Type 0} ⦃kv : KvStore S⦄ ⦃tm : Treemap M ℕ⦄ ⦃bidi : BidiMap I⦄
    ⦃float : Float64 F⦄ (registry : Registry A N) (codec : Codec A F C N P)
    (systems : Systems A N F) (config : Config F) where
  -- updateAndBlock on a block list that takes its messages for BlockASN, where every call succeeds:
  -- BlockASN reports no error, the time to live is at least a second, reading fails neither before
  -- nor after it, and both what it encodes and what is under its key before can be read back. Then
  -- every system that a message names is blocked at the end, and was above both limits: the
  -- message's numbers are the sums over the networks, as they are after they have expired, of the
  -- systems with its number. What was blocked before, still is.
  pub update_and_block-IsEnforced :
      (laws : StoreLaws S kv) (b : Block S) (now : Time) (clocks : String → Clock)
      (n next : Networks M I A N F) (blocks : Blocks A F C N)
      → update_and_block systems config now clocks n ≡ some (next, blocks)
      → AllSucceed registry codec laws b blocks.asns
      → let b' = block_asns registry codec b blocks.asns in
        All
          (λ m.
            IsOver ◌==◌ systems.number next.networks float config m
            × IsEnforced registry codec b' m)
          blocks.asns
        × ((other : A) → IsBlocked registry codec b other → IsBlocked registry codec b' other)
  update_and_block-IsEnforced laws b now clocks n next blocks h well =
      let (_, over, _) = update_and_block-IsOver systems config now clocks n next blocks h in
      let (enforced, kept) = block_asns-IsEnforced registry codec laws b blocks.asns well in
      (All-zip (λ m p q. (p, q)) blocks.asns over enforced, kept)
