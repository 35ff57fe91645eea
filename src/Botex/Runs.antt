-- ===== src/Botex/Runs.antt =====
-- A statement about every client and its key, through any events of the server.
use mathlib.Core.Option.{some-injective, none-ne-some}
use botex.Prelude.{
  ℕ, ◌≡◌, inl, inr, refl, subst, String, Option, none, some, Option-cases, true, false, Bool-cases,
  List, [], ◌∷◌, All, lookup, str_eq,
}
use botex.Data.{Bytes, Request, IpStats}
use botex.Treemap.{Treemap}
use botex.Window.{Time}
use botex.MapWindow.{Clock}
use botex.Store.{KvStore}
use botex.StatsWindows
use botex.Block.{Registry, Codec}
use botex.Whitelist.{IpDetails}
use botex.IpData.{Env, IpData, with_details}
use botex.Resolver.{IpResolv}
use botex.History.{Net, History, Added, Changed}
use botex.History
use botex.Botex.{
  Botex, Attempt, after_add, handle_request, take_name, put_details, block_left, block_one,
  update_all, block_asn_nets,
}
use botex.Botex.Events.{
  Event, requests, updates, ticks, names, blocks, asn_blocks, handled_to, changed_to, step, run,
}
use botex.Botex.Clients.{
  Survives, Holds, lookup-Holds, put-Holds, expire_clients-Holds, update-Holds, set_hostname-Holds,
  add-Holds,
}

-- What the clocks of an event have to satisfy.
abbrev pub IsTimed : {A G F : Type 0} → (Clock → Type 0) → Event A G F → Type 0
IsTimed Still (requests closed created clock now r) = Still clock
IsTimed Still (ticks now clocks) = (key : String) → Still (clocks key)
IsTimed Still (updates clock sts) = Unit
IsTimed Still (names rip) = Unit
IsTimed Still (blocks now ip left) = Unit
IsTimed Still (asn_blocks clock) = Unit

module _ {M W S A G F : Type 0} (Q : String → IpData M A G F → Type 0) where
  abbrev pub HoldsFor : Botex M W S A G F → Type 0
  HoldsFor b = All (Holds Q) b.history.clients

  after_add-Holds :
      (net : Net A G) (b next : Botex M W S A G F) (r : Request A)
      (added : Option (Added M W S A G F))
      → ((out : Added M W S A G F) → added ≡ some out → All (Holds Q) out.history.clients)
      → handled_to (after_add net b r added) ≡ some next
      → HoldsFor next
  unfolding after_add
  after_add-Holds net b next r none all run = absurd (none-ne-some next run)
  after_add-Holds net b next r (some out) all run =
      subst HoldsFor (some-injective _ _ run) (all out refl)

  changed_to-Holds :
      (b next : Botex M W S A G F) (result : Option (Changed M W A G F))
      → ((c : Changed M W A G F) → result ≡ some c → All (Holds Q) c.history.clients)
      → changed_to b result ≡ some next
      → HoldsFor next
  changed_to-Holds b next none all run = absurd (none-ne-some next run)
  changed_to-Holds b next (some c) all run = subst HoldsFor (some-injective _ _ run) (all c refl)

  put_details-Holds :
      {C : Type 0} (b next : Botex M W S A G F) (key : String) (old : IpData M A G F)
      (result : Option (Attempt S A G F C))
      → HoldsFor b
      → ((a : Attempt S A G F C) → result ≡ some a → Q key (with_details old a.details))
      → put_details b key old result ≡ some next
      → HoldsFor next
  unfolding put_details
  put_details-Holds b next key old none all q run = absurd (none-ne-some next run)
  put_details-Holds b next key old (some a) all q run =
      subst HoldsFor (some-injective _ _ run)
        (put-Holds Q b.history key (with_details old a.details) all (q a refl))

module _ {M S R N A G F C P : Type 0} ⦃tm : Treemap M ℕ⦄ ⦃kv : KvStore S⦄ {env : Env R N A F}
    {net : Net A G} {codec : Codec A F C N P} {text_of : Bytes → String} {city : G → C}
    {Still : Clock → Type 0} {Q : String → IpData M A G F → Type 0}
    (survives : Survives S env net codec text_of city Still Q) where
  take_name-Holds :
      {W : Type 0} (rip : Option IpResolv) (b : Botex M W S A G F)
      → HoldsFor Q b
      → HoldsFor Q (take_name env.float net rip b).0
  unfolding take_name
  take_name-Holds none b all = all
  take_name-Holds (some rip) b all = elim (Bool-cases (str_eq rip.error "")) [
    | inl e ↦ rw e (set_hostname-Holds survives rip.ip rip.host b.history all)
    | inr e ↦ rw e all
  ]

  block_left-Holds :
      {W : Type 0} (b next : Botex M W S A G F) (o : Option (Attempt S A G F C))
      → HoldsFor Q b
      → block_left b o ≡ some next
      → HoldsFor Q next
  unfolding block_left
  block_left-Holds b next none all run = absurd (none-ne-some next run)
  block_left-Holds b next (some a) all run = subst (HoldsFor Q) (some-injective _ _ run) all

  block_one-Holds :
      {W : Type 0} (now : Time) (ip : Bytes) (left : Option (IpDetails A G F))
      (b next : Botex M W S A G F)
      → HoldsFor Q b
      → block_one net codec text_of city now ip left b ≡ some next
      → HoldsFor Q next
  unfolding block_one
  block_one-Holds now ip (some d) b next all run = block_left-Holds b next _ all run
  block_one-Holds now ip none b next all run =
      let key = net.ip_string ip in
      elim (Option-cases (lookup key b.history.clients)) [
        | inl e ↦ subst (HoldsFor Q) (some-injective _ _ (rw (e, block_one) at run)) all
        | inr (old, e) ↦
            put_details-Holds Q b next key old _ all
              (λ a.
                survives.attempted now b.blocked key old a
                  (lookup-Holds Q key old b.history.clients all e))
              (rw (e, block_one) at run)
      ]

  update_all-Holds :
      {W : Type 0} (clock : Clock) (h : History M W A G F) (sts : Option (List (IpStats A F Bytes)))
      (c : Changed M W A G F)
      → All (Holds Q) h.clients
      → update_all env net clock h sts ≡ some c
      → All (Holds Q) c.history.clients
  unfolding update_all
  update_all-Holds clock h none c all run = absurd (none-ne-some c run)
  update_all-Holds clock h (some sts) c all run = update-Holds survives true clock sts h c all run

  module _ {W : Type 0} ⦃wm : Treemap W StatsWindows.Stats⦄
      (encode : StatsWindows.Stats → Option Bytes) (registry : Registry A N) where
    step-Holds :
        (e : Event A G F) (b next : Botex M W S A G F)
        → IsTimed Still e
        → HoldsFor Q b
        → step env net encode registry codec text_of city e b ≡ some next
        → HoldsFor Q next
    unfolding step handle_request block_asn_nets History.expire
    step-Holds (requests closed created clock now r) b next still all run =
        after_add-Holds Q net b next _ _
          (λ out e.
            add-Holds survives encode closed created clock now _ b.blocked.store b.history out still
              all e)
          run
    step-Holds (updates clock sts) b next still all run =
        changed_to-Holds Q b next _ (λ c e. update-Holds survives false clock sts b.history c all e)
          run
    step-Holds (ticks now clocks) b next still all run =
        subst (HoldsFor Q) (some-injective _ _ run)
          (expire_clients-Holds survives clocks b.history.clients still all)
    step-Holds (names rip) b next still all run =
        subst (HoldsFor Q) (some-injective _ _ run) (take_name-Holds rip b all)
    step-Holds (blocks now ip left) b next still all run =
        block_one-Holds now ip left b next all run
    step-Holds (asn_blocks clock) b next still all run =
        changed_to-Holds Q b next _ (λ c e. update_all-Holds clock b.history _ c all e) run

    -- The statement holds after any events, if it holds at first.
    pub run-Holds :
        (events : List (Event A G F)) (b last : Botex M W S A G F)
        → All (IsTimed Still) events
        → HoldsFor Q b
        → run env net encode registry codec text_of city events b ≡ some last
        → HoldsFor Q last
    unfolding run
    run-Holds [] b last still all h = subst (HoldsFor Q) (some-injective _ _ h) all
    run-Holds (e ∷ events) b last (still, later) all h =
        elim (Option-cases (step env net encode registry codec text_of city e b)) [
          | inl f ↦ absurd (none-ne-some last (rw (f, run) at h))
          | inr (next, f) ↦
              run-Holds events next last later (step-Holds e b next still all f) (rw (f, run) at h)
        ]
