-- ===== src/Networks/Limits.antt =====
-- What updateAndBlock of plugins/network.go blocks: the sums that its messages tell.
use mathlib.Core.Option.{some-injective, none-ne-some}
use botex.Prelude.{
  ℕ, ◌≡◌, ◌↔◌, inl, inr, refl, ap, sym, ◌∙◌, String, some, Option-cases, Bool, Bool-cases, true,
  false, List, [], ◌∷◌, sum_of, subst, ◌==◌, ==_iff, str_eq, eq_iff, All, ltb, ◌&&◌, arith,
}
use botex.Data.{BlockMessage, NetworkBlockMessage}
use botex.Float64.{Float64}
use botex.NetworkData.{BidiMap, NetworkData}
use botex.Window.{Time}
use botex.Networks.{
  Systems, Config, Group, grow, empty_group, add_network, collect, is_over, group_message,
  asn_blocks, network_blocks, network_of, Networks, Blocks, expire_all, update_and_block,
}
use botex.Networks.Groups.{number_at, number_for, HasSums, collect-HasSums}
use botex.Treemap.{Treemap}
use botex.MapWindow.{Clock}

module _ {A : Type 0} {P Q R : A → Type 0} where
  pub All-zip : ((x : A) → P x → Q x → R x) → (xs : List A) → All P xs → All Q xs → All R xs
  All-zip f [] p q = p
  All-zip f (x ∷ xs) (p, ps) (q, qs) = (f x p q, All-zip f xs ps qs)

module _ {A : Type 0} {P Q : A → Type 0} where
  All-map : ((x : A) → P x → Q x) → (xs : List A) → All P xs → All Q xs
  All-map f [] p = p
  All-map f (x ∷ xs) (p, ps) = (f x p, All-map f xs ps)

module _ {A F K : Type 0} (same : K → K → Bool) (key_of : A → K) where
  -- The group of a system that has the key.
  abbrev pub IsHeld : K × Group A F → Type 0
  IsHeld e = (asn : A) × (e.1.stats.asn ≡ some asn) × (key_of asn ≡ e.0)

  -- The keys are different, and those of the groups' systems.
  abbrev pub IsKeyed : List (K × Group A F) → Type 0
  IsKeyed [] = Unit
  IsKeyed (e ∷ groups) = IsHeld e × All (λ o. same e.0 o.0 ≡ false) groups × IsKeyed groups

  -- Each group is that of a system with its key, and the one that is found under it.
  pub IsKeyed-All :
      (law : (a b : K) → (same a b ≡ true) ↔ (a ≡ b)) (groups : List (K × Group A F))
      → IsKeyed groups
      → All (λ e. IsHeld e × ((f : Group A F → ℕ) → number_at same f e.0 groups ≡ f e.1)) groups
  IsKeyed-All law [] k = k
  IsKeyed-All law ((held, g) ∷ groups) (h, others, k) = (
    (h, λ f. rw ((law held held).1 refl) refl),
    All-zip (λ o e (p, found). (p, λ f. rw e (found f))) groups others (IsKeyed-All law groups k),
  )

module _ {M I A N F K : Type 0} (float : Float64 F) (same : K → K → Bool) (key_of : A → K) where
  add_network-All :
      (P : K × Group A F → Type 0) (key : K) (asn : A) (nd : NetworkData M I A N F)
      (groups : List (K × Group A F))
      → P (key, grow float nd (empty_group float asn))
      → ((held : K) (g : Group A F) → P (held, g) → P (held, grow float nd g))
      → All P groups
      → All P (add_network float same key asn nd groups)
  unfolding add_network
  add_network-All P key asn nd [] new grown ps = (new, ps)
  add_network-All P key asn nd ((held, g) ∷ groups) new grown (p, ps) =
      elim (Bool-cases (same held key)) [
        | inl e ↦ rw e (grown held g p, ps)
        | inr e ↦ rw e (p, add_network-All P key asn nd groups new grown ps)
      ]

  add_network-IsKeyed :
      (asn : A) (nd : NetworkData M I A N F) (groups : List (K × Group A F))
      → IsKeyed same key_of groups
      → IsKeyed same key_of (add_network float same (key_of asn) asn nd groups)
  unfolding add_network
  add_network-IsKeyed asn nd [] k = ((asn, refl, refl), k, k)
  add_network-IsKeyed asn nd ((held, g) ∷ groups) (h, others, k) =
      elim (Bool-cases (same held (key_of asn))) [
        | inl e ↦ rw e (h, others, k)
        | inr e ↦ rw e (
          h,
          add_network-All (λ o. same held o.0 ≡ false) (key_of asn) asn nd groups e (λ key' g' p. p)
              others,
          add_network-IsKeyed asn nd groups k,
        )
      ]

  pub collect-IsKeyed :
      (es : List (String × NetworkData M I A N F)) (groups out : List (K × Group A F))
      → IsKeyed same key_of groups
      → collect float same key_of es groups ≡ some out
      → IsKeyed same key_of out
  unfolding collect
  collect-IsKeyed [] groups out k h = subst (IsKeyed same key_of) (some-injective _ _ h) k
  collect-IsKeyed ((cidr, nd) ∷ es) groups out k h = elim (Option-cases nd.asn) [
    | inl e ↦ absurd (none-ne-some out (rw (e, collect) at h))
    | inr (asn, e) ↦
        collect-IsKeyed es _ out (add_network-IsKeyed asn nd groups k) (rw (e, collect) at h)
  ]

and-both : (a b : Bool) → a && b ≡ true → (a ≡ true) × (b ≡ true)
and-both a b h = ground (arith, h)

module _ {A N F C : Type 0} (float : Float64 F) (systems : Systems A N F) (config : Config F) where
  asn_blocks-All :
      (P : BlockMessage A F C → Type 0) (now : Time) (groups : List (ℕ × Group A F))
      → All
          (λ e.
            is_over float config e.1 ≡ true
            → (reason : String) → P (group_message float systems config now reason e.1))
          groups
      → All P (asn_blocks float systems config now groups)
  unfolding asn_blocks
  asn_blocks-All P now [] ps = ps
  asn_blocks-All P now ((key, g) ∷ groups) (p, ps) = elim (Bool-cases (is_over float config g)) [
    | inl e ↦ rw e (p e _, asn_blocks-All P now groups ps)
    | inr e ↦ rw e (asn_blocks-All P now groups ps)
  ]

  network_blocks-All :
      (P : NetworkBlockMessage A F C N → Type 0) (now : Time) (groups : List (String × Group A F))
      → All
          (λ e.
            is_over float config e.1 ≡ true
            → (reason : String)
            → P (record {
              block = group_message float systems config now reason e.1;
              network = network_of systems e.1.stats.asn;
            }))
          groups
      → All P (network_blocks float systems config now groups)
  unfolding network_blocks
  network_blocks-All P now [] ps = ps
  network_blocks-All P now ((key, g) ∷ groups) (p, ps) =
      elim (Bool-cases (is_over float config g)) [
        | inl e ↦ rw e (p e _, network_blocks-All P now groups ps)
        | inr e ↦ rw e (network_blocks-All P now groups ps)
      ]

module _ {M I A N F K : Type 0} (same : K → K → Bool) (key_of : A → K)
    (networks : List (String × NetworkData M I A N F)) where
  -- The sum of a number over the networks of a key.
  abbrev pub sum_at : (NetworkData M I A N F → ℕ) → K → ℕ
  sum_at f key = sum_of (number_for same key_of f key) networks

  -- The numbers are the sums over the networks whose systems have the key of the message's.
  abbrev pub IsSummed : {C : Type 0} → BlockMessage A F C → Type 0
  IsSummed m =
      (asn : A) × (m.asn ≡ some asn)
      × (m.total ≡ sum_at (λ nd. nd.total) (key_of asn))
      × (m.app ≡ sum_at (λ nd. nd.app) (key_of asn))
      × (m.other ≡ sum_at (λ nd. nd.other) (key_of asn))

  -- Such a message, above both limits.
  abbrev pub IsOver : {C : Type 0} → Float64 F → Config F → BlockMessage A F C → Type 0
  IsOver float config m =
      (ltb config.max_app_requests m.total ≡ true)
      × (float.lt config.max_ratio m.ratio ≡ true)
      × IsSummed m

  group_message-IsOver :
      (C : Type 0) {D : Type 0} (float : Float64 F) (systems : Systems A D F) (config : Config F)
      (now : Time) (reason : String) (groups : List (K × Group A F)) (key : K) (g : Group A F)
      → HasSums same key_of networks groups
      → IsHeld same key_of (key, g)
      → ((f : Group A F → ℕ) → number_at same f key groups ≡ f g)
      → is_over float config g ≡ true
      → IsOver {C = C} float config (group_message float systems config now reason g)
  unfolding is_over
  group_message-IsOver C float systems config now reason groups key g sums (asn, held, k) found
        over =
      let (total, ratio) = and-both _ _ over in
      let (t, a, o, _) = sums key in
      (
        total,
        ratio,
        (
          asn,
          held,
          sym (found _) ∙ t ∙ ap (sum_at _) (sym k),
          sym (found _) ∙ a ∙ ap (sum_at _) (sym k),
          sym (found _) ∙ o ∙ ap (sum_at _) (sym k),
        ),
      )

  -- Every group that is over the limits makes such a message.
  groups-IsOver :
      (C : Type 0) {D : Type 0} (float : Float64 F) (systems : Systems A D F) (config : Config F)
      (now : Time) (law : (a b : K) → (same a b ≡ true) ↔ (a ≡ b)) (groups : List (K × Group A F))
      → collect float same key_of networks [] ≡ some groups
      → All
          (λ e.
            is_over float config e.1 ≡ true
            → (reason : String)
            → IsOver {C = C} float config (group_message float systems config now reason e.1))
          groups
  groups-IsOver C float systems config now law groups h =
      All-map
        (λ (key, g) (held, found) over reason.
          group_message-IsOver C float systems config now reason groups key g
            (collect-HasSums same key_of float law networks groups h) held found over)
        groups
        (IsKeyed-All same key_of law groups
          (collect-IsKeyed float same key_of networks [] groups tt h))

module _ {M I A N F C : Type 0} ⦃tm : Treemap M ℕ⦄ ⦃bidi : BidiMap I⦄ ⦃float : Float64 F⦄
    (systems : Systems A N F) (config : Config F) where
  -- updateAndBlock: every message for BlockASN, and for BlockNetwork, is above both limits, and its
  -- numbers are the sums over the networks of the plugin, as they are after they have expired,
  -- whose systems have the number, or the network of the database, of the message's system; a
  -- message for BlockNetwork names the network of that system.
  pub update_and_block-IsOver :
      (now : Time) (clocks : String → Clock) (n next : Networks M I A N F) (blocks : Blocks A F C N)
      → update_and_block systems config now clocks n ≡ some (next, blocks)
      → (next.networks ≡ expire_all clocks n.networks)
        × All (IsOver ◌==◌ systems.number next.networks float config) blocks.asns
        × All
            (λ m.
              IsOver str_eq systems.cidr next.networks float config m.block
              × (m.network ≡ network_of systems m.asn))
            blocks.networks
  unfolding update_and_block
  update_and_block-IsOver now clocks n next blocks h =
      let networks = expire_all clocks n.networks in
      elim (Option-cases (collect float ◌==◌ systems.number networks [])) [
        | inl e ↦ absurd (none-ne-some _ (rw (e, update_and_block) at h))
        | inr (asns, e) ↦ elim (Option-cases (collect float str_eq systems.cidr networks [])) [
          | inl f ↦ absurd (none-ne-some _ (rw f at (rw (e, update_and_block) at h)))
          | inr (nets, f) ↦
              let same = some-injective _ _ (rw f at (rw (e, update_and_block) at h)) in
              subst
                (λ (r : Networks M I A N F × Blocks A F C N).
                  (r.0.networks ≡ networks)
                  × All (IsOver ◌==◌ systems.number r.0.networks float config) r.1.asns
                  × All
                      (λ m.
                        IsOver str_eq systems.cidr r.0.networks float config m.block
                        × (m.network ≡ network_of systems m.asn))
                      r.1.networks)
                same
                (
                  refl,
                  asn_blocks-All float systems config _ now asns (
                      groups-IsOver ◌==◌ systems.number networks C float systems config now ==_iff
                        asns e),
                  network_blocks-All float systems config _ now nets (
                      All-map (λ e over k reason. (over k reason, refl)) nets
                        (groups-IsOver str_eq systems.cidr networks C float systems config now
                          eq_iff nets f)),
                )
        ]
      ]
