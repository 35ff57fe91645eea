-- ===== src/Networks/Groups.antt =====
-- The sums per autonomous system and per network.
use mathlib.Core.Option.{some-injective, none-ne-some}
use botex.Prelude.{
  ℕ, ◌+◌, ◌≡◌, ◌↔◌, inl, inr, refl, ap, sym, ◌∙◌, String, none, some, Option-cases, Bool, true,
  List, [], ◌∷◌, arith, if◌then◌else◌, sum_of, subst, ◌==◌, ==_iff, str_eq, eq_iff,
}
use botex.Float64.{Float64}
use botex.Treemap.{Treemap}
use botex.Window.{Time}
use botex.MapWindow.{Clock}
use botex.NetworkData.{BidiMap, NetworkData}
use botex.Networks.{
  Systems, Config, Networks, Blocks, expire_all, update_and_block, Group, grow, empty_group,
  add_network, collect,
}

module _ {A F K : Type 0} (same : K → K → Bool) where
  -- A number of the first entry under a key; 0 if there is none.
  abbrev pub number_at : (Group A F → ℕ) → K → List (K × Group A F) → ℕ
  number_at f key [] = 0
  number_at f key ((held, g) ∷ groups) =
      let rest = number_at f key groups in if same held key then f g else rest

module _ {M I A N F K : Type 0} (same : K → K → Bool) (key_of : A → K) where
  -- A number of a network, where its autonomous system has the key.
  abbrev pub number_for : (NetworkData M I A N F → ℕ) → K → String × NetworkData M I A N F → ℕ
  number_for f key e = elim e.1.asn [
    | none ↦ 0
    | some asn ↦ if same (key_of asn) key then f e.1 else 0
  ]

module _ {M I A N F K : Type 0} (float : Float64 F) (same : K → K → Bool) (key_of : A → K) where
  -- `f` of an entry adds up `g` of its networks.
  abbrev pub AddsUp : (Group A F → ℕ) → (NetworkData M I A N F → ℕ) → Type 0
  AddsUp f g =
      ((asn : A) → f (empty_group float asn) ≡ 0)
      × ((nd : NetworkData M I A N F) (group : Group A F)
          → f (grow float nd group) ≡ f group + g nd)

  module _ (law : (a b : K) → (same a b ≡ true) ↔ (a ≡ b)) (f : Group A F → ℕ)
      (g : NetworkData M I A N F → ℕ) (sums : AddsUp f g) where
    add_network_lem :
        (key asked : K) (asn : A) (nd : NetworkData M I A N F) (groups : List (K × Group A F))
        → number_at same f asked (add_network float same key asn nd groups)
          ≡ number_at same f asked groups + (if same key asked then g nd else 0)
    unfolding add_network
    add_network_lem key asked asn nd [] =
        ground (arith, sums.0 asn, sums.1 nd (empty_group float asn))
    add_network_lem key asked asn nd ((held, group) ∷ groups) = ground (
      arith,
      add_network_lem key asked asn nd groups,
      sums.1 nd group,
      law held key,
      law held asked,
      law key asked,
    )

    collect_adds :
        (es : List (String × NetworkData M I A N F)) (groups out : List (K × Group A F)) (key : K)
        → collect float same key_of es groups ≡ some out
        → number_at same f key out
          ≡ number_at same f key groups + sum_of (number_for same key_of g key) es
    unfolding collect
    collect_adds [] groups out key h =
        ap (number_at same f key) (sym (some-injective _ _ h)) ∙ omega arith
    collect_adds ((cidr, nd) ∷ es) groups out key h = elim (Option-cases nd.asn) [
      | inl e ↦ absurd (none-ne-some out (rw (e, collect) at h))
      | inr (asn, e) ↦
          let more = add_network float same (key_of asn) asn nd groups in
          let rest = collect_adds es more out key (rw (e, collect) at h) in
          let here = add_network_lem (key_of asn) key asn nd groups in
          rw e (omega (arith, rest, here))
    ]

    collect_sums :
        (es : List (String × NetworkData M I A N F)) (out : List (K × Group A F)) (key : K)
        → collect float same key_of es [] ≡ some out
        → number_at same f key out ≡ sum_of (number_for same key_of g key) es
    collect_sums es out key h = omega (arith, collect_adds es [] out key h)

module _ {M I A N F K : Type 0} (same : K → K → Bool) (key_of : A → K) where
  -- The total, app and other requests of every key, and how many networks it has.
  abbrev pub HasSums : List (String × NetworkData M I A N F) → List (K × Group A F) → Type 0
  HasSums networks groups =
      (key : K)
      → (number_at same (λ g. g.stats.total) key groups
          ≡ sum_of (number_for same key_of (λ nd. nd.total) key) networks)
        × (number_at same (λ g. g.stats.app) key groups
            ≡ sum_of (number_for same key_of (λ nd. nd.app) key) networks)
        × (number_at same (λ g. g.stats.other) key groups
            ≡ sum_of (number_for same key_of (λ nd. nd.other) key) networks)
        × (number_at same (λ g. g.count) key groups
            ≡ sum_of (number_for same key_of (λ nd. 1) key) networks)

  pub collect-HasSums :
      (float : Float64 F) (law : (a b : K) → (same a b ≡ true) ↔ (a ≡ b))
      (es : List (String × NetworkData M I A N F)) (out : List (K × Group A F))
      → collect float same key_of es [] ≡ some out
      → HasSums es out
  collect-HasSums float law es out h key = (
    collect_sums float same key_of law (λ g. g.stats.total) (λ nd. nd.total)
        (λ asn. refl, λ nd g. refl) es out key h,
    collect_sums float same key_of law (λ g. g.stats.app) (λ nd. nd.app) (λ asn. refl, λ nd g. refl)
        es out key h,
    collect_sums float same key_of law (λ g. g.stats.other) (λ nd. nd.other)
        (λ asn. refl, λ nd g. refl) es out key h,
    collect_sums float same key_of law (λ g. g.count) (λ nd. 1) (λ asn. refl, λ nd g. refl) es out
        key h,
  )

module _ {M I A N F C : Type 0} ⦃tm : Treemap M ℕ⦄ ⦃bidi : BidiMap I⦄ ⦃float : Float64 F⦄
    (systems : Systems A N F) (config : Config F) where
  -- updateAndBlock: for every autonomous system, and for every network of the database, the
  -- statistics kept are the sums of total, app and other over the networks of the plugin, as they
  -- are after they have expired, that belong to it, with the number of these networks.
  pub update_and_block-HasSums :
      (now : Time) (clocks : String → Clock) (n next : Networks M I A N F) (blocks : Blocks A F C N)
      → update_and_block systems config now clocks n ≡ some (next, blocks)
      → (next.networks ≡ expire_all clocks n.networks)
        × HasSums ◌==◌ systems.number next.networks next.asn_data
        × HasSums str_eq systems.cidr next.networks next.net_data
  unfolding update_and_block
  update_and_block-HasSums now clocks n next blocks h =
      let networks = expire_all clocks n.networks in
      elim (Option-cases (collect float ◌==◌ systems.number networks [])) [
        | inl e ↦ absurd (none-ne-some _ (rw (e, update_and_block) at h))
        | inr (asns, e) ↦ elim (Option-cases (collect float str_eq systems.cidr networks [])) [
          | inl f ↦ absurd (none-ne-some _ (rw f at (rw (e, update_and_block) at h)))
          | inr (nets, f) ↦
              let same = some-injective _ _ (rw f at (rw (e, update_and_block) at h)) in
              subst
                (λ (r : Networks M I A N F × Blocks A F C N).
                  (r.0.networks ≡ networks)
                  × HasSums ◌==◌ systems.number r.0.networks r.0.asn_data
                  × HasSums str_eq systems.cidr r.0.networks r.0.net_data)
                same
                (
                  refl,
                  collect-HasSums ◌==◌ systems.number float ==_iff networks asns e,
                  collect-HasSums str_eq systems.cidr float eq_iff networks nets f,
                )
        ]
      ]
