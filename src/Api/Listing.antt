-- ===== src/Api/Listing.antt =====
-- What the lists of getIPs and getBlockedIPs hold.
use mathlib.Core.List.{Perm}
use mathlib.Core.Option.{some-injective, none-ne-some}
use botex.Prelude.{
  ℕ, ◌≡◌, ◌↔◌, ◌⊎◌, refl, sym, ap, subst, ◌∙◌, inl, inr, String, Option, none, some, Option-cases,
  Bool, Bool-cases, true, false, ◌&&◌, ◌||◌, List, [], ◌∷◌, map, select, ltb, ◌==◌, if◌then◌else◌,
}
use botex.Prelude.Sort.{sort_desc, IsDescending, sort_desc-perm, sort_desc-IsDescending}
use botex.Data.{Bytes}
use botex.Whitelist.{IpDetails}
use botex.IpData.{IpData}
use botex.History.{History}
use botex.Api.{ok}
use botex.Api.Pages.{
  Filters, asn_filter, network_filter, is_inside, has_asn, collect_ips, ip_key, sorted_ips, get_ips,
}

-- Whether the system has the number that is asked for.
abbrev pub has_number : {N A : Type 0} → Filters N A → ℕ → Option A → Bool
has_number filters asn none = false
has_number filters asn (some a) = filters.asn_number a == asn

abbrev pub is_nil : {A : Type 0} → Option A → Bool
is_nil none = true
is_nil (some a) = false

module _ {M A G F : Type 0} where
  abbrev pub details_of : List (String × IpData M A G F) → List (IpDetails A G F)
  details_of = map (λ e. e.1.details)

  -- Some client has no system although one is asked for.
  abbrev pub lacks_asn : ℕ → List (String × IpData M A G F) → Bool
  lacks_asn asn [] = false
  lacks_asn asn ((key, ipd) ∷ clients) =
      (ltb 0 asn && is_nil ipd.details.asn) || lacks_asn asn clients

module _ {N A : Type 0} (filters : Filters N A) (asn : ℕ) where
  has_asn_lem :
      (a : Option A) (same : Bool)
      → has_asn filters asn a ≡ some same
      → same ≡ (if ltb 0 asn then has_number filters asn a else true)
  unfolding has_asn
  has_asn_lem none same h = elim (Bool-cases (ltb 0 asn)) [
    | inl e ↦ absurd (none-ne-some same (rw (e, has_asn) at h))
    | inr e ↦ rw e (sym (some-injective _ _ (rw (e, has_asn) at h)))
  ]
  has_asn_lem (some a) same h = sym (some-injective _ _ h)

  has_asn-cases :
      (a : Option A)
      → ((ltb 0 asn && is_nil a) ≡ true × (has_asn filters asn a ≡ none))
        ⊎ ((same : Bool) × ((ltb 0 asn && is_nil a) ≡ false) × (has_asn filters asn a ≡ some same))
  unfolding has_asn
  has_asn-cases none = elim (Bool-cases (ltb 0 asn)) [
    | inl e ↦ rw e (inl (refl, refl))
    | inr e ↦ rw e (inr (true, refl, refl))
  ]
  has_asn-cases (some a) = elim (Bool-cases (ltb 0 asn)) [
    | inl e ↦ rw e (inr (_, refl, refl))
    | inr e ↦ rw e (inr (_, refl, refl))
  ]

module _ {M N A G F : Type 0} (filters : Filters N A) (asn : ℕ) (network : Option N) where
  -- The client passes both filters, where they are set.
  abbrev pub is_shown : String × IpData M A G F → Bool
  is_shown e =
      (if ltb 0 asn then has_number filters asn e.1.details.asn else true)
      && is_inside filters network e.1.details

  collect_ips_lem :
      (clients : List (String × IpData M A G F)) (ips : List (IpDetails A G F))
      → collect_ips filters asn network clients ≡ some ips
      → ips ≡ details_of (select is_shown clients)
  unfolding collect_ips
  collect_ips_lem [] ips h = sym (some-injective _ _ h)
  collect_ips_lem ((key, ipd) ∷ clients) ips h =
      elim (Option-cases (has_asn filters asn ipd.details.asn)) [
        | inl e ↦ absurd (none-ne-some ips (rw (e, collect_ips) at h))
        | inr (same, e) ↦ elim (Option-cases (collect_ips filters asn network clients)) [
          | inl f ↦ absurd (none-ne-some ips (rw f at (rw (e, collect_ips) at h)))
          | inr (rest, f) ↦
              let d = ipd.details in
              let taken : (if same && is_inside filters network d then d ∷ rest else rest) ≡ ips =
                some-injective _ _ (rw f at (rw (e, collect_ips) at h)) in
              sym taken
              ∙ ap (λ r. if same && is_inside filters network d then d ∷ r else r)
                  (collect_ips_lem clients rest f)
              ∙ rw (has_asn_lem filters asn d.asn same e) (elim (Bool-cases (is_shown (key, ipd))) [
                | inl g ↦ rw g refl
                | inr g ↦ rw g refl
              ])
        ]
      ]

  collect_ips-none_iff :
      (clients : List (String × IpData M A G F))
      → (collect_ips filters asn network clients ≡ none) ↔ (lacks_asn asn clients ≡ true)
  unfolding collect_ips
  collect_ips-none_iff [] = (λ h. absurd (none-ne-some _ (sym h)), λ h. absurd (cc))
  collect_ips-none_iff ((key, ipd) ∷ clients) =
      let (to, from) = collect_ips-none_iff clients in
      elim (has_asn-cases filters asn ipd.details.asn) [
        | inl (e, f) ↦ rw e (rw (f, collect_ips) (λ _. refl, λ _. refl))
        | inr (same, e, f) ↦ elim (Option-cases (collect_ips filters asn network clients)) [
          | inl g ↦ rw e (rw (f, collect_ips) (rw g (λ _. to g, λ _. refl)))
          | inr (ips, g) ↦ rw e (
              rw (f, collect_ips)
                (rw g (
                  λ h. absurd (none-ne-some _ (sym h)),
                  λ h. absurd (none-ne-some ips (sym (from h) ∙ g)),
                )))
        ]
      ]

module _ {M W N A G F : Type 0} (filters : Filters N A) where
  -- getIPs lists exactly the clients that pass the filters which the query sets, each with its
  -- details, from the greatest to the least number of requests or instant of creation. It panics
  -- exactly if the query asks for an autonomous system and some client has none.
  pub get_ips_lem :
      (sort : String) (asn network : Bytes) (h : History M W A G F)
      → let number = asn_filter asn in
        let net = network_filter filters network in
        ((ips : List (IpDetails A G F)) × (lacks_asn number h.clients ≡ false)
          × (get_ips filters sort asn network h ≡ some (ok ips))
          × Perm ips (details_of (select (is_shown filters number net) h.clients))
          × IsDescending (ip_key sort) ips)
        ⊎ ((lacks_asn number h.clients ≡ true) × (get_ips filters sort asn network h ≡ none))
  unfolding get_ips sorted_ips
  get_ips_lem sort asn network h =
      let number = asn_filter asn in
      let net = network_filter filters network in
      elim (Option-cases (collect_ips filters number net h.clients)) [
        | inl e ↦
            inr ((collect_ips-none_iff filters number net h.clients).0 e, rw (e, sorted_ips) refl)
        | inr (ips, e) ↦ inl (
          sort_desc (ip_key sort) ips,
          elim (Bool-cases (lacks_asn number h.clients)) [
            | inl f ↦ absurd (
                none-ne-some ips
                  (sym ((collect_ips-none_iff filters number net h.clients).1 f) ∙ e))
            | inr f ↦ f
          ],
          rw (e, sorted_ips) refl,
          subst (Perm (sort_desc (ip_key sort) ips))
              (collect_ips_lem filters number net h.clients ips e)
              (sort_desc-perm (ip_key sort) ips),
          sort_desc-IsDescending (ip_key sort) ips,
        )
      ]
