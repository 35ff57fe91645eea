-- ===== src/Whitelist/Verdicts.antt =====
-- Which clients are whitelisted.
use botex.Prelude.{
  ℕ, ◌≡◌, ◌↔◌, refl, String, Option, none, some, Bool, false, List, [], ◌∷◌, ◌==◌, arith, All,
}
use botex.Whitelist.{
  IpDetails, Patterns, Whitelist, Verdict, not_whitelisted, find_number, first_match, or_next,
  is_whitelisted,
}

-- No entry passes the test.
abbrev pub NoMatch : {X : Type 0} → (X → Bool) → List (X × String) → Type 0
NoMatch test = All (λ e. test e.0 ≡ false)

first_match-none_iff :
    {X : Type 0} (test : X → Bool) (es : List (X × String))
    → (first_match test es ≡ none) ↔ NoMatch test es
unfolding first_match
first_match-none_iff test [] = (λ _. tt, λ _. refl)
first_match-none_iff test ((x, d) ∷ es) = (
  λ h. ground (arith, first_match-none_iff test es),
  λ h. ground (arith, first_match-none_iff test es),
)

find_number-none_iff :
    (n : ℕ) (es : List (ℕ × String)) → (find_number n es ≡ none) ↔ NoMatch (λ m. m == n) es
unfolding find_number
find_number-none_iff n [] = (λ _. tt, λ _. refl)
find_number-none_iff n ((m, d) ∷ es) =
    (λ h. ground (arith, find_number-none_iff n es), λ h. ground (arith, find_number-none_iff n es))

-- Neither this test nor the next ones find a rule.
or_next-not_iff :
    {P Q : Type 0} (o : Option String) (v : Verdict)
    → (o ≡ none) ↔ P
    → (v ≡ not_whitelisted) ↔ Q
    → (or_next o v ≡ not_whitelisted) ↔ (P × Q)
unfolding or_next
or_next-not_iff none v p q = (λ h. (p.0 refl, q.0 h), λ h. q.1 h.1)
or_next-not_iff (some d) v p q = (λ h. absurd (cc), λ h. absurd (let bad = p.1 h.0 in cc))

last-not_iff :
    {P : Type 0} (o : Option String)
    → (o ≡ none) ↔ P
    → (or_next o not_whitelisted ≡ not_whitelisted) ↔ P
unfolding or_next
last-not_iff none p = (λ h. p.0 refl, λ h. refl)
last-not_iff (some d) p = (λ h. absurd (cc), λ h. absurd (let bad = p.1 h in cc))

module _ {R N A G F : Type 0} (lib : Patterns R N A) where
  -- A client with an autonomous system is not whitelisted exactly when no rule applies to it: none
  -- for the number of the system, its host, its network, its address or its organization.
  pub not_whitelisted_iff :
      (w : Whitelist R N) (ipd : IpDetails A G F) (asn : A)
      → ipd.asn ≡ some asn
      → (is_whitelisted lib w ipd ≡ not_whitelisted) ↔ (
          NoMatch (λ n. n == lib.asn_number asn) w.asns
          × (NoMatch (λ r. lib.matches r ipd.hostname) w.client_hosts
              × (NoMatch (λ n. lib.contains n ipd.ip) w.cidrs
                  × (NoMatch (λ r. lib.matches r (lib.ip_text ipd.ip)) w.ips
                      × NoMatch (λ r. lib.matches r (lib.organization asn)) w.orgs))))
  unfolding is_whitelisted
  not_whitelisted_iff w ipd asn e =
      rw (e, is_whitelisted)
        (or_next-not_iff _ _ (find_number-none_iff (lib.asn_number asn) w.asns) (
          or_next-not_iff _ _
            (first_match-none_iff (λ r. lib.matches r ipd.hostname) w.client_hosts)
            (or_next-not_iff _ _ (first_match-none_iff (λ n. lib.contains n ipd.ip) w.cidrs) (
              or_next-not_iff _ _
                (first_match-none_iff (λ r. lib.matches r (lib.ip_text ipd.ip)) w.ips)
                (last-not_iff _
                  (first_match-none_iff (λ r. lib.matches r (lib.organization asn)) w.orgs))))))
