-- ===== src/Whitelist/Loading.antt =====
-- whitelist.go: what `Load` does to the rules.
use botex.Prelude.{◌≡◌, ◌⊎◌, String, Option, none, some, List, [], ◌∷◌, ◌++◌}
use botex.Data.{Bytes}
use botex.Matchers.{codes}
use botex.Window.{Time}
use botex.Whitelist.{
  Patterns, WhitelistRule, WhitelistRules, Whitelist, LoadError, bad_rule, panicked, Loaded, loaded,
  load_error, compile_anchored, compile_number, join_patterns,
}

-- The rule is one of the list, with what the pattern is made into.
abbrev pub IsCompiled :
    {X : Type 0} → (Bytes → Option X) → List WhitelistRule → List (X × String) → Type 0
IsCompiled make [] [] = Unit {0}
IsCompiled make [] (x ∷ xs) = ⊥
IsCompiled make (r ∷ rs) [] = ⊥
IsCompiled make (r ∷ rs) ((x, d) ∷ xs) =
    (make r.pattern ≡ some x) × (d ≡ r.description) × IsCompiled make rs xs

abbrev items_of : {X : Type 0} → Loaded (List X) → List X
items_of (loaded xs) = xs
items_of (load_error e) = []

-- A rule of the file could not be compiled.
abbrev pub IsBad : LoadError → Type 0
IsBad e = (r : WhitelistRule) × (e ≡ bad_rule r)

abbrev OnlyBad : {X : Type 0} → Loaded X → Type 0
OnlyBad (loaded x) = Unit {0}
OnlyBad (load_error e) = IsBad e

module _ {R N A : Type 0} (lib : Patterns R N A) where
  -- The rules of one kind can all be compiled.
  abbrev pub Compiles : {X : Type 0} → (Bytes → Option X) → List WhitelistRule → Type 0
  Compiles {X} make rs = (xs : List (X × String)) × IsCompiled make rs xs

  -- The rules of all kinds can be compiled, and those of five kinds are what that gives.
  abbrev pub HasRules : WhitelistRules → Whitelist R N → Type 0
  HasRules rules w =
      IsCompiled (compile_number lib) rules.asn w.asns
      × IsCompiled (compile_anchored lib) rules.client_host w.client_hosts
      × IsCompiled (compile_anchored lib) rules.ip w.ips
      × IsCompiled (compile_anchored lib) rules.org w.orgs
      × IsCompiled lib.parse_cidr rules.cidr w.cidrs
      × Compiles (compile_anchored lib) rules.server_host
      × Compiles (compile_anchored lib) rules.server_path
      × Compiles (compile_anchored lib) rules.useragent

  -- The pattern is compiled from all those of the rules, which are alternatives.
  abbrev pub IsPattern : List WhitelistRule → Option R → Type 0
  IsPattern rs pattern =
      (p : R) × (lib.compile (codes "^(" ++ join_patterns rs ++ codes ")$") ≡ some p)
      × (pattern ≡ some p)

  -- The patterns of the other three kinds.
  abbrev pub HasPatterns : WhitelistRules → Whitelist R N → Type 0
  HasPatterns rules w =
      IsPattern rules.server_host w.server_host_pattern
      × IsPattern rules.server_path w.server_path_pattern
      × IsPattern rules.useragent w.useragent_pattern

  -- What `Load` can come to.
  abbrev pub IsLoaded :
      WhitelistRules → Time → Whitelist R N → Whitelist R N × Option LoadError → Type 0
  IsLoaded rules now w (w', e) =
      ((e ≡ none) × HasRules rules w' × HasPatterns rules w' × (w'.updated_at ≡ now))
      ⊎ (((e ≡ some panicked)
            × HasRules rules w'
            × (w'.useragent_pattern ≡ w.useragent_pattern)
            × (w'.updated_at ≡ w.updated_at))
          ⊎ ((x : LoadError) × (e ≡ some x) × IsBad x × (w' ≡ w)))
