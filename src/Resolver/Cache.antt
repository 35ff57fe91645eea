-- ===== src/Resolver/Cache.antt =====
-- resolver.go: the cache of names.
use botex.Prelude.{ℕ, ◌≤◌, ◌≡◌, refl, ap, ◌∙◌, Option, none, some, Bool, true, ◌∷◌}
use botex.Data.{Bytes}
use botex.Store.{not_found, ok, err, KvStore}
use botex.Store.Laws.{StoreLaws}
use botex.Store.Prefix.{bytes_eq, bytes_eq_iff}
use botex.Resolver.{
  IpResolv, Config, Looked, resolve_namespace, after_lookup, with_cached, reverse_lookup,
}

module _ {S : Type 0} ⦃kv : KvStore S⦄ (config : Config) (publishes : IpResolv → Bool)
    (ip_text : Bytes → Bytes) where
  -- The result of a lookup that has found a name.
  abbrev pub named : S → IpResolv → Bytes → Looked S
  named store rip hostname = record {
    store = store;
    sent = some (record rip { host = hostname });
    published = none;
  }

  reverse_lookup-hit :
      (lookup_dns : Bytes → Option Bytes) (store : S) (rip : IpResolv) (c : ℕ) (cs : Bytes)
      → kv.get store (resolve_namespace (ip_text rip.ip)) ≡ ok (c ∷ cs)
      → reverse_lookup config publishes ip_text lookup_dns store rip ≡ named store rip (c ∷ cs)
  unfolding reverse_lookup with_cached
  reverse_lookup-hit lookup_dns store rip c cs e =
      ap (with_cached config publishes ip_text lookup_dns store rip (ip_text rip.ip)) e

  reverse_lookup-miss :
      (lookup_dns : Bytes → Option Bytes) (store : S) (rip : IpResolv) (hostname : Bytes)
      → kv.get store (resolve_namespace (ip_text rip.ip)) ≡ err not_found
      → lookup_dns rip.ip ≡ some hostname
      → reverse_lookup config publishes ip_text lookup_dns store rip
        ≡ named
            (kv.set_ex store (resolve_namespace (ip_text rip.ip)) hostname config.ttl).0
            rip
            hostname
  unfolding reverse_lookup with_cached after_lookup
  reverse_lookup-miss lookup_dns store rip hostname e f =
      ap (with_cached config publishes ip_text lookup_dns store rip (ip_text rip.ip)) e
      ∙ ap (after_lookup config publishes ip_text store rip (ip_text rip.ip)) f

  -- An address that is not cached gets the name that the name server gives; the name is then cached,
  -- so the same address gets it again, whatever the name server says by then. The name is not empty,
  -- the write succeeds, and the cache keeps names for a second at least.
  pub reverse_lookup-twice :
      (lookup_dns lookup_again : Bytes → Option Bytes) (s s' : S) (rip again : IpResolv) (c : ℕ)
      (cs : Bytes)
      → (laws : StoreLaws S kv) → laws.IsReadable s
      → laws.IsReadable s'
      → 1_000_000_000 ≤ config.ttl
      → kv.get s (resolve_namespace (ip_text rip.ip)) ≡ err not_found
      → lookup_dns rip.ip ≡ some (c ∷ cs)
      → kv.set_ex s (resolve_namespace (ip_text rip.ip)) (c ∷ cs) config.ttl ≡ (s', none)
      → again.ip ≡ rip.ip
      → (reverse_lookup config publishes ip_text lookup_dns s rip ≡ named s' rip (c ∷ cs))
        × (reverse_lookup config publishes ip_text lookup_again s' again ≡ named s' again (c ∷ cs))
  reverse_lookup-twice lookup_dns lookup_again s s' rip again c cs laws r r' ttl e f written same =
      let key = resolve_namespace (ip_text rip.ip) in
      let own : bytes_eq key key ≡ true = (bytes_eq_iff key key).1 refl in
      (
        reverse_lookup-miss lookup_dns s rip (c ∷ cs) e f
            ∙ ap (λ w. named w.0 rip (c ∷ cs)) written,
        reverse_lookup-hit lookup_again s' again c cs (
            ap (λ ip. kv.get s' (resolve_namespace (ip_text ip))) same
            ∙ laws.get-set_ex s s' key (c ∷ cs) config.ttl written ttl r r' key
            ∙ rw own refl),
      )
