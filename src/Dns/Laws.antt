-- ===== src/Dns/Laws.antt =====
-- An address that was resolved is found again: in memory until it expires, and in the file after a
-- restart.
use ecommerce_sales_agent.Prelude.{
  ℕ, ◌+◌, ◌-◌, ◌≤◌, ◌≡◌, refl, inl, inr, true, false, Option, none, some, List, [], ◌∷◌, Bool-cases,
  ltb, arith, All, ◌++◌, ap,
}
use ecommerce_sales_agent.Json.{Json}
use ecommerce_sales_agent.Text.{Text, text_eq, text_eq_refl, text_eq→eq}
use ecommerce_sales_agent.Exec.{ok}
use ecommerce_sales_agent.Dns.{
  CacheEntry, Entries, entry_of, set_entry, unreadable, saved, DnsResolver, Network, cache_ttl,
  latest, snapshot, load_entries, persist, remember, load_cache, cached_ip, doh_resolve, resolve,
  dns_resolver, record_of,
}

entry_of-set_entry :
    (host : Text) (e : CacheEntry) (es : Entries) → entry_of host (set_entry host e es) ≡ some e
entry_of-set_entry host e [] = rw (text_eq_refl host) refl
entry_of-set_entry host e ((h, d) ∷ es) = elim (Bool-cases (text_eq h host)) [
  | inl same ↦ rw (same, same) refl
  | inr other ↦ rw (other, other) (entry_of-set_entry host e es)
]

entry_of-set_other :
    (host h : Text) (e : CacheEntry) (es : Entries)
    → text_eq h host ≡ false
    → entry_of host (set_entry h e es) ≡ entry_of host es
entry_of-set_other host h e [] differs = rw differs refl
entry_of-set_other host h e ((k, d) ∷ es) differs = elim (Bool-cases (text_eq k h)) [
  | inl same ↦
      let also : text_eq k host ≡ false = rw (text_eq→eq k h same) differs in rw (same, also) refl
  | inr other ↦ elim (Bool-cases (text_eq k host)) [
    | inl found ↦ rw (other, found) refl
    | inr missed ↦ rw (other, missed) (entry_of-set_other host h e es differs)
  ]
]

-- Loading what was saved gives every host its address, all with the one expiry.
entry_of-load :
    (host : Text) (e : CacheEntry) (x : ℕ) (es : Entries)
    → entry_of host es ≡ some e
    → entry_of host (load_entries x (snapshot es) []) ≡ some (record { ip = e.ip; expires_at = x })
entry_of-load host e x [] h = absurd (cc h)
entry_of-load host e x ((k, d) ∷ es) h = elim (Bool-cases (text_eq k host)) [
  | inl same ↦
      let found : some d ≡ some e = rw same at h in
      rw (text_eq→eq k host same) (
        cc (
          entry_of-set_entry host (record { ip = d.ip; expires_at = x })
              (load_entries x (snapshot es) []),
          found,
        ))
  | inr other ↦
      rw
        (entry_of-set_other host k (record { ip = d.ip; expires_at = x })
          (load_entries x (snapshot es) []) other)
        (entry_of-load host e x es (rw other at h))
]

persist-entries : (net : Network) (r : DnsResolver) → (persist net r).entries ≡ r.entries
unfolding persist
persist-entries net r = elim (Bool-cases net.writable) [
  | inl writes ↦ rw writes refl
  | inr fails ↦ rw fails refl
]

not_expired : (a b : ℕ) → b ≤ a → ltb a b ≡ false
not_expired a b h = ground (arith, h)

-- An entry that has not expired answers where the system does not.
cached_hit :
    (net : Network) (host : Text) (r : DnsResolver) (e : CacheEntry)
    → net.system_resolve host ≡ none
    → entry_of host r.entries ≡ some e
    → net.monotonic ≤ e.expires_at
    → (resolve net host r).0 ≡ ok e.ip
unfolding resolve cached_ip
cached_hit net host r e silent found early =
    rw (silent, found, not_expired e.expires_at net.monotonic early) refl

-- An address that the system resolved is the answer as long as its entry has not expired, when the
-- system no longer answers.
pub resolve-resolve :
    (net net' : Network) (host ip : Text) (r : DnsResolver)
    → net.system_resolve host ≡ some ip
    → net'.system_resolve host ≡ none
    → net'.monotonic ≤ net.monotonic + cache_ttl
    → (resolve net' host (resolve net host r).1).0 ≡ ok ip
unfolding resolve remember
resolve-resolve net net' host ip r answered silent early =
    cached_hit net' host (resolve net host r).1
      (record { ip = ip; expires_at = net.monotonic + cache_ttl }) silent remembered early
  where
    remembered :
        entry_of host (resolve net host r).1.entries
        ≡ some (record { ip = ip; expires_at = net.monotonic + cache_ttl })
    remembered =
        rw (answered, persist-entries net _)
          (entry_of-set_entry host (record { ip = ip; expires_at = net.monotonic + cache_ttl })
            r.entries)

restarted_hit :
    (net : Network) (host : Text) (x : ℕ) (hosts : List (Text × Text)) (e : CacheEntry)
    → net.system_resolve host ≡ none
    → entry_of host (load_entries (net.monotonic + (x - net.time)) hosts []) ≡ some e
    → net.monotonic ≤ e.expires_at
    → (resolve net host (dns_resolver (saved x hosts))).0 ≡ ok e.ip
unfolding resolve cached_ip load_cache
restarted_hit net host x hosts e silent found early =
    rw (silent, found, not_expired e.expires_at net.monotonic early) refl

-- What is persisted answers after a restart where the system does not: every host in memory has its
-- address again, however long ago it was saved.
pub resolve-persist :
    (net net' : Network) (host : Text) (r : DnsResolver) (e : CacheEntry)
    → net.writable ≡ true
    → entry_of host r.entries ≡ some e
    → net'.system_resolve host ≡ none
    → (resolve net' host (dns_resolver (persist net r).file)).0 ≡ ok e.ip
unfolding persist
resolve-persist net net' host r e writes found silent =
    let x = net.time + (latest r.entries - net.monotonic) in
    rw writes (
      restarted_hit net' host x (snapshot r.entries)
        (record { ip = e.ip; expires_at = net'.monotonic + (x - net'.time) }) silent
        (entry_of-load host e (net'.monotonic + (x - net'.time)) r.entries found) (omega arith))

-- The replies before the first one with an A record are passed over.
doh_resolve-append :
    (net : Network) (before after : List (Option Json)) (reply : Option Json) (ip : Text)
    → All (λ other. record_of net other ≡ none) before
    → record_of net reply ≡ some ip
    → doh_resolve net (before ++ (reply ∷ after)) ≡ some ip
unfolding doh_resolve
doh_resolve-append net [] after reply ip h found = rw (doh_resolve, found) refl
doh_resolve-append net (other ∷ before) after reply ip (h, hs) found =
    rw (doh_resolve, h) (doh_resolve-append net before after reply ip hs found)

-- Where the system does not answer and nothing is remembered, the answer is the A record of the
-- first DoH endpoint that has one, whatever the endpoints before it reply; and the next call that
-- finds the system silent has it from memory while its entry has not expired.
pub resolve-doh :
    (net net' : Network) (host ip : Text) (before after : List (Option Json)) (reply : Option Json)
    → net.system_resolve host ≡ none
    → net.doh_replies host ≡ before ++ (reply ∷ after)
    → All (λ other. record_of net other ≡ none) before
    → record_of net reply ≡ some ip
    → net'.system_resolve host ≡ none
    → net'.monotonic ≤ net.monotonic + cache_ttl
    → ((resolve net host (dns_resolver unreadable)).0 ≡ ok ip)
      × ((resolve net' host (resolve net host (dns_resolver unreadable)).1).0 ≡ ok ip)
unfolding resolve cached_ip load_cache remember
resolve-doh net net' host ip before after reply silent replies h found silent' early =
    (ap (λ o. o.0) first, cached_hit net' host _ entry silent' remembered early)
  where
    entry : CacheEntry
    entry = record { ip = ip; expires_at = net.monotonic + cache_ttl }

    first :
        resolve net host (dns_resolver unreadable)
        ≡ (ok ip, remember net host ip (record { entries = []; loaded = true; file = unreadable }))
    first = rw (silent, replies, doh_resolve-append net before after reply ip h found) refl

    remembered : entry_of host (resolve net host (dns_resolver unreadable)).1.entries ≡ some entry
    remembered = rw (first, persist-entries net _) (entry_of-set_entry host entry [])
