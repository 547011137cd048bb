-- ===== src/Dns.antt =====
-- backend/app/db/dns_fallback.py: the resolver of the database's host, and what session.py connects
-- with.
pub mod Laws
mod Tests
use ecommerce_sales_agent.Prelude.{
  ℕ, ◌+◌, ◌-◌, Bool, true, false, Option, none, some, List, [], ◌∷◌, ◌==◌, ltb, leb, ◌&&◌,
  if◌then◌else◌, is_nil,
}
use ecommerce_sales_agent.Prelude.Int.{ℤ, pos}
use ecommerce_sales_agent.Text.{Text, codes, text_eq}
use ecommerce_sales_agent.Json.{Json, null, flag, num, arr, obj, Items, nil, cons, get, truthy}
use ecommerce_sales_agent.Exec.{Result, ok, err}

-- Times are whole seconds; those of the source are floats.
pub record CacheEntry : Type 0 where
  pub ip : Text
  pub expires_at : ℕ

-- A dict; its keys are distinct.
abbrev pub Entries : Type 0
Entries = List (Text × CacheEntry)

abbrev pub entry_of : Text → Entries → Option CacheEntry
entry_of host [] = none
entry_of host ((h, e) ∷ es) = if text_eq h host then some e else entry_of host es

abbrev pub set_entry : Text → CacheEntry → Entries → Entries
set_entry host entry [] = (host, entry) ∷ []
set_entry host entry ((h, e) ∷ es) =
    if text_eq h host then (h, entry) ∷ es else (h, e) ∷ set_entry host entry es

abbrev pub del_entry : Text → Entries → Entries
del_entry host [] = []
del_entry host ((h, e) ∷ es) = if text_eq h host then es else (h, e) ∷ del_entry host es

-- The cache file: missing or not to be parsed, a JSON value that is no object, or an object with
-- the expiry and those entries whose value is a string.
pub data CacheFile : Type 0 where
  unreadable no_object : CacheFile
  saved : ℕ → List (Text × Text) → CacheFile

-- The resolver, and the file beside it.
pub record DnsResolver : Type 0 where
  pub entries : Entries
  pub loaded : Bool
  pub file : CacheFile

-- What a call meets: the system's answer (`none` is its OSError), the reply of each DoH endpoint
-- (`none` where the request, its status or its JSON fails), the two clocks, whether the file can be
-- written, and `str`.
pub record Network : Type 0 where
  pub system_resolve : Text → Option Text
  pub doh_replies : Text → List (Option Json)
  pub monotonic : ℕ
  pub time : ℕ
  pub writable : Bool
  pub show : Json → Text

pub data DnsError : Type 0 where
  os_error attribute_error : DnsError

abbrev pub cache_ttl : ℕ
cache_ttl = 600

abbrev pub max : ℕ → ℕ → ℕ
max a b = if ltb a b then b else a

-- `max(…, default=0.0)`
abbrev pub latest : Entries → ℕ
latest [] = 0
latest ((h, e) ∷ es) = max e.expires_at (latest es)

abbrev pub snapshot : Entries → List (Text × Text)
snapshot [] = []
snapshot ((h, e) ∷ es) = (h, e.ip) ∷ snapshot es

-- The keys are distinct, so the order in which they are set does not matter.
abbrev pub load_entries : ℕ → List (Text × Text) → Entries → Entries
load_entries expires_at [] es = es
load_entries expires_at ((h, ip) ∷ hs) es =
    set_entry h (record { ip = ip; expires_at = expires_at }) (load_entries expires_at hs es)

-- `== 1`, for an integer or a boolean; a float is taken for another type of record.
abbrev pub is_one : Json → Bool
is_one (num (pos n)) = n == 1
is_one (flag b) = b
is_one j = false

module _ (net : Network) where
  -- One clock reading serves the whole call. The write replaces the file or fails.
  unfoldable pub persist : DnsResolver → DnsResolver
  persist r =
      if net.writable
      then record r {
        file = saved (net.time + (latest r.entries - net.monotonic)) (snapshot r.entries);
      }
      else r

  unfoldable pub remember : Text → Text → DnsResolver → DnsResolver
  remember host ip r = persist (record r {
    entries = set_entry host (record { ip = ip; expires_at = net.monotonic + cache_ttl }) r.entries;
  })

  abbrev pub load_file : CacheFile → DnsResolver → Result DnsError DnsResolver
  load_file unreadable r = ok r
  load_file no_object r = err attribute_error
  load_file (saved expires_at hosts) r = ok (record r {
    entries = load_entries (net.monotonic + (expires_at - net.time)) hosts r.entries;
  })

  unfoldable pub load_cache : DnsResolver → Result DnsError DnsResolver
  load_cache r = load_file r.file (record r { loaded = true })

  -- The entry that was found, dropped where it has expired.
  abbrev pub fresh : Text → Option CacheEntry → DnsResolver → Option Text × DnsResolver
  fresh host none r = (none, r)
  fresh host (some entry) r =
      if ltb entry.expires_at net.monotonic
      then (none, record r { entries = del_entry host r.entries })
      else (some entry.ip, r)

  abbrev pub cached_after_load :
      Text → DnsResolver → Result DnsError DnsResolver → Result DnsError (Option Text) × DnsResolver
  cached_after_load host r (err e) = (err e, record r { loaded = true })
  cached_after_load host r (ok r') =
      let (ip, r'') = fresh host (entry_of host r'.entries) r' in (ok ip, r'')

  abbrev pub cached_from :
      Text → Option CacheEntry → DnsResolver → Result DnsError (Option Text) × DnsResolver
  cached_from host (some entry) r = let (ip, r') = fresh host (some entry) r in (ok ip, r')
  cached_from host none r =
      if r.loaded then (ok none, r) else cached_after_load host r (load_cache r)

  unfoldable pub cached_ip : Text → DnsResolver → Result DnsError (Option Text) × DnsResolver
  cached_ip host r = cached_from host (entry_of host r.entries) r

  -- `none` where an item is no object, `some none` where no answer is an A record.
  abbrev pub first_record : Items → Option (Option Text)
  first_record nil = some none
  first_record (cons (obj answer) items') =
      if is_one (get (codes "type") answer) && truthy (get (codes "data") answer)
      then some (some (net.show (get (codes "data") answer)))
      else first_record items'
  first_record (cons j items') = none

  -- `response.json().get("Answer") or []`
  abbrev pub answers : Json → Option (Option Text)
  answers (arr items') = first_record items'
  answers j = if truthy j then none else some none

  abbrev pub record_of : Option Json → Option Text
  record_of (some (obj body)) = elim (answers (get (codes "Answer") body)) [
    | none ↦ none
    | some ip ↦ ip
  ]
  record_of reply = none

  unfoldable pub doh_resolve : List (Option Json) → Option Text
  doh_resolve [] = none
  doh_resolve (reply ∷ replies) =
      let later = doh_resolve replies in elim (record_of reply) [ none ↦ later | some ip ↦ some ip ]

  abbrev pub from_doh : Text → Option Text → DnsResolver → Result DnsError Text × DnsResolver
  from_doh host none r = (err os_error, r)
  from_doh host (some ip) r = (ok ip, remember host ip r)

  abbrev pub from_cache :
      Text → Result DnsError (Option Text) × DnsResolver → Result DnsError Text × DnsResolver
  from_cache host (err e, r) = (err e, r)
  from_cache host (ok (some ip), r) = (ok ip, r)
  from_cache host (ok none, r) = from_doh host (doh_resolve (net.doh_replies host)) r

  abbrev pub from_system : Text → Option Text → DnsResolver → Result DnsError Text × DnsResolver
  from_system host (some ip) r = (ok ip, remember host ip r)
  from_system host none r = from_cache host (cached_ip host r)

  unfoldable pub resolve : Text → DnsResolver → Result DnsError Text × DnsResolver
  resolve host r = from_system host (net.system_resolve host) r

  -- The address to inject for a URL with this host; the host of a URL is read by `urlsplit`.
  abbrev pub injected :
      Text → Result DnsError Text × DnsResolver → Result DnsError (Option Text) × DnsResolver
  injected host (err e, r) = (err e, r)
  injected host (ok ip, r) = (ok (if text_eq ip host then none else some ip), r)

  unfoldable pub build_conninfo_kwargs :
      Option Text → DnsResolver → Result DnsError (Option Text) × DnsResolver
  build_conninfo_kwargs none r = (ok none, r)
  build_conninfo_kwargs (some []) r = (ok none, r)
  build_conninfo_kwargs (some (c ∷ host)) r = injected (c ∷ host) (resolve (c ∷ host) r)

abbrev pub dns_resolver : CacheFile → DnsResolver
dns_resolver file = record { entries = []; loaded = false; file = file }
