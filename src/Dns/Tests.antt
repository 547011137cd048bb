-- ===== src/Dns/Tests.antt =====
-- A host that the system resolves first and later does not; the theorems are applied to it.
use ecommerce_sales_agent.Prelude.{◌≡◌, refl, true, none, some, [], ◌∷◌, arith}
use ecommerce_sales_agent.Text.{Text, codes}
use ecommerce_sales_agent.Prelude.Int.{pos}
use ecommerce_sales_agent.Json.{Json, obj, field, end, arr, cons, nil, num, str}
use ecommerce_sales_agent.Exec.{ok}
use ecommerce_sales_agent.Dns.{
  DnsResolver, Network, unreadable, dns_resolver, persist, resolve, record_of,
}
use ecommerce_sales_agent.Dns.Laws.{resolve-resolve, resolve-persist, resolve-doh}

abbrev host : Text
host = codes "db"

abbrev online : Network
online = record {
  system_resolve = λ h. some (codes "10.0.0.1");
  doh_replies = λ h. [];
  monotonic = 100;
  time = 5000;
  writable = true;
  show = λ j. [];
}

abbrev offline : Network
offline = record online { system_resolve = λ h. none; monotonic = 650; time = 90000 }

resolve-resolve_example :
    (resolve offline host (resolve online host (dns_resolver unreadable)).1).0
    ≡ ok (codes "10.0.0.1")
resolve-resolve_example =
    resolve-resolve online offline host (codes "10.0.0.1") (dns_resolver unreadable) refl refl
      (omega arith)

abbrev remembered : DnsResolver
remembered = record {
  entries = (host, record { ip = codes "10.0.0.1"; expires_at = 700 }) ∷ [];
  loaded = true;
  file = unreadable;
}

resolve-persist_example :
    (resolve offline host (dns_resolver (persist online remembered).file)).0 ≡ ok (codes "10.0.0.1")
resolve-persist_example =
    resolve-persist online offline host remembered
      (record { ip = codes "10.0.0.1"; expires_at = 700 }) refl refl refl

abbrev answer : Json
answer = obj (
    field (codes "Answer")
      (arr (
        cons
          (obj (
            field (codes "type") (num (pos 1)) (field (codes "data") (str (codes "10.0.0.2")) end)))
          nil))
      end)

-- The first endpoint fails, the second has the record.
abbrev over_https : Network
over_https = record offline {
  doh_replies = λ h. none ∷ some answer ∷ [];
  show = λ j. codes "10.0.0.2";
}

answer-record : record_of over_https (some answer) ≡ some (codes "10.0.0.2")
answer-record = refl

resolve-doh_example :
    ((resolve over_https host (dns_resolver unreadable)).0 ≡ ok (codes "10.0.0.2"))
    × ((resolve offline host (resolve over_https host (dns_resolver unreadable)).1).0
        ≡ ok (codes "10.0.0.2"))
resolve-doh_example =
    resolve-doh over_https offline host (codes "10.0.0.2") (none ∷ []) [] (some answer) refl refl
      (refl, tt) answer-record refl (omega arith)
