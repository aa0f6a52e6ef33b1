-- ===== src/RateLimit/RequestTests.antt =====
-- Requests through one trusted proxy, and the theorems on them.
use vigilo.Prelude.{
  ◌≡◌, ◌≢◌, ◌≤◌, ◌⊎◌, refl, arith, true, false, [], ◌∷◌, ◌++◌, none, some, codes, length,
  starts_with, ends_with, includes, split_on, trim_left, trim_right, any, eqb,
}
use vigilo.Prelude.Checks.{refused, passed, ◌>>=◌, ◌>>◌, refuse_if, present_or}
use vigilo.RateLimit.Buckets.{
  publication, poll, limit, window_seconds, window, has_key, oldest, delete_one, sweep, put_back,
  count_in, latest, consume_rate_limit,
}
use vigilo.RateLimit.Subjects.{
  Host, proxy_attribution_unavailable, rate_limit_configuration_invalid, parse_hops,
  parse_trusted_proxy_hops, Options, address_subject, from_end, forwarded_subject,
  resolve_rate_limit_subject, hash_rate_limit_subject, get, classify_write, classify_other,
  classify_rate_limit_action, Request, Environment, subject_of, rate_limit_request,
}
use vigilo.RateLimit.Attribution.{resolve-append, is_by_path, is_workflow, classify-method}

runs : Unit {0}
unfolding ◌>>=◌ ◌>>◌ refuse_if present_or starts_with ends_with includes split_on trim_left
    trim_right limit window_seconds window has_key oldest delete_one sweep put_back count_in latest
    consume_rate_limit parse_hops parse_trusted_proxy_hops address_subject from_end
    forwarded_subject resolve_rate_limit_subject hash_rate_limit_subject classify_write
    classify_other classify_rate_limit_action subject_of rate_limit_request
runs = tt

-- An address has a dot.
abbrev host : Host
host = record {
  is_ip = any (λ c. eqb c b'.');
  byte_length = length;
  hmac = λ secret subject. "hash";
}

abbrev options : Options
options = record { production = true; trusted_proxy_hops = some 1; direct_address = none }

trusted :
    resolve_rate_limit_subject host (some (codes "6.6.6.6, 10.0.0.1")) options
    ≡ passed (codes "ip:10.0.0.1")
unfolding runs
trusted = refl

no_proxy :
    resolve_rate_limit_subject host
      (some (codes "10.0.0.1"))
      (record options { trusted_proxy_hops = none })
    ≡ refused proxy_attribution_unavailable
unfolding runs
no_proxy = refl

nine_hops : parse_trusted_proxy_hops (some (codes "9")) ≡ refused proxy_attribution_unavailable
unfolding runs
nine_hops = refl

present : codes "10.0.0.1" ≢ []
present h = cc

enough : 1 ≤ length (split_on b',' (codes "10.0.0.1"))
unfolding runs
enough = omega arith

resolve-append_example :
    resolve_rate_limit_subject host (some (codes "6.6.6.6" ++ (b',' ∷ codes "10.0.0.1"))) options
    ≡ resolve_rate_limit_subject host (some (codes "10.0.0.1")) options
resolve-append_example =
    resolve-append host (codes "6.6.6.6") (codes "10.0.0.1") 1 present enough options refl

other : codes "POST" ≢ get
other h = cc

classify-method_example :
    ((classify_rate_limit_action (codes "/api/publications") (codes "POST")
        ≡ classify_rate_limit_action (codes "/api/publications") get)
      × (is_by_path (classify_rate_limit_action (codes "/api/publications") get) ≡ true))
    ⊎ ((classify_rate_limit_action (codes "/api/publications") get ≡ poll)
        × (is_workflow (classify_rate_limit_action (codes "/api/publications") (codes "POST"))
            ≡ true))
classify-method_example = classify-method (codes "/api/publications") (codes "POST") other

abbrev request : Request
request = record {
  forwarded = some (codes "10.0.0.1");
  pathname = codes "/api/publications";
  method = codes "POST";
  authenticated_subject = none;
  direct_address = none;
}

abbrev environment : Environment
environment = record {
  production = true;
  trust_proxy_hops = some (codes "1");
  hmac_key = some (codes "0123456789abcdef0123456789abcdef");
}

counted :
    rate_limit_request host (λ s. false) environment request 1000000 []
    ≡ passed (consume_rate_limit (λ s. false) publication "hash" 1000000 [])
unfolding runs
counted = refl

no_key :
    rate_limit_request host (λ s. false) (record environment { hmac_key = none }) request 1000000 []
    ≡ refused rate_limit_configuration_invalid
unfolding runs
no_key = refl
