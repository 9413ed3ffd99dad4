-- ===== src/RateLimit/Examples.antt =====
-- The theorem on the rate limiter at concrete requests.
use ofelia.Common.{
  ℕ, ◌≤◌, ◌≡◌, refl, String, List, [], ◌∷◌, length, ltb, true, Bool, none, some, ◌is◌, arith, ◌<◌,
}
use ofelia.RateLimit.{keep_recent, request}
use ofelia.RateLimit.Clients.{Net, HttpRequest, middleware}
use ofelia.RateLimit.Spoofing.{middleware-untrusted, middleware-spoofed}
use ofelia.RateLimit.Calls.{Call, asks, cleans, in_order, calls, fresh}

abbrev requests : List Call
requests =
    asks "10.0.0.1" 5 ∷ asks "10.0.0.2" 6 ∷ asks "10.0.0.1" 40 ∷ cleans 60 ∷ asks "10.0.0.1" 80 ∷ []

third_refused : (calls requests (fresh 2 100)).let_through "10.0.0.1" ≡ 5 ∷ 40 ∷ []
unfolding calls request keep_recent ofelia.RateLimit.new_rate_limiter ofelia.RateLimit.cleanup
    ofelia.Common.◌is◌
third_refused = refl

-- Addresses without ports are their own hosts, and one proxy is trusted.
abbrev net : Net String
net = record {
  split_host_port = λ addr. none;
  parse_ip = λ s. some s;
  is_loopback_ip = λ ip. ip is "127.0.0.1";
}

abbrev proxies : List (String → Bool)
proxies = (λ ip. ip is "10.0.0.9") ∷ []

abbrev from : String → HttpRequest
from addr = record { remote_addr = addr; x_forwarded_for = "1.2.3.4,10.0.0.7"; x_real_ip = "" }

middleware-untrusted_example :
    let s = calls requests (fresh 2 100) in
    (length (keep_recent 100 90 (s.let_through "10.0.0.1")) ≤ 2)
    × ((middleware net proxies (from "10.0.0.1") 90 s.limiter).1
        ≡ ltb (length (keep_recent 100 90 (s.let_through "10.0.0.1"))) 2)
unfolding ofelia.RateLimit.Clients.is_trusted_proxy ◌is◌ in_order
middleware-untrusted_example =
    middleware-untrusted net proxies 2 100 90 (from "10.0.0.1") requests refl refl

middleware-spoofed_example :
    (middleware net proxies (from "10.0.0.9") 90 (calls requests (fresh 2 100)).limiter).1 ≡ true
unfolding ofelia.RateLimit.Clients.is_trusted_proxy ◌is◌ ofelia.Common.concat
    ofelia.RateLimit.Spoofing.has_no_comma ofelia.Environment.Files.trim_space calls request
    ofelia.RateLimit.cleanup ofelia.RateLimit.new_rate_limiter
middleware-spoofed_example =
    middleware-spoofed net proxies (from "10.0.0.9") "1.2.3.4" "10.0.0.7" 90
      (calls requests (fresh 2 100)).limiter refl refl refl refl refl (omega arith)
