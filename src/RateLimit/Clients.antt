-- ===== src/RateLimit/Clients.antt =====
-- web/middleware.go, `extractRemoteIP` and `isTrustedProxy`, and the beginning of `middleware`, which finds
-- the address of the client; `getClientIP` of web/auth_secure.go.
--
-- The package net is a parameter: addresses are told apart by what its functions return.
use Prim.Native.Char.{code}
use Prim.Native.String as Native
use ofelia.Common.{
  ℕ, String, Bool, true, false, not, ◌||◌, Option, none, some, List, [], ◌∷◌, ◌==◌, if◌then◌else◌,
  ◌is◌,
}
use ofelia.Environment.Files.{trim_space}
use ofelia.RateLimit.{RateLimiter, request}

-- `net.SplitHostPort`, `none` being its error; `net.ParseIP`; `IsLoopback`.
pub record Net (I : Type 0) : Type 0 where
  pub split_host_port : String → Option String
  pub parse_ip : String → Option I
  pub is_loopback_ip : I → Bool

pub record HttpRequest : Type 0 where
  pub remote_addr : String
  pub x_forwarded_for : String
  pub x_real_ip : String

abbrev pub host_or : String → Option String → String
host_or addr none = addr
host_or addr (some host) = host

-- `strings.Split(s, ",")[0]`
unfoldable pub first_part : String → String
first_part Native.String.[] = ""
first_part (Native.String.◌∷◌ c s) =
    let rest = first_part s in if code c == b',' then "" else Native.String.◌∷◌ c rest

module _ {I : Type 0} (net : Net I) where
  abbrev pub extract_remote_ip : String → String
  extract_remote_ip remote_addr = host_or remote_addr (net.split_host_port remote_addr)

  abbrev pub is_loopback : Option I → Bool
  is_loopback none = false
  is_loopback (some ip) = net.is_loopback_ip ip

  -- Whether one of the ranges contains the address.
  unfoldable pub is_in_some : I → List (I → Bool) → Bool
  is_in_some ip [] = false
  is_in_some ip (cidr ∷ cidrs) = if cidr ip then true else is_in_some ip cidrs

  abbrev pub is_in_proxies : Option I → List (I → Bool) → Bool
  is_in_proxies none proxies = false
  is_in_proxies (some ip) proxies = is_in_some ip proxies

  unfoldable pub is_trusted_proxy : String → List (I → Bool) → Bool
  unfolding is_in_some
  is_trusted_proxy ip proxies =
      is_loopback (net.parse_ip ip) || is_in_proxies (net.parse_ip ip) proxies

  -- `getClientIP`, and the same in `middleware`. A split has at least one part.
  unfoldable pub get_client_ip : HttpRequest → List (I → Bool) → String
  unfolding is_trusted_proxy trim_space first_part
  get_client_ip r proxies =
      let remote = extract_remote_ip r.remote_addr in
      if is_trusted_proxy remote proxies
      then if not (r.x_forwarded_for is "")
        then trim_space (first_part r.x_forwarded_for)
        else if not (r.x_real_ip is "")
        then r.x_real_ip
        else remote
      else remote

  -- `middleware` of the limiter: whether the next handler is called.
  unfoldable pub middleware : List (I → Bool) → HttpRequest → ℕ → RateLimiter → RateLimiter × Bool
  unfolding get_client_ip request
  middleware proxies r now rl = request (get_client_ip r proxies) now rl
