-- ===== src/RateLimit/Spoofing.antt =====
-- Whom the limiter takes a client for.
use Prim.Native.Char.{code}
use Prim.Native.String as Native
use ofelia.Common.{
  ℕ, ◌≤◌, ◌<◌, ◌≡◌, refl, ap, ◌∙◌, String, Bool, true, false, not, ◌&&◌, List, [], length, ltb,
  ◌==◌, if-true, if-false, arith, ◌is◌, is_iff, concat, concat-nil, concat-cons, Bool-cases, inl,
  inr,
}
use ofelia.Environment.Files.{is_empty, trim_space}
use ofelia.RateLimit.{RateLimiter, keep_recent, decide, request}
use ofelia.RateLimit.Calls.{Call, in_order, calls, fresh}
use ofelia.RateLimit.Window.{request-window}
use ofelia.RateLimit.Clients.{
  Net, HttpRequest, extract_remote_ip, is_trusted_proxy, get_client_ip, first_part, middleware,
}

unfoldable pub has_no_comma : String → Bool
has_no_comma Native.String.[] = true
has_no_comma (Native.String.◌∷◌ c s) = not (code c == b',') && has_no_comma s

comma_first : (s : String) → concat "," s ≡ Native.String.◌∷◌ "," s
comma_first s = concat-cons "," "" s ∙ ap (λ t. Native.String.◌∷◌ "," t) (concat-nil s)

-- A list of addresses, as it stands in the header.
abbrev pub with_more : String → String → String
with_more first rest = concat first (concat "," rest)

first_part-with_more : (s rest : String) → has_no_comma s ≡ true → first_part (with_more s rest) ≡ s
unfolding first_part has_no_comma
first_part-with_more Native.String.[] rest h =
    rw (concat-nil (concat "," rest), comma_first rest) refl
first_part-with_more (Native.String.◌∷◌ c s) rest h = rw (concat-cons c s (concat "," rest)) (
    if-false {b = code c == b','} (ground arith) _ _
    ∙ ap (λ t. Native.String.◌∷◌ c t) (first_part-with_more s rest (ground arith)))

filled : (s rest : String) → is_empty (with_more s rest) ≡ false
filled Native.String.[] rest = ap is_empty (concat-nil (concat "," rest) ∙ comma_first rest)
filled (Native.String.◌∷◌ c s) rest = ap is_empty (concat-cons c s (concat "," rest))

with_more-filled : (s rest : String) → (with_more s rest is "") ≡ false
with_more-filled s rest = elim (Bool-cases (with_more s rest is "")) [
  | inl e ↦ absurd (ground (arith, ap is_empty ((is_iff (with_more s rest) "").0 e), filled s rest))
  | inr e ↦ e
]

module _ {I : Type 0} (net : Net I) (proxies : List (I → Bool)) where
  get_client_ip-remote :
      (r : HttpRequest)
      → is_trusted_proxy net (extract_remote_ip net r.remote_addr) proxies ≡ false
      → get_client_ip net r proxies ≡ extract_remote_ip net r.remote_addr
  unfolding get_client_ip
  get_client_ip-remote r h = if-false h _ _

  -- From a new limiter on, through requests of any addresses and cleanups whose times never fall: a
  -- request of a client that is not a trusted proxy, whatever its headers say, is let through exactly
  -- if fewer than the limit of those counted for the address of its connection are within the
  -- window, and there are never more.
  pub middleware-untrusted :
      (limit window now : ℕ) (r : HttpRequest) (xs : List Call)
      → is_trusted_proxy net (extract_remote_ip net r.remote_addr) proxies ≡ false
      → in_order 0 xs now ≡ true
      → let s = calls xs (fresh limit window) in
        let remote = extract_remote_ip net r.remote_addr in
        (length (keep_recent window now (s.let_through remote)) ≤ limit)
        × ((middleware net proxies r now s.limiter).1
            ≡ ltb (length (keep_recent window now (s.let_through remote))) limit)
  unfolding middleware
  middleware-untrusted limit window now r xs untrusted ordered =
      let remote = extract_remote_ip net r.remote_addr in
      let (few, decides) = request-window limit window now remote xs ordered in
      (
        few,
        ap (λ ip. (request ip now (calls xs (fresh limit window)).limiter).1)
              (get_client_ip-remote r untrusted)
            ∙ decides,
      )

  -- A request that comes through a trusted proxy, which adds to the header of the client: it is let
  -- through if the limiter counts nothing for the first address in the header, which the client
  -- wrote, whatever follows it.
  pub middleware-spoofed :
      (r : HttpRequest) (first rest : String) (now : ℕ) (rl : RateLimiter)
      → is_trusted_proxy net (extract_remote_ip net r.remote_addr) proxies ≡ true
      → r.x_forwarded_for ≡ with_more first rest
      → has_no_comma first ≡ true
      → trim_space first ≡ first
      → rl.requests first ≡ []
      → 0 < rl.limit
      → (middleware net proxies r now rl).1 ≡ true
  unfolding middleware get_client_ip request keep_recent
  middleware-spoofed r first rest now rl trusted header one trimmed unknown room =
      let given : (r.x_forwarded_for is "") ≡ false =
        ap (λ h. h is "") header ∙ with_more-filled first rest in
      let address : get_client_ip net r proxies ≡ first =
        if-true trusted _ _
        ∙ if-true (ap not given) _ _
        ∙ ap (λ h. trim_space (first_part h)) header
        ∙ ap trim_space (first_part-with_more first rest one)
        ∙ trimmed in
      ap (λ ip. (request ip now rl).1) address
      ∙ ap (λ l. (decide first now (keep_recent rl.window now l) rl).1) unknown
      ∙ ground arith
