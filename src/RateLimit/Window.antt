-- ===== src/RateLimit/Window.antt =====
-- No window of time lets more requests through than the limit, and none is refused without need.
use ofelia.Common.{
  ℕ, ◌≤◌, ◌<◌, String, Bool, true, false, ◌≡◌, refl, sym, ap, ◌∙◌, subst, List, [], ◌∷◌, ◌++◌,
  length, length-append, ltb, leb, if◌then◌else◌, if-true, if-false, if-all, Bool-cases, inl, inr,
  ◌is◌, is_iff, arith,
}
use ofelia.RateLimit.{RateLimiter, new_rate_limiter, keep_recent, cleanup, decide, request}
use ofelia.RateLimit.Calls.{
  Call, asks, cleans, in_order, Logged, after_request, call, calls, fresh, keep_recent-append,
  keep_recent-keep_recent, length-keep_recent, length-keep_recent_one,
}

-- From the time `at` on, the limiter and the log have the same requests of each address within the
-- window, and no more of them than the limit.
record IsExact (limit window at : ℕ) (s : Logged) : Type 0 where
  limit_kept : s.limiter.limit ≡ limit
  window_kept : s.limiter.window ≡ window
  same :
      (ip : String) (now : ℕ)
      → at ≤ now
      → keep_recent window now (s.limiter.requests ip) ≡ keep_recent window now (s.let_through ip)
  bound :
      (ip : String) (now : ℕ)
      → at ≤ now
      → length (keep_recent window now (s.let_through ip)) ≤ limit

kept_same :
    (w w' t now : ℕ) (xs : List ℕ)
    → w' ≡ w
    → t ≤ now
    → keep_recent w now (keep_recent w' t xs) ≡ keep_recent w now xs
kept_same w w' t now xs e l =
    ap (λ u. keep_recent w now (keep_recent u t xs)) e ∙ keep_recent-keep_recent w t now xs l

added_same :
    (w w' t now : ℕ) (xs ys : List ℕ)
    → w' ≡ w
    → t ≤ now
    → keep_recent w now xs ≡ keep_recent w now ys
    → keep_recent w now (keep_recent w' t xs ++ t ∷ []) ≡ keep_recent w now (ys ++ t ∷ [])
added_same w w' t now xs ys e l h =
    keep_recent-append w now (keep_recent w' t xs) (t ∷ [])
    ∙ ap (λ k. k ++ keep_recent w now (t ∷ [])) (kept_same w w' t now xs e l ∙ h)
    ∙ sym (keep_recent-append w now ys (t ∷ []))

added_bound :
    (w t now n : ℕ) (ys : List ℕ)
    → t ≤ now
    → length (keep_recent w t ys) < n
    → length (keep_recent w now (ys ++ t ∷ [])) ≤ n
added_bound w t now n ys l h = omega (
  arith,
  ap length (keep_recent-append w now ys (t ∷ []))
      ∙ length-append (keep_recent w now ys) (keep_recent w now (t ∷ [])),
  length-keep_recent w t now ys l,
  length-keep_recent_one w now t,
)

cleanup-IsExact :
    (limit window at t : ℕ) (s : Logged)
    → at ≤ t
    → IsExact limit window at s
    → IsExact limit window t (record s { limiter = cleanup t s.limiter })
unfolding cleanup
cleanup-IsExact limit window at t s h v = record {
  limit_kept = v.limit_kept;
  window_kept = v.window_kept;
  same = λ ip now l.
      kept_same window s.limiter.window t now (s.limiter.requests ip) v.window_kept l
      ∙ v.same ip now (omega (arith, h, l));
  bound = λ ip now l. v.bound ip now (omega (arith, h, l));
}

abbrev LeavesExact : ℕ → ℕ → ℕ → String → Logged → RateLimiter × Bool → Type 0
LeavesExact limit window t ip s o = IsExact limit window t (after_request ip t o s.let_through)

refused-IsExact :
    (limit window at t : ℕ) (ip : String) (s : Logged)
    → at ≤ t
    → IsExact limit window at s
    → LeavesExact limit window t ip s (s.limiter, false)
refused-IsExact limit window at t ip s h v = record {
  limit_kept = v.limit_kept;
  window_kept = v.window_kept;
  same = λ k now l. v.same k now (omega (arith, h, l));
  bound = λ k now l. v.bound k now (omega (arith, h, l));
}

passed-IsExact :
    (limit window at t : ℕ) (ip : String) (s : Logged)
    → at ≤ t
    → IsExact limit window at s
    → leb s.limiter.limit (length (keep_recent s.limiter.window t (s.limiter.requests ip))) ≡ false
    → let valid = keep_recent s.limiter.window t (s.limiter.requests ip) in
      LeavesExact limit window t ip s (
        record s.limiter {
          requests = λ k. if k is ip then valid ++ t ∷ [] else s.limiter.requests k;
        },
        true,
      )
passed-IsExact limit window at t ip s h v room =
    let w = s.limiter.window in
    let reqs = s.limiter.requests in
    let log = s.let_through in
    let few : length (keep_recent window t (log ip)) < limit = ground (
      arith,
      ap (λ u. length (keep_recent u t (reqs ip))) v.window_kept,
      ap length (v.same ip t h),
      v.limit_kept,
    ) in
    record {
      limit_kept = v.limit_kept;
      window_kept = v.window_kept;
      same = λ k now l. elim (Bool-cases (k is ip)) [
        | inl e ↦
            ap (keep_recent window now) (if-true e _ _)
            ∙ added_same window w t now (reqs ip) (log ip) v.window_kept l
                (v.same ip now (omega (arith, h, l)))
            ∙ ap (λ z. keep_recent window now (log z ++ t ∷ [])) (sym ((is_iff k ip).0 e))
            ∙ ap (keep_recent window now) (sym (if-true e _ _))
        | inr e ↦
            ap (keep_recent window now) (if-false e _ _)
            ∙ v.same k now (omega (arith, h, l))
            ∙ ap (keep_recent window now) (sym (if-false e _ _))
      ];
      bound = λ k now l. elim (Bool-cases (k is ip)) [
        | inl e ↦
            let p : k ≡ ip = (is_iff k ip).0 e in
            subst (λ xs. length (keep_recent window now xs) ≤ limit)
              (ap (λ z. log z ++ t ∷ []) (sym p) ∙ sym (if-true e (log k ++ t ∷ []) (log k)))
              (added_bound window t now limit (log ip) l few)
        | inr e ↦
            subst (λ xs. length (keep_recent window now xs) ≤ limit)
              (sym (if-false e (log k ++ t ∷ []) (log k))) (v.bound k now (omega (arith, h, l)))
      ];
    }

request-IsExact :
    (limit window at t : ℕ) (ip : String) (s : Logged)
    → at ≤ t
    → IsExact limit window at s
    → LeavesExact limit window t ip s (request ip t s.limiter)
unfolding request
request-IsExact limit window at t ip s h v =
    if-all (LeavesExact limit window t ip s)
      (leb s.limiter.limit (length (keep_recent s.limiter.window t (s.limiter.requests ip)))) _ _
      (λ _. refused-IsExact limit window at t ip s h v)
      (λ room. passed-IsExact limit window at t ip s h v room)

calls-IsExact :
    (limit window at to : ℕ) (xs : List Call) (s : Logged)
    → in_order at xs to ≡ true
    → IsExact limit window at s
    → IsExact limit window to (calls xs s)
unfolding in_order calls
calls-IsExact limit window at to [] s h v = record {
  limit_kept = v.limit_kept;
  window_kept = v.window_kept;
  same = λ k now l. v.same k now (ground arith);
  bound = λ k now l. v.bound k now (ground arith);
}
calls-IsExact limit window at to (asks ip t ∷ xs) s h v =
    calls-IsExact limit window t to xs (call (asks ip t) s) (ground arith)
      (request-IsExact limit window at t ip s (ground arith) v)
calls-IsExact limit window at to (cleans t ∷ xs) s h v =
    calls-IsExact limit window t to xs (call (cleans t) s) (ground arith)
      (cleanup-IsExact limit window at t s (ground arith) v)

decided :
    (ip : String) (now : ℕ) (valid : List ℕ) (rl : RateLimiter)
    → (decide ip now valid rl).1 ≡ ltb (length valid) rl.limit
decided ip now valid rl = ground arith

request-decides :
    (limit window now : ℕ) (ip : String) (s : Logged)
    → IsExact limit window now s
    → (request ip now s.limiter).1 ≡ ltb (length (keep_recent window now (s.let_through ip))) limit
unfolding request
request-decides limit window now ip s v =
    let w = s.limiter.window in
    let reqs = s.limiter.requests ip in
    decided ip now (keep_recent w now reqs) s.limiter
    ∙ ap (ltb (length (keep_recent w now reqs))) v.limit_kept
    ∙ ap (λ l. ltb (length l) limit)
        (ap (λ u. keep_recent u now reqs) v.window_kept ∙ v.same ip now (omega arith))

-- From a new limiter on, through requests of any addresses and cleanups whose times never fall: of
-- the requests of an address that were let through, no more than the limit are within the window
-- before now; and a request now is let through exactly if they are fewer than the limit.
pub request-window :
    (limit window now : ℕ) (ip : String) (xs : List Call)
    → in_order 0 xs now ≡ true
    → let s = calls xs (fresh limit window) in
      (length (keep_recent window now (s.let_through ip)) ≤ limit)
      × ((request ip now s.limiter).1
          ≡ ltb (length (keep_recent window now (s.let_through ip))) limit)
unfolding new_rate_limiter keep_recent
request-window limit window now ip xs ordered =
    let nothing : IsExact limit window 0 (fresh limit window) = record {
      limit_kept = refl;
      window_kept = refl;
      same = λ k t l. refl;
      bound = λ k t l. omega arith;
    } in
    let v = calls-IsExact limit window 0 now xs (fresh limit window) ordered nothing in
    (
      v.bound ip now (omega arith),
      request-decides limit window now ip (calls xs (fresh limit window)) v,
    )
