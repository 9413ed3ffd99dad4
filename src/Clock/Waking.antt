-- ===== src/Clock/Waking.antt =====
-- What the waiters are sent.
use ofelia.Common.{
  ℕ, ◌+◌, ◌≡◌, refl, sym, ap, ◌∙◌, Bool, true, false, ◌&&◌, ◌||◌, ◌==◌, Option, List, [], ◌∷◌, ◌++◌,
  ltb, leb, if◌then◌else◌, inl, inr, Bool-cases, arith,
}
use ofelia.Clock.{Waiter, earlier, scan_waiters, remaining, woken}
use ofelia.Clock.Firing.{is_late, scan_waiters-late, earlier-late}

-- Whether a channel was sent a time.
unfoldable pub has_sent : ℕ → ℕ → List (ℕ × ℕ) → Bool
has_sent ch t [] = false
has_sent ch t (x ∷ xs) = (x.0 == ch) && (x.1 == t) || has_sent ch t xs

-- Whether each waiter that is due at the target was sent its deadline.
unfoldable pub all_sent : ℕ → List Waiter → List (ℕ × ℕ) → Bool
all_sent target [] sent = true
all_sent target (w ∷ ws) sent =
    if ltb target w.deadline || has_sent w.ch w.deadline sent
    then all_sent target ws sent
    else false

pub all_wait_late : ℕ → List Waiter → Bool
all_wait_late b [] = true
all_wait_late b (w ∷ ws) = if leb b w.deadline then all_wait_late b ws else false

pub scan_waiters-wait :
    (b : ℕ) (ws : List Waiter) (acc : Option ℕ)
    → is_late b (scan_waiters ws acc) ≡ true
    → all_wait_late b ws ≡ true
unfolding scan_waiters all_wait_late
scan_waiters-wait b [] acc h = refl
scan_waiters-wait b (w ∷ ws) acc h =
    let late = scan_waiters-late b ws (earlier w.deadline acc) h in
    let (first, this) = earlier-late b w.deadline acc late in
    ground (arith, scan_waiters-wait b ws (earlier w.deadline acc) h)

has_sent-append :
    (ch t : ℕ) (xs ys : List (ℕ × ℕ)) → has_sent ch t ys ≡ true → has_sent ch t (xs ++ ys) ≡ true
unfolding has_sent
has_sent-append ch t [] ys h = h
has_sent-append ch t (x ∷ xs) ys h = ground (arith, has_sent-append ch t xs ys h)

all_sent-more :
    (target : ℕ) (ws : List Waiter) (x : ℕ × ℕ) (xs : List (ℕ × ℕ))
    → all_sent target ws xs ≡ true
    → all_sent target ws (x ∷ xs) ≡ true
unfolding all_sent has_sent
all_sent-more target [] x xs h = refl
all_sent-more target (w ∷ ws) x xs h = ground (arith, all_sent-more target ws x xs)

pub all_sent-woken :
    (e target : ℕ) (ws : List Waiter) (sent : List (ℕ × ℕ))
    → all_wait_late e ws ≡ true
    → all_sent target (remaining e ws) sent ≡ true
    → all_sent target ws (woken e ws ++ sent) ≡ true
unfolding all_sent has_sent all_wait_late remaining woken
all_sent-woken e target [] sent late h = refl
all_sent-woken e target (w ∷ ws) sent late h = elim (Bool-cases (ltb e w.deadline)) [
  | inl l ↦
      let kept =
        ap (λ b. all_sent target (if b then w ∷ remaining e ws else remaining e ws) sent) (sym l)
        ∙ h in
      let earlier_sent = has_sent-append w.ch w.deadline (woken e ws) sent in
      rw l (ground (arith, kept, earlier_sent, all_sent-woken e target ws sent))
  | inr l ↦
      let gone =
        ap (λ b. all_sent target (if b then w ∷ remaining e ws else remaining e ws) sent) (sym l)
        ∙ h in
      let more =
        all_sent-more target ws (w.ch, e) (woken e ws ++ sent)
          (all_sent-woken e target ws sent (ground arith) gone) in
      rw l (ground (arith, more))
]

pub all_sent-late :
    (target : ℕ) (ws : List Waiter)
    → all_wait_late (target + 1) ws ≡ true
    → all_sent target ws [] ≡ true
unfolding all_sent has_sent all_wait_late
all_sent-late target [] late = refl
all_sent-late target (w ∷ ws) late = ground (arith, all_sent-late target ws)
