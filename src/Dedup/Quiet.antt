-- ===== src/Dedup/Quiet.antt =====
-- A failure is notified unless there was a like one within the cooldown.
use ofelia.Common.{
  ℕ, ◌+◌, String, Bool, true, not, ◌&&◌, ◌||◌, ◌≡◌, refl, ap, ◌∙◌, Option, none, some, List, [],
  ◌∷◌, leb, ◌==◌, if-true, if-all, ◌is◌, arith,
}
use ofelia.Dedup.{
  NotificationDedup, DedupContext, new_notification_dedup, generate_key, note_time, check_entry,
  should_notify, kept, cleanup, Call, asks, cleans, calls,
}

module _ (digest : String → String) where
  -- Whether the call is no question about a failure with that key within the cooldown before `now`.
  abbrev pub is_quiet : String → ℕ → ℕ → Call digest → Bool
  is_quiet key cooldown now (asks c at) =
      not (c.failed && (key is generate_key digest c)) || leb (at + cooldown) now
  is_quiet key cooldown now (cleans at) = true

  unfoldable pub all_quiet : String → ℕ → ℕ → List (Call digest) → Bool
  all_quiet key cooldown now [] = true
  all_quiet key cooldown now (x ∷ xs) = is_quiet key cooldown now x && all_quiet key cooldown now xs

  abbrev expired : ℕ → ℕ → Option ℕ → Bool
  expired cooldown now none = true
  expired cooldown now (some last) = leb (last + cooldown) now

  -- The cooldown, and that an entry of the key is older than it.
  abbrev HasExpired : String → ℕ → ℕ → NotificationDedup → Type 0
  HasExpired key cooldown now d =
      (d.cooldown ≡ cooldown) × (expired cooldown now (d.entries key) ≡ true)

  abbrev LeavesExpired : String → ℕ → ℕ → NotificationDedup × Bool → Type 0
  LeavesExpired key cooldown now o = HasExpired key cooldown now o.0

  abbrev IsNotified : NotificationDedup × Bool → Type 0
  IsNotified o = o.1 ≡ true

  note_time-HasExpired :
      (key k : String) (cooldown now at : ℕ) (d : NotificationDedup)
      → (not (key is k) || leb (at + cooldown) now) ≡ true
      → HasExpired key cooldown now d
      → HasExpired key cooldown now (note_time digest k at d)
  note_time-HasExpired key k cooldown now at d h (same, v) = (same, ground arith)

  check_entry-HasExpired :
      (key k : String) (cooldown now at : ℕ) (o : Option ℕ) (d : NotificationDedup)
      → (not (key is k) || leb (at + cooldown) now) ≡ true
      → HasExpired key cooldown now d
      → HasExpired key cooldown now (check_entry digest k at o d).0
  check_entry-HasExpired key k cooldown now at none d h v =
      note_time-HasExpired key k cooldown now at d h v
  check_entry-HasExpired key k cooldown now at (some last) d h v =
      if-all (LeavesExpired key cooldown now) (leb (last + d.cooldown) at) _ _
        (λ _. note_time-HasExpired key k cooldown now at d h v) (λ _. v)

  should_notify-HasExpired :
      (key : String) (cooldown now at : ℕ) (c : DedupContext) (d : NotificationDedup)
      → is_quiet key cooldown now (asks c at) ≡ true
      → HasExpired key cooldown now d
      → HasExpired key cooldown now (should_notify digest c at d).0
  unfolding should_notify
  should_notify-HasExpired key cooldown now at c d h v =
      if-all (LeavesExpired key cooldown now) (d.cooldown == 0) _ _ (λ _. v)
        (λ _.
          if-all (LeavesExpired key cooldown now) (not c.failed) _ _ (λ _. v)
            (λ failed.
              check_entry-HasExpired key (generate_key digest c) cooldown now at
                (d.entries (generate_key digest c)) d (ground arith) v))

  kept-expired :
      (cooldown now at : ℕ) (o : Option ℕ)
      → expired cooldown now o ≡ true
      → expired cooldown now (kept digest cooldown at o) ≡ true
  kept-expired cooldown now at none h = refl
  kept-expired cooldown now at (some last) h = ground arith

  cleanup-HasExpired :
      (key : String) (cooldown now at : ℕ) (d : NotificationDedup)
      → HasExpired key cooldown now d
      → HasExpired key cooldown now (cleanup digest at d)
  unfolding cleanup
  cleanup-HasExpired key cooldown now at d (same, v) = (
    same,
    ap (λ w. expired cooldown now (kept digest w at (d.entries key))) same
        ∙ kept-expired cooldown now at (d.entries key) v,
  )

  calls-HasExpired :
      (key : String) (cooldown now : ℕ) (xs : List (Call digest)) (d : NotificationDedup)
      → all_quiet key cooldown now xs ≡ true
      → HasExpired key cooldown now d
      → HasExpired key cooldown now (calls digest xs d)
  unfolding all_quiet calls
  calls-HasExpired key cooldown now [] d h v = v
  calls-HasExpired key cooldown now (asks c at ∷ xs) d h v =
      calls-HasExpired key cooldown now xs (should_notify digest c at d).0 (ground arith)
        (should_notify-HasExpired key cooldown now at c d (ground arith) v)
  calls-HasExpired key cooldown now (cleans at ∷ xs) d h v =
      calls-HasExpired key cooldown now xs (cleanup digest at d) (ground arith)
        (cleanup-HasExpired key cooldown now at d v)

  check_entry-expired :
      (key : String) (now : ℕ) (o : Option ℕ) (d : NotificationDedup)
      → expired d.cooldown now o ≡ true
      → (check_entry digest key now o d).1 ≡ true
  check_entry-expired key now none d h = refl
  check_entry-expired key now (some last) d h =
      ap (λ (o : NotificationDedup × Bool). o.1) (if-true h _ _)

  -- From a new deduplicator on, and whatever the calls before and their outcomes: a context is
  -- notified if, within the cooldown before it, there was no question about a failure with its key.
  pub notified_fresh :
      (cooldown now : ℕ) (c : DedupContext) (xs : List (Call digest))
      → all_quiet (generate_key digest c) cooldown now xs ≡ true
      → (should_notify digest c now (calls digest xs (new_notification_dedup cooldown))).1 ≡ true
  unfolding should_notify new_notification_dedup
  notified_fresh cooldown now c xs quiet =
      let d = calls digest xs (new_notification_dedup cooldown) in
      let (same, v) =
        calls-HasExpired (generate_key digest c) cooldown now xs (new_notification_dedup cooldown)
          quiet (refl, refl) in
      if-all IsNotified (d.cooldown == 0) (d, true) _ (λ _. refl)
        (λ _.
          if-all IsNotified (not c.failed) (d, true) _ (λ _. refl)
            (λ _.
              check_entry-expired (generate_key digest c) now (d.entries (generate_key digest c)) d
                (ap (λ w. expired w now (d.entries (generate_key digest c))) same ∙ v)))
