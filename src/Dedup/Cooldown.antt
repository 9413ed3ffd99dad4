-- ===== src/Dedup/Cooldown.antt =====
-- When a failure is notified.
use ofelia.Common.{
  ℕ, ◌+◌, ◌≤◌, ◌<◌, String, Bool, true, false, not, ◌&&◌, ◌≡◌, sym, ap, ◌∙◌, subst, Option, none,
  some, List, [], ◌∷◌, leb, ◌==◌, if◌then◌else◌, if-true, if-false, if-all, ◌is◌, is_refl, arith,
  concat,
}
use ofelia.Dedup.{
  NotificationDedup, DedupContext, written, generate_key, note_time, check_entry, should_notify,
  kept, cleanup, Call, asks, cleans, calls,
}

module _ (digest : String → String) where
  -- The time of a call.
  abbrev pub time : Call digest → ℕ
  time (asks c at) = at
  time (cleans at) = at

  -- Whether all calls were made between the two times.
  unfoldable pub all_between : ℕ → ℕ → List (Call digest) → Bool
  all_between a b [] = true
  all_between a b (x ∷ xs) = leb a (time x) && leb (time x) b && all_between a b xs

  -- The entry of the key is from the time `a` on, and the cooldown from `a` on is not over at `now`.
  record IsCooling (key : String) (a now : ℕ) (d : NotificationDedup) : Type 0 where
    last : ℕ
    entered : d.entries key ≡ some last
    since : a ≤ last
    cooling : now < a + d.cooldown
    active : (d.cooldown == 0) ≡ false

  abbrev LeavesCooling : String → ℕ → ℕ → NotificationDedup × Bool → Type 0
  LeavesCooling key a now o = IsCooling key a now o.0

  note_time-IsCooling :
      (key k : String) (a now at : ℕ) (d : NotificationDedup)
      → a ≤ at
      → IsCooling key a now d
      → IsCooling key a now (note_time digest k at d)
  note_time-IsCooling key k a now at d h v = record {
    last = if key is k then at else v.last;
    entered = ground (arith, v.entered);
    since = ground (arith, v.since);
    cooling = v.cooling;
    active = v.active;
  }

  check_entry-IsCooling :
      (key k : String) (a now at : ℕ) (o : Option ℕ) (d : NotificationDedup)
      → a ≤ at
      → IsCooling key a now d
      → IsCooling key a now (check_entry digest k at o d).0
  check_entry-IsCooling key k a now at none d h v = note_time-IsCooling key k a now at d h v
  check_entry-IsCooling key k a now at (some last) d h v =
      if-all (LeavesCooling key a now) (leb (last + d.cooldown) at) _ _
        (λ _. note_time-IsCooling key k a now at d h v) (λ _. v)

  should_notify-IsCooling :
      (key : String) (a now at : ℕ) (c : DedupContext) (d : NotificationDedup)
      → a ≤ at
      → IsCooling key a now d
      → IsCooling key a now (should_notify digest c at d).0
  unfolding should_notify
  should_notify-IsCooling key a now at c d h v =
      if-all (LeavesCooling key a now) (d.cooldown == 0) _ _ (λ _. v)
        (λ _.
          if-all (LeavesCooling key a now) (not c.failed) _ _ (λ _. v)
            (λ _.
              check_entry-IsCooling key (generate_key digest c) a now at
                (d.entries (generate_key digest c)) d h v))

  kept-some :
      (cooldown at last : ℕ)
      → at < last + cooldown
      → kept digest cooldown at (some last) ≡ some last
  kept-some cooldown at last h = if-false {b = leb (last + cooldown) at} (ground arith) _ _

  cleanup-IsCooling :
      (key : String) (a now at : ℕ) (d : NotificationDedup)
      → at ≤ now
      → IsCooling key a now d
      → IsCooling key a now (cleanup digest at d)
  unfolding cleanup
  cleanup-IsCooling key a now at d h v = record {
    last = v.last;
    entered =
        ap (kept digest d.cooldown at) v.entered
        ∙ kept-some d.cooldown at v.last (omega (arith, v.since, v.cooling, h));
    since = v.since;
    cooling = v.cooling;
    active = v.active;
  }

  calls-IsCooling :
      (key : String) (a now : ℕ) (xs : List (Call digest)) (d : NotificationDedup)
      → all_between a now xs ≡ true
      → IsCooling key a now d
      → IsCooling key a now (calls digest xs d)
  unfolding all_between calls
  calls-IsCooling key a now [] d h v = v
  calls-IsCooling key a now (asks c at ∷ xs) d h v =
      calls-IsCooling key a now xs (should_notify digest c at d).0 (ground arith)
        (should_notify-IsCooling key a now at c d (ground arith) v)
  calls-IsCooling key a now (cleans at ∷ xs) d h v =
      calls-IsCooling key a now xs (cleanup digest at d) (ground arith)
        (cleanup-IsCooling key a now at d (ground arith) v)

  should_notify-check_entry :
      (c : DedupContext) (at : ℕ) (d : NotificationDedup)
      → (d.cooldown == 0) ≡ false
      → c.failed ≡ true
      → should_notify digest c at d
        ≡ check_entry digest (generate_key digest c) at (d.entries (generate_key digest c)) d
  unfolding should_notify
  should_notify-check_entry c at d active failed =
      if-false active _ _ ∙ if-false (ap not failed) _ _

  abbrev CoolsIfTrue : String → ℕ → ℕ → NotificationDedup × Bool → Type 0
  CoolsIfTrue key a now o = o.1 ≡ true → IsCooling key a now o.0

  entered-IsCooling :
      (key : String) (a now : ℕ) (d : NotificationDedup)
      → (d.cooldown == 0) ≡ false
      → now < a + d.cooldown
      → IsCooling key a now (note_time digest key a d)
  entered-IsCooling key a now d active soon = record {
    last = a;
    entered = if-true (is_refl key) _ _;
    since = omega arith;
    cooling = soon;
    active = active;
  }

  check_entry-cools :
      (key : String) (a now : ℕ) (o : Option ℕ) (d : NotificationDedup)
      → (d.cooldown == 0) ≡ false
      → now < a + d.cooldown
      → CoolsIfTrue key a now (check_entry digest key a o d)
  check_entry-cools key a now none d active soon ok = entered-IsCooling key a now d active soon
  check_entry-cools key a now (some last) d active soon ok =
      if-all (CoolsIfTrue key a now) (leb (last + d.cooldown) a) _ _
        (λ _ _. entered-IsCooling key a now d active soon) (λ _ refuted. ground arith) ok

  cooling-refused :
      (a now : ℕ) (c : DedupContext) (d : NotificationDedup)
      → IsCooling (generate_key digest c) a now d
      → c.failed ≡ true
      → (should_notify digest c now d).1 ≡ false
  cooling-refused a now c d v failed =
      let key = generate_key digest c in
      ap (λ o. o.1) (should_notify-check_entry c now d v.active failed)
      ∙ ap (λ o. (check_entry digest key now o d).1) v.entered
      ∙ ap (λ (o : NotificationDedup × Bool). o.1)
          (if-false {b = leb (v.last + d.cooldown) now} (ground arith) _ _)

  written-same :
      (c c' : DedupContext) (o : Option String)
      → concat c'.job_name c'.job_command ≡ concat c.job_name c.job_command
      → written digest c' o ≡ written digest c o
  written-same c c' none h = h
  written-same c c' (some e) h = ap (λ s. concat s e) h

  generate_key-same :
      (c c' : DedupContext)
      → concat c'.job_name c'.job_command ≡ concat c.job_name c.job_command
      → c'.error ≡ c.error
      → generate_key digest c' ≡ generate_key digest c
  generate_key-same c c' h k = ap digest (written-same c c' c'.error h ∙ ap (written digest c) k)

  -- A failure is notified at the time `a`. Then, through calls from `a` to now and while the cooldown
  -- from `a` on is not over, no failure is notified whose job name and command, put together, are the
  -- same text and whose error is the same: another run of the job, or one of another job.
  pub notified_once :
      (a now : ℕ) (c c' : DedupContext) (xs : List (Call digest)) (d : NotificationDedup)
      → (d.cooldown == 0) ≡ false
      → c.failed ≡ true
      → c'.failed ≡ true
      → concat c'.job_name c'.job_command ≡ concat c.job_name c.job_command
      → c'.error ≡ c.error
      → now < a + d.cooldown
      → all_between a now xs ≡ true
      → (should_notify digest c a d).1 ≡ true
      → (should_notify digest c' now (calls digest xs (should_notify digest c a d).0)).1 ≡ false
  notified_once a now c c' xs d active failed failed' same_job same_error soon between ok =
      let key = generate_key digest c in
      let d₁ = (should_notify digest c a d).0 in
      let cools =
        subst (CoolsIfTrue key a now) (sym (should_notify-check_entry c a d active failed))
          (check_entry-cools key a now (d.entries key) d active soon) ok in
      cooling-refused a now c' (calls digest xs d₁)
        (subst (λ k. IsCooling k a now (calls digest xs d₁))
          (sym (generate_key-same c c' same_job same_error))
          (calls-IsCooling key a now xs d₁ between cools))
        failed'
