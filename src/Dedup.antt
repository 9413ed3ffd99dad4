-- ===== src/Dedup.antt =====
-- middlewares/dedup.go: error notifications are not sent again within a cooldown. Times are
-- nanoseconds on the monotonic clock; the model is of a cooldown that is not negative. The methods
-- hold the lock where they read or write the map, so each is one step.
pub mod Cooldown
pub mod Quiet
mod Examples
use ofelia.Common.{
  ℕ, ◌+◌, String, Bool, true, false, not, Option, none, some, List, [], ◌∷◌, leb, ◌==◌,
  if◌then◌else◌, ◌is◌, concat,
}

pub record NotificationDedup : Type 0 where
  pub cooldown : ℕ
  pub entries : String → Option ℕ

unfoldable pub new_notification_dedup : ℕ → NotificationDedup
new_notification_dedup cooldown = record { cooldown = cooldown; entries = λ k. none }

-- What `ShouldNotify` reads of the context: `error` is the text of `Execution.Error`.
pub record DedupContext : Type 0 where
  pub job_name : String
  pub job_command : String
  pub failed : Bool
  pub error : Option String

-- `digest` is the SHA-256 of all that was written, in hexadecimal.
module _ (digest : String → String) where
  abbrev pub written : DedupContext → Option String → String
  written c none = concat c.job_name c.job_command
  written c (some e) = concat (concat c.job_name c.job_command) e

  abbrev pub generate_key : DedupContext → String
  generate_key c = digest (written c c.error)

  -- `d.entries[key] = now`
  abbrev pub note_time : String → ℕ → NotificationDedup → NotificationDedup
  note_time key now d = record d { entries = λ k. if k is key then some now else d.entries k }

  -- `ShouldNotify` on the entry of the key.
  abbrev pub check_entry : String → ℕ → Option ℕ → NotificationDedup → NotificationDedup × Bool
  check_entry key now none d = (note_time key now d, true)
  check_entry key now (some last) d =
      if leb (last + d.cooldown) now then (note_time key now d, true) else (d, false)

  unfoldable pub should_notify : DedupContext → ℕ → NotificationDedup → NotificationDedup × Bool
  should_notify c now d =
      if d.cooldown == 0
      then (d, true)
      else if not c.failed
      then (d, true)
      else check_entry (generate_key c) now (d.entries (generate_key c)) d

  abbrev pub kept : ℕ → ℕ → Option ℕ → Option ℕ
  kept cooldown now none = none
  kept cooldown now (some last) = if leb (last + cooldown) now then none else some last

  unfoldable pub cleanup : ℕ → NotificationDedup → NotificationDedup
  cleanup now d = record d { entries = λ k. kept d.cooldown now (d.entries k) }

  pub data Call : Type 0 where
    asks : DedupContext → ℕ → Call
    cleans : ℕ → Call

  unfoldable pub calls : List Call → NotificationDedup → NotificationDedup
  unfolding should_notify cleanup
  calls [] d = d
  calls (asks c now ∷ xs) d = calls xs (should_notify c now d).0
  calls (cleans now ∷ xs) d = calls xs (cleanup now d)
