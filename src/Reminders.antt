-- ===== src/Reminders.antt =====
-- packages/domain/src/reminder/planning.ts: the reminders of the end of a contract.
use contrats.Base.{
  ℕ, ◌+◌, ◌-◌, ◌*◌, ◌<◌, ◌≤◌, ◌≡◌, Option, none, some, List, [], ◌∷◌, map, leb, ◌==◌, if◌then◌else◌,
  All, arith, ◌⊎◌,
}
use contrats.Base.Instant.{Instant, day_ms}

pub data ReminderKind : Type 0 where
  expiry notice_deadline : ReminderKind

-- `REMINDER_STATUSES`
pub data ReminderStatus : Type 0 where
  pending sent skipped_obsolete cancelled failed : ReminderStatus

-- `EXPIRY_OFFSETS`
abbrev pub expiry_offsets : List ℕ
expiry_offsets = 90 ∷ 60 ∷ 30 ∷ []

pub record ReminderPlanInput : Type 0 where
  pub end_date : Option Instant
  pub notice_period_days : Option ℕ
  pub reminder_cycle : ℕ

pub record ReminderDraft : Type 0 where
  pub kind : ReminderKind
  pub offset_days : ℕ
  pub cycle : ℕ
  pub due_at : Instant
  pub status : ReminderStatus

-- `subDays`: `setUTCDate` carries whole days over and keeps the time of day.
abbrev sub_days : Instant → ℕ → Instant
sub_days d n = d - n * day_ms

-- `subDays(now, -n)`
abbrev add_days : Instant → ℕ → Instant
add_days d n = d + n * day_ms

expiry_draft : ReminderPlanInput → Instant → Instant → ℕ → ReminderDraft
expiry_draft c end_date now offset_days =
    let due_at = sub_days end_date offset_days in
    record {
      kind = expiry;
      offset_days = offset_days;
      cycle = c.reminder_cycle;
      due_at = due_at;
      status = if leb due_at now then skipped_obsolete else pending;
    }

-- The contract without an end: `!c.noticePeriodDays` holds of `null` and of 0.
notice_draft : ReminderPlanInput → Instant → Option ℕ → List ReminderDraft
notice_draft c now none = []
notice_draft c now (some days) =
    if days == 0
    then []
    else record {
      kind = notice_deadline;
      offset_days = days;
      cycle = c.reminder_cycle;
      due_at = add_days now days;
      status = pending;
    }
      ∷ []

plan_from : Option Instant → ReminderPlanInput → Instant → List ReminderDraft
unfolding expiry_draft notice_draft
plan_from none c now = notice_draft c now c.notice_period_days
plan_from (some end_date) c now = map (expiry_draft c end_date now) expiry_offsets

unfoldable pub plan_reminders : ReminderPlanInput → Instant → List ReminderDraft
unfolding plan_from
plan_reminders c now = plan_from c.end_date c now

pub record ReplanResult : Type 0 where
  pub new_cycle : ℕ
  pub cancel_previous_cycle : ℕ
  pub reminders : List ReminderDraft

unfoldable pub replan_after_end_date_change : ReminderPlanInput → Instant → ReplanResult
replan_after_end_date_change c now =
    let new_cycle = c.reminder_cycle + 1 in
    record {
      new_cycle = new_cycle;
      cancel_previous_cycle = c.reminder_cycle;
      reminders = plan_reminders (record c { reminder_cycle = new_cycle }) now;
    }

-- The key of the table's constraint UNIQUE (contract_id, kind, offset_days, cycle), for one contract.
abbrev pub SameKey : ReminderDraft → ReminderDraft → Type 0
SameKey r s = (r.kind ≡ s.kind) × (r.offset_days ≡ s.offset_days) × (r.cycle ≡ s.cycle)

abbrev pub HasNewKeys : List ReminderDraft → Type 0
HasNewKeys [] = Unit
HasNewKeys (r ∷ rs) = All (λ s. ¬ SameKey r s) rs × HasNewKeys rs

-- A contract with an end gets its three reminders whatever the date: each is due so many days
-- before the end, and is marked obsolete exactly when it is already due.
pub plan_reminders-expiry :
    (c : ReminderPlanInput) (end_date now : Instant)
    → c.end_date ≡ some end_date
    → 90 * day_ms ≤ end_date
    → (map (λ r. r.offset_days) (plan_reminders c now) ≡ expiry_offsets)
      × All
          (λ r.
            (r.due_at + r.offset_days * day_ms ≡ end_date)
            × ((r.status ≡ skipped_obsolete) × (r.due_at ≤ now)
                ⊎ (r.status ≡ pending) × (now < r.due_at)))
          (plan_reminders c now)
unfolding plan_reminders
plan_reminders-expiry c end_date now e far = ground arith

-- Within a plan no two reminders share a key, and a plan after a change of the end date shares none
-- with the cycle that it replaces: the rows can be inserted beside the old ones.
pub replan-HasNewKeys :
    (before after : ReminderPlanInput) (moment now : Instant)
    → after.reminder_cycle ≡ before.reminder_cycle
    → let replan = replan_after_end_date_change after now in
      HasNewKeys replan.reminders
      × (replan.cancel_previous_cycle ≡ before.reminder_cycle)
      × All (λ r. All (λ s. ¬ SameKey r s) (plan_reminders before moment)) replan.reminders
unfolding plan_reminders replan_after_end_date_change
replan-HasNewKeys before after moment now e = ground arith
