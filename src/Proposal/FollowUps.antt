-- ===== src/Proposal/FollowUps.antt =====
-- packages/domain/src/proposal/follow-ups.ts: automatic reminders of a proposal.
-- A difference of instants is compared by moving the subtrahend to the other side, since numbers
-- do not go below 0; an instant before the first that a `Date` holds counts as that first one.
use contrats.Base.{
  ℕ, ◌+◌, ◌-◌, ◌*◌, ◌<◌, ◌≤◌, ◌≡◌, Bool, true, false, not, ◌&&◌, ◌||◌, Option, none, some, List, [],
  ◌∷◌, filter, ltb, leb, is_some, if◌then◌else◌, All, arith, ◌⊎◌,
}
use contrats.Base.Instant.{Instant, day_ms}
use contrats.Proposal.Types.{ProposalStatus, sent, viewed}

pub data FollowUpKind : Type 0 where
  no_open no_decision before_expiry : FollowUpKind

pub record FollowUpConfig : Type 0 where
  pub no_open_after_days : ℕ
  pub no_decision_after_days : ℕ
  pub before_expiry_days : ℕ

-- `DEFAULT_FOLLOW_UPS`
abbrev pub default_follow_ups : FollowUpConfig
default_follow_ups = record {
  no_open_after_days = 3;
  no_decision_after_days = 7;
  before_expiry_days = 2;
}

-- `FOLLOW_UP_MIN_SPACING_MS`, 48 hours
abbrev pub follow_up_min_spacing_ms : ℕ
follow_up_min_spacing_ms = 48 * 3600 * 1000

pub record PlannedFollowUp : Type 0 where
  pub kind : FollowUpKind
  pub due_at : Instant

unfoldable pub plan_follow_ups : Instant → Instant → FollowUpConfig → List PlannedFollowUp
plan_follow_ups sent_at expires_at cfg =
    filter (λ p. ltb sent_at p.due_at && ltb p.due_at expires_at)
      (record { kind = no_open; due_at = sent_at + cfg.no_open_after_days * day_ms }
        ∷ record { kind = no_decision; due_at = sent_at + cfg.no_decision_after_days * day_ms }
        ∷ record { kind = before_expiry; due_at = expires_at - cfg.before_expiry_days * day_ms }
        ∷ [])

pub record FollowUpContext : Type 0 where
  pub status : ProposalStatus
  pub enabled : Bool
  pub first_viewed_at : Option Instant
  pub client_responded_at : Option Instant
  pub last_follow_up_sent_at : Option Instant
  pub expires_at : Option Instant

-- The `reason` of a SKIP.
pub data SkipReason : Type 0 where
  disabled : SkipReason
  wrong_status : ProposalStatus → SkipReason
  client_responded past_expiry already_opened : SkipReason

pub data FollowUpDecision : Type 0 where
  send : FollowUpDecision
  skip : SkipReason → FollowUpDecision
  postpone : Instant → FollowUpDecision

abbrev is_sent : ProposalStatus → Bool
is_sent sent = true
is_sent _ = false

abbrev is_viewed : ProposalStatus → Bool
is_viewed viewed = true
is_viewed _ = false

abbrev is_no_open : FollowUpKind → Bool
is_no_open no_open = true
is_no_open _ = false

-- `expiresAt && expiresAt <= now`
abbrev has_expired : Option Instant → Instant → Bool
has_expired none now = false
has_expired (some expires_at) now = leb expires_at now

-- The last `if` of `decideFollowUp`.
decide_spacing : Option Instant → Instant → FollowUpDecision
decide_spacing none now = send
decide_spacing (some last) now =
    if ltb now (last + follow_up_min_spacing_ms)
    then postpone (last + follow_up_min_spacing_ms)
    else send

unfoldable pub decide_follow_up : FollowUpKind → FollowUpContext → Instant → FollowUpDecision
unfolding decide_spacing
decide_follow_up kind ctx now =
    if not ctx.enabled
    then skip disabled
    else if not (is_sent ctx.status) && not (is_viewed ctx.status)
    then skip (wrong_status ctx.status)
    else if is_some ctx.client_responded_at
    then skip client_responded
    else if has_expired ctx.expires_at now
    then skip past_expiry
    else if is_no_open kind && (is_some ctx.first_viewed_at || not (is_sent ctx.status))
    then skip already_opened
    else decide_spacing ctx.last_follow_up_sent_at now

-- Every planned reminder falls strictly between the dispatch and the expiry.
pub plan_follow_ups_bounds :
    (sent_at expires_at : Instant) (cfg : FollowUpConfig)
    → All
        (λ p. (sent_at < p.due_at) × (p.due_at < expires_at))
        (plan_follow_ups sent_at expires_at cfg)
unfolding plan_follow_ups
plan_follow_ups_bounds sent_at expires_at cfg = ground arith

-- The last reminder, if there was one, lies 48 hours back.
abbrev pub IsSpaced : Option Instant → Instant → Type 0
IsSpaced none now = Unit
IsSpaced (some last) now = last + follow_up_min_spacing_ms ≤ now

abbrev pub IsUnexpired : Option Instant → Instant → Type 0
IsUnexpired none now = Unit
IsUnexpired (some expires_at) now = now < expires_at

-- A reminder that is sent is one that is enabled, for a proposal that was sent or viewed, to which
-- the client has not responded and which has not expired, at least 48 hours after the one before;
-- and one about an unopened proposal goes only to a client who has not opened it.
pub decide_follow_up-send :
    (kind : FollowUpKind) (ctx : FollowUpContext) (now : Instant)
    → decide_follow_up kind ctx now ≡ send
    → (ctx.enabled ≡ true)
      × ((ctx.status ≡ sent) ⊎ (ctx.status ≡ viewed))
      × (ctx.client_responded_at ≡ none)
      × IsUnexpired ctx.expires_at now
      × IsSpaced ctx.last_follow_up_sent_at now
      × (kind ≡ no_open → (ctx.status ≡ sent) × (ctx.first_viewed_at ≡ none))
unfolding decide_follow_up
decide_follow_up-send kind ctx now h =
    (ground arith, ground arith, ground arith, ground arith, ground arith, λ e. ground arith)

-- A postponement moves a reminder to a later instant, at which it is not postponed again: in the
-- same context it is then sent, or skipped because the proposal has expired.
pub decide_follow_up-postpone :
    (kind : FollowUpKind) (ctx : FollowUpContext) (now until : Instant)
    → decide_follow_up kind ctx now ≡ postpone until
    → (now < until)
      × ((decide_follow_up kind ctx until ≡ send)
          ⊎ (decide_follow_up kind ctx until ≡ skip past_expiry))
unfolding decide_follow_up
decide_follow_up-postpone kind ctx now until h = ground arith
