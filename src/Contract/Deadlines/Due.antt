-- ===== src/Contract/Deadlines/Due.antt =====
-- Which deadlines there are, and in which order.
use contrats.Base.{
  All, ℕ, ◌+◌, ◌≤◌, ◌≡◌, refl, arith, Bool, true, false, Option, none, some, List, [], ◌∷◌, ◌++◌,
}
use mathlib.Core.Path.{subst}
use contrats.Base.Instant.{Instant}
use contrats.Base.Result.{ok, bind-ok, ok-injective}
use contrats.Contract.Dates.{ChatelWindow, notice_deadline, chatel_notice_window}
use contrats.Contract.Deadlines.{
  DeadlineKind, period_end, notice_limit, price_revision, renewal_decision, chatel_notice,
  termination_effective, RenewalMode, tacit, express, no_renewal, DeadlineFacts, ComputedDeadline,
  is_terminating, termination_deadlines, revision_deadlines, renewal_deadlines, notice_deadlines,
  period_deadlines, engaged_deadlines,
}

-- When a contract has a deadline of a kind, and on which date.
pub data IsDue (f : DeadlineFacts) : DeadlineKind → Instant → Type 0 where
  due_termination :
      {d : Instant}
      → is_terminating f.status ≡ true
      → f.termination_effective_date ≡ some d
      → IsDue f termination_effective d
  due_end : {end : Instant} → f.end_date ≡ some end → IsDue f period_end end
  due_notice :
      {end d : Instant}
      → f.end_date ≡ some end
      → is_terminating f.status ≡ false
      → notice_deadline end f.notice ≡ ok d
      → IsDue f notice_limit d
  due_decision :
      {end d : Instant}
      → f.end_date ≡ some end
      → is_terminating f.status ≡ false
      → notice_deadline end f.notice ≡ ok d
      → f.renewal_mode ≡ express
      → IsDue f renewal_decision d
  due_chatel :
      {end : Instant} {w : ChatelWindow}
      → f.end_date ≡ some end
      → is_terminating f.status ≡ false
      → f.renewal_mode ≡ tacit
      → f.chatel_applies ≡ true
      → chatel_notice_window end f.notice ≡ ok w
      → IsDue f chatel_notice w.earliest
  due_revision : {d : Instant} → f.next_price_revision_date ≡ some d → IsDue f price_revision d

-- The places of the kinds in a list of deadlines.
abbrev pub rank : DeadlineKind → ℕ
rank termination_effective = 0
rank period_end = 1
rank notice_limit = 2
rank renewal_decision = 3
rank chatel_notice = 4
rank price_revision = 5

-- The kinds come in this order, and none twice, from place `low` on and before place `high`.
abbrev pub AreOrdered : ℕ → List ComputedDeadline → ℕ → Type 0
AreOrdered low [] high = low ≤ high
AreOrdered low (x ∷ xs) high = (low ≤ rank x.kind) × AreOrdered (rank x.kind + 1) xs high

ordered_from :
    (a b c : ℕ) (xs : List ComputedDeadline) → a ≤ b → AreOrdered b xs c → AreOrdered a xs c
ordered_from a b c [] h k = omega arith
ordered_from a b c (x ∷ xs) h (from, rest) = (omega arith, rest)

ordered-++ :
    (a b c : ℕ) (xs ys : List ComputedDeadline)
    → AreOrdered a xs b
    → AreOrdered b ys c
    → AreOrdered a (xs ++ ys) c
ordered-++ a b c [] ys h k = ordered_from a b c ys h k
ordered-++ a b c (x ∷ xs) ys (from, rest) k = (from, ordered-++ (rank x.kind + 1) b c xs ys rest k)

All-++ :
    (P : ComputedDeadline → Type 0) (xs ys : List ComputedDeadline)
    → All P xs
    → All P ys
    → All P (xs ++ ys)
All-++ P [] ys h k = k
All-++ P (x ∷ xs) ys (p, h) k = (p, All-++ P xs ys h k)

abbrev pub AreDue : DeadlineFacts → List ComputedDeadline → Type 0
AreDue f = All (λ x. IsDue f x.kind x.due_date)

-- A part of the list: kinds from one place to another, all of them due.
abbrev IsPart : DeadlineFacts → ℕ → ℕ → List ComputedDeadline → Type 0
IsPart f low high xs = AreOrdered low xs high × AreDue f xs

IsPart-++ :
    (f : DeadlineFacts) (a b c : ℕ) (xs ys : List ComputedDeadline)
    → IsPart f a b xs
    → IsPart f b c ys
    → IsPart f a c (xs ++ ys)
IsPart-++ f a b c xs ys (o, d) (p, e) =
    (ordered-++ a b c xs ys o p, All-++ (λ x. IsDue f x.kind x.due_date) xs ys d e)

renewal-IsPart :
    (f : DeadlineFacts) (mode : RenewalMode) (chatel : Bool) (end limit : Instant)
    (xs : List ComputedDeadline)
    → f.renewal_mode ≡ mode
    → f.chatel_applies ≡ chatel
    → f.end_date ≡ some end
    → is_terminating f.status ≡ false
    → notice_deadline end f.notice ≡ ok limit
    → renewal_deadlines mode chatel end f.notice limit ≡ ok xs
    → IsPart f 3 5 xs
unfolding renewal_deadlines
renewal-IsPart f express chatel end limit xs m c e s n h =
    subst (IsPart f 3 5) (ok-injective h) ((omega arith, omega arith), (due_decision e s n m, tt))
renewal-IsPart f tacit true end limit xs m c e s n h =
    let (w, window, listed) = bind-ok (chatel_notice_window end f.notice) _ h in
    subst (IsPart f 3 5) (ok-injective listed)
      ((omega arith, omega arith), (due_chatel e s m c window, tt))
renewal-IsPart f tacit false end limit xs m c e s n h =
    subst (IsPart f 3 5) (ok-injective h) (omega arith, tt)
renewal-IsPart f no_renewal chatel end limit xs m c e s n h =
    subst (IsPart f 3 5) (ok-injective h) (omega arith, tt)

notice-IsPart :
    (f : DeadlineFacts) (terminating : Bool) (end limit : Instant) (xs : List ComputedDeadline)
    → f.end_date ≡ some end
    → is_terminating f.status ≡ terminating
    → notice_deadline end f.notice ≡ ok limit
    → notice_deadlines terminating f end limit ≡ ok xs
    → IsPart f 2 5 xs
unfolding notice_deadlines
notice-IsPart f true end limit xs e s n h = subst (IsPart f 2 5) (ok-injective h) (omega arith, tt)
notice-IsPart f false end limit xs e s n h =
    let (renewal, done, listed) =
      bind-ok (renewal_deadlines f.renewal_mode f.chatel_applies end f.notice limit) _ h in
    let (order, due) =
      renewal-IsPart f f.renewal_mode f.chatel_applies end limit renewal refl refl e s n done in
    subst (IsPart f 2 5) (ok-injective listed) ((omega arith, order), (due_notice e s n, due))

period-IsPart :
    (f : DeadlineFacts) (date : Option Instant) (xs : List ComputedDeadline)
    → f.end_date ≡ date
    → period_deadlines f date ≡ ok xs
    → IsPart f 1 5 xs
unfolding period_deadlines
period-IsPart f none xs e h = subst (IsPart f 1 5) (ok-injective h) (omega arith, tt)
period-IsPart f (some end) xs e h =
    let (limit, n, more) = bind-ok (notice_deadline end f.notice) _ h in
    let (rest, done, listed) =
      bind-ok (notice_deadlines (is_terminating f.status) f end limit) _ more in
    let (order, due) = notice-IsPart f (is_terminating f.status) end limit rest e refl n done in
    subst (IsPart f 1 5) (ok-injective listed) ((omega arith, order), (due_end e, due))

termination-IsPart :
    (f : DeadlineFacts) (terminating : Bool) (date : Option Instant)
    → is_terminating f.status ≡ terminating
    → f.termination_effective_date ≡ date
    → IsPart f 0 1 (termination_deadlines terminating date)
termination-IsPart f true (some d) s e = ((omega arith, omega arith), (due_termination s e, tt))
termination-IsPart f true none s e = (omega arith, tt)
termination-IsPart f false date s e = (omega arith, tt)

revision-IsPart :
    (f : DeadlineFacts) (date : Option Instant)
    → f.next_price_revision_date ≡ date
    → IsPart f 5 6 (revision_deadlines date)
revision-IsPart f (some d) e = ((omega arith, omega arith), (due_revision e, tt))
revision-IsPart f none e = (omega arith, tt)

-- The deadlines of a contract, whatever it is: each kind at most once, and in one order, and each
-- for a fact of the contract that is due.
pub engaged_deadlines-AreDue :
    (f : DeadlineFacts) (xs : List ComputedDeadline)
    → engaged_deadlines f ≡ ok xs
    → AreOrdered 0 xs 6 × AreDue f xs
unfolding engaged_deadlines
engaged_deadlines-AreDue f xs h =
    let (period, done, listed) = bind-ok (period_deadlines f f.end_date) _ h in
    let last =
      IsPart-++ f 1 5 6 period (revision_deadlines f.next_price_revision_date)
        (period-IsPart f f.end_date period refl done)
        (revision-IsPart f f.next_price_revision_date refl) in
    subst (IsPart f 0 6) (ok-injective listed) (
      IsPart-++ f 0 1 6
        (termination_deadlines (is_terminating f.status) f.termination_effective_date)
        (period ++ revision_deadlines f.next_price_revision_date)
        (termination-IsPart f (is_terminating f.status) f.termination_effective_date refl refl)
        last)
