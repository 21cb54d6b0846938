-- ===== src/Contract/Deadlines/Listed.antt =====
-- No deadline that is due is left out.
use contrats.Base.{
  ◌≡◌, refl, sym, ap, ◌∙◌, ◌⊎◌, inl, inr, Bool, true, false, Option, some, List, [], ◌∷◌, ◌++◌,
}
use mathlib.Core.Path.{subst}
use contrats.Base.Instant.{Instant, day_of}
use contrats.Base.Result.{Result, ok, err, ◌>>=◌, bind-ok, ok-injective}
use contrats.Contract.Dates.{ChatelWindow, notice_deadline, chatel_notice_window}
use contrats.Contract.Deadlines.{
  DeadlineKind, period_end, notice_limit, price_revision, renewal_decision, chatel_notice,
  termination_effective, of_period, no_details, deadline, chatel_deadline, tacit, express,
  DeadlineFacts, ComputedDeadline, is_terminating, termination_deadlines, revision_deadlines,
  renewal_deadlines, notice_deadlines, period_deadlines, engaged_deadlines,
}
use contrats.Contract.Deadlines.Due.{
  IsDue, due_termination, due_end, due_notice, due_decision, due_chatel, due_revision, AreOrdered,
  AreDue, engaged_deadlines-AreDue,
}

-- The list has a deadline of this kind and date.
abbrev pub IsListed : DeadlineKind → Instant → List ComputedDeadline → Type 0
IsListed k d [] = ⊥
IsListed k d (x ∷ xs) = ((k ≡ x.kind) × (d ≡ x.due_date)) ⊎ IsListed k d xs

IsListed-right :
    (k : DeadlineKind) (d : Instant) (xs ys : List ComputedDeadline)
    → IsListed k d ys
    → IsListed k d (xs ++ ys)
IsListed-right k d [] ys h = h
IsListed-right k d (x ∷ xs) ys h = inr (IsListed-right k d xs ys h)

IsListed-left :
    (k : DeadlineKind) (d : Instant) (xs ys : List ComputedDeadline)
    → IsListed k d xs
    → IsListed k d (xs ++ ys)
IsListed-left k d [] ys h = elim h [ ]
IsListed-left k d (x ∷ xs) ys (inl e) = inl e
IsListed-left k d (x ∷ xs) ys (inr h) = inr (IsListed-left k d xs ys h)

bind-map :
    {E A B C : Type 0} (r : Result E A) (f : A → B) (g : B → C)
    → (r >>= (λ a. ok (f a))) >>= (λ b. ok (g b)) ≡ r >>= (λ a. ok (g (f a)))
bind-map (ok a) f g = refl
bind-map (err e) f g = refl

period_and_notice : Instant → Instant → List ComputedDeadline → List ComputedDeadline
period_and_notice end limit rest =
    deadline period_end end no_details ∷ deadline notice_limit limit (of_period (day_of end)) ∷ rest

period_deadlines-renewal :
    (f : DeadlineFacts) (end limit : Instant)
    → f.end_date ≡ some end
    → is_terminating f.status ≡ false
    → notice_deadline end f.notice ≡ ok limit
    → period_deadlines f f.end_date
      ≡ renewal_deadlines f.renewal_mode f.chatel_applies end f.notice limit
        >>= (λ rest. ok (period_and_notice end limit rest))
unfolding period_deadlines notice_deadlines period_and_notice
period_deadlines-renewal f end limit e s n = rw (e, n, s) (bind-map _ _ _)

decision-IsListed :
    (f : DeadlineFacts) (end limit : Instant) (xs : List ComputedDeadline)
    → f.renewal_mode ≡ express
    → renewal_deadlines f.renewal_mode f.chatel_applies end f.notice limit ≡ ok xs
    → IsListed renewal_decision limit xs
unfolding renewal_deadlines
decision-IsListed f end limit xs m h =
    subst (IsListed renewal_decision limit)
      (ok-injective (sym (ap (λ k. renewal_deadlines k f.chatel_applies end f.notice limit) m) ∙ h))
      (inl (refl, refl))

chatel-IsListed :
    (f : DeadlineFacts) (end limit : Instant) (xs : List ComputedDeadline) (w : ChatelWindow)
    → f.renewal_mode ≡ tacit
    → f.chatel_applies ≡ true
    → chatel_notice_window end f.notice ≡ ok w
    → renewal_deadlines f.renewal_mode f.chatel_applies end f.notice limit ≡ ok xs
    → IsListed chatel_notice w.earliest xs
unfolding renewal_deadlines
chatel-IsListed f end limit xs w m c window h =
    let e : renewal_deadlines f.renewal_mode f.chatel_applies end f.notice limit
        ≡ ok (chatel_deadline end w ∷ []) =
      rw (m, c, window) refl in
    subst (IsListed chatel_notice w.earliest) (ok-injective (sym e ∙ h)) (inl (refl, refl))

-- What a period that is not to be terminated asks for: its notice, and what follows from it.
after_notice :
    (f : DeadlineFacts) (end limit : Instant) (k : DeadlineKind) (d : Instant)
    (xs : List ComputedDeadline)
    → f.end_date ≡ some end
    → is_terminating f.status ≡ false
    → notice_deadline end f.notice ≡ ok limit
    → period_deadlines f f.end_date ≡ ok xs
    → ((rest : List ComputedDeadline)
        → renewal_deadlines f.renewal_mode f.chatel_applies end f.notice limit ≡ ok rest
        → IsListed k d (period_and_notice end limit rest))
    → IsListed k d xs
after_notice f end limit k d xs e s n h listed =
    let (rest, done, is) =
      bind-ok (renewal_deadlines f.renewal_mode f.chatel_applies end f.notice limit)
        (λ rest. ok (period_and_notice end limit rest))
        (sym (period_deadlines-renewal f end limit e s n) ∙ h) in
    subst (IsListed k d) (ok-injective is) (listed rest done)

end-IsListed :
    (f : DeadlineFacts) (end : Instant) (xs : List ComputedDeadline)
    → f.end_date ≡ some end
    → period_deadlines f f.end_date ≡ ok xs
    → IsListed period_end end xs
unfolding period_deadlines
end-IsListed f end xs e h =
    let h_end = sym (ap (period_deadlines f) e) ∙ h in
    let (limit, n, more) = bind-ok (notice_deadline end f.notice) _ h_end in
    let (rest, done, is) =
      bind-ok (notice_deadlines (is_terminating f.status) f end limit) _ more in
    subst (IsListed period_end end) (ok-injective is) (inl (refl, refl))

revision-IsListed :
    (date : Option Instant) (d : Instant)
    → date ≡ some d
    → IsListed price_revision d (revision_deadlines date)
revision-IsListed date d e = rw e (inl (refl, refl))

termination-IsListed :
    (terminating : Bool) (date : Option Instant) (d : Instant)
    → terminating ≡ true
    → date ≡ some d
    → IsListed termination_effective d (termination_deadlines terminating date)
termination-IsListed terminating date d s e = rw (s, e) (inl (refl, refl))

window_deadline :
    (f : DeadlineFacts) (end : Instant) (w : ChatelWindow)
    → chatel_notice_window end f.notice ≡ ok w
    → (limit : Instant) × (notice_deadline end f.notice ≡ ok limit)
unfolding chatel_notice_window
window_deadline f end w h =
    let (limit, n, _) = bind-ok (notice_deadline end f.notice) _ h in (limit, n)

-- The list of the three parts.
all_parts : DeadlineFacts → List ComputedDeadline → List ComputedDeadline
all_parts f period =
    termination_deadlines (is_terminating f.status) f.termination_effective_date
    ++ (period ++ revision_deadlines f.next_price_revision_date)

in_period :
    (f : DeadlineFacts) (period : List ComputedDeadline) (k : DeadlineKind) (d : Instant)
    → IsListed k d period
    → IsListed k d (all_parts f period)
unfolding all_parts
in_period f period k d h =
    IsListed-right k d
      (termination_deadlines (is_terminating f.status) f.termination_effective_date)
      (period ++ revision_deadlines f.next_price_revision_date)
      (IsListed-left k d period (revision_deadlines f.next_price_revision_date) h)

due-IsListed :
    (f : DeadlineFacts) (xs : List ComputedDeadline) (k : DeadlineKind) (d : Instant)
    → period_deadlines f f.end_date ≡ ok xs
    → IsDue f k d
    → IsListed k d (all_parts f xs)
unfolding period_and_notice all_parts
due-IsListed f xs _ d h (due_termination s e) =
    IsListed-left termination_effective d
      (termination_deadlines (is_terminating f.status) f.termination_effective_date)
      (xs ++ revision_deadlines f.next_price_revision_date)
      (termination-IsListed (is_terminating f.status) f.termination_effective_date d s e)
due-IsListed f xs _ d h (due_revision e) =
    IsListed-right price_revision d
      (termination_deadlines (is_terminating f.status) f.termination_effective_date)
      (xs ++ revision_deadlines f.next_price_revision_date)
      (IsListed-right price_revision d xs (revision_deadlines f.next_price_revision_date)
        (revision-IsListed f.next_price_revision_date d e))
due-IsListed f xs _ d h (due_end e) = in_period f xs period_end d (end-IsListed f d xs e h)
due-IsListed f xs _ d h (due_notice {end = end} e s n) =
    in_period f xs notice_limit d
      (after_notice f end d notice_limit d xs e s n h (λ rest done. inr (inl (refl, refl))))
due-IsListed f xs _ d h (due_decision {end = end} e s n m) = in_period f xs renewal_decision d (
    after_notice f end d renewal_decision d xs e s n h
      (λ rest done. inr (inr (decision-IsListed f end d rest m done))))
due-IsListed f xs _ _ h (due_chatel {end = end} {w = w} e s m c window) =
    let (limit, n) = window_deadline f end w window in
    in_period f xs chatel_notice w.earliest (
      after_notice f end limit chatel_notice w.earliest xs e s n h
        (λ rest done. inr (inr (chatel-IsListed f end limit rest w m c window done))))

-- The deadlines of a contract that binds its parties, when they are computed: each kind comes at most
-- once, and the kinds in one order; every one is due by the facts of the contract, and every one that
-- is due is there.
pub engaged_deadlines-AreExactlyDue :
    (f : DeadlineFacts) (xs : List ComputedDeadline)
    → engaged_deadlines f ≡ ok xs
    → AreOrdered 0 xs 6
      × AreDue f xs
      × ((k : DeadlineKind) (d : Instant) → IsDue f k d → IsListed k d xs)
unfolding engaged_deadlines all_parts
engaged_deadlines-AreExactlyDue f xs h =
    let (order, due) = engaged_deadlines-AreDue f xs h in
    let (period, done, is) = bind-ok (period_deadlines f f.end_date) (λ p. ok (all_parts f p)) h in
    (
      order,
      due,
      λ k d is_due. subst (IsListed k d) (ok-injective is) (due-IsListed f period k d done is_due),
    )
