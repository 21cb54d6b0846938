-- ===== src/Pricing/Schedule.antt =====
-- packages/pricing/src/schedule.ts: the version of a schedule that applies on a date. The lines of a
-- schedule are of any type: the choice does not look at them.
use contrats.Base.{
  Bool, true, false, not, ◌&&◌, ◌≡◌, refl, ap, ◌∙◌, Option, none, some, List, [], ◌∷◌, All, map,
  keep, filter, ◌↔◌,
}
use contrats.Base.Text.{Text}
use contrats.Base.Order.{text_ltb}
use contrats.Base.Result.{
  Result, ok, err, refuse, ◌>>=◌, ◌>>◌, is_ok, is_ok-cases, then-ok, bind-ok, ok-injective,
  checked_iff, refuse_iff,
}
use contrats.Pricing.Dates.{
  PricingError, inverted_period, no_schedule, overlapping_schedules, parse_iso_date,
}

module _ (Line : Type 0) where
  pub record PricingSchedule : Type 0 where
    pub id : Text
    pub valid_from : Text
    pub valid_to : Option Text
    pub currency : Text
    pub lines : List Line

  -- The checks on a schedule that the test of the filter makes before it answers.
  check_end : PricingSchedule → Option Text → Result PricingError (Unit {0})
  check_end s none = ok tt
  check_end s (some valid_to) = do
    to ← parse_iso_date valid_to
    refuse (text_ltb valid_to s.valid_from) (inverted_period s.id)

  abbrev ends_after : Option Text → Text → Bool
  ends_after none date = true
  ends_after (some valid_to) date = not (text_ltb valid_to date)

  -- `s.validFrom <= date && (s.validTo === null || date <= s.validTo)`
  abbrev pub applies : Text → PricingSchedule → Bool
  applies date s = not (text_ltb date s.valid_from) && ends_after s.valid_to date

  check_schedule : PricingSchedule → Result PricingError (Unit {0})
  unfolding check_end
  check_schedule s = do from ← parse_iso_date s.valid_from; check_end s s.valid_to

  matching : Text → List PricingSchedule → Result PricingError (List PricingSchedule)
  unfolding check_schedule
  matching date [] = ok []
  matching date (s ∷ schedules) = do
    check_schedule s
    rest ← matching date schedules
    ok (keep (applies date s) s rest)

  choose : Text → List PricingSchedule → Result PricingError PricingSchedule
  choose date [] = err (no_schedule date)
  choose date (s ∷ []) = ok s
  choose date (s ∷ t ∷ schedules) =
      err (overlapping_schedules date (map (λ x. x.id) (s ∷ t ∷ schedules)))

  unfoldable pub select_schedule : List PricingSchedule → Text → Result PricingError PricingSchedule
  unfolding matching choose
  select_schedule schedules date = do
    day ← parse_iso_date date
    found ← matching date schedules
    choose date found

  -- The dates of a schedule are dates, and it does not end before it begins.
  abbrev pub EndsInOrder : PricingSchedule → Option Text → Type 0
  EndsInOrder s none = Unit
  EndsInOrder s (some valid_to) =
      (is_ok (parse_iso_date valid_to) ≡ true) × (text_ltb valid_to s.valid_from ≡ false)

  abbrev pub IsDated : PricingSchedule → Type 0
  IsDated s = (is_ok (parse_iso_date s.valid_from) ≡ true) × EndsInOrder s s.valid_to

  check_end-EndsInOrder :
      (s : PricingSchedule) (valid_to : Option Text)
      → (check_end s valid_to ≡ ok tt) ↔ EndsInOrder s valid_to
  unfolding check_end
  check_end-EndsInOrder s none = (λ h. tt, λ h. refl)
  check_end-EndsInOrder s (some valid_to) =
      let late = text_ltb valid_to s.valid_from in
      let (there, back) =
        checked_iff (parse_iso_date valid_to) (refuse late (inverted_period s.id)) in
      (
        λ h. ((there h).0, (refuse_iff late (inverted_period s.id)).0 (there h).1),
        λ h. back (h.0, (refuse_iff late (inverted_period s.id)).1 h.1),
      )

  check-IsDated : (s : PricingSchedule) → (check_schedule s ≡ ok tt) ↔ IsDated s
  unfolding check_schedule
  check-IsDated s =
      let (there, back) = checked_iff (parse_iso_date s.valid_from) (check_end s s.valid_to) in
      let (out, in_order) = check_end-EndsInOrder s s.valid_to in
      (λ h. ((there h).0, out (there h).1), λ h. back (h.0, in_order h.1))

  matching_sound :
      (date : Text) (schedules : List PricingSchedule) {found : List PricingSchedule}
      → matching date schedules ≡ ok found
      → All IsDated schedules × (filter (applies date) schedules ≡ found)
  unfolding matching
  matching_sound date [] h = (tt, ok-injective h)
  matching_sound date (s ∷ schedules) h =
      let collect : List PricingSchedule → Result PricingError (List PricingSchedule) =
        λ rest. ok (keep (applies date s) s rest) in
      let (dated, k) = then-ok (check_schedule s) (matching date schedules >>= collect) h in
      let (rest, m, e) = bind-ok (matching date schedules) collect k in
      let (all, same) = matching_sound date schedules m in
      (((check-IsDated s).0 dated, all), ap (keep (applies date s) s) same ∙ ok-injective e)

  matching_complete :
      (date : Text) (schedules : List PricingSchedule)
      → All IsDated schedules
      → matching date schedules ≡ ok (filter (applies date) schedules)
  unfolding matching
  matching_complete date [] h = refl
  matching_complete date (s ∷ schedules) h =
      rw ((check-IsDated s).1 h.0) (rw (matching_complete date schedules h.1) refl)

  choose_one :
      (date : Text) (found : List PricingSchedule) {s : PricingSchedule}
      → choose date found ≡ ok s
      → found ≡ s ∷ []
  unfolding choose
  choose_one date [] h = cc
  choose_one date (t ∷ []) h = ap (λ x. x ∷ []) (ok-injective h)
  choose_one date (t ∷ u ∷ found) h = cc

  select_sound :
      (schedules : List PricingSchedule) (date : Text) {s : PricingSchedule}
      → select_schedule schedules date ≡ ok s
      → (is_ok (parse_iso_date date) ≡ true)
        × All IsDated schedules
        × (filter (applies date) schedules ≡ s ∷ [])
  unfolding select_schedule
  select_sound schedules date h =
      let (day, parsed, k) =
        bind-ok (parse_iso_date date) (λ day. matching date schedules >>= choose date) h in
      let (found, m, one) = bind-ok (matching date schedules) (choose date) k in
      let (dated, same) = matching_sound date schedules m in
      (ap is_ok parsed, dated, same ∙ choose_one date found one)

  -- With valid dates the choice looks at the schedules that apply, and at nothing else.
  select_dated :
      (schedules : List PricingSchedule) (date : Text)
      → is_ok (parse_iso_date date) ≡ true
      → All IsDated schedules
      → select_schedule schedules date ≡ choose date (filter (applies date) schedules)
  unfolding select_schedule
  select_dated schedules date d h =
      let (day, parsed) = is_ok-cases (parse_iso_date date) d in
      rw parsed (rw (matching_complete date schedules h) refl)

  -- The choice succeeds exactly when the date and all the schedules are well dated and one schedule
  -- alone applies on the date, and gives that one: its place in the list plays no part.
  pub select_schedule-ok :
      (schedules : List PricingSchedule) (date : Text) (s : PricingSchedule)
      → (select_schedule schedules date ≡ ok s) ↔ (
          (is_ok (parse_iso_date date) ≡ true)
          × All IsDated schedules
          × (filter (applies date) schedules ≡ s ∷ []))
  unfolding choose
  select_schedule-ok schedules date s =
      (select_sound schedules date, λ h. select_dated schedules date h.0 h.1 ∙ ap (choose date) h.2)

  -- Among well dated schedules, a date on which none applies is refused as such, and one on which
  -- several apply is refused with the identifiers of all of them.
  pub select_schedule-err :
      (schedules : List PricingSchedule) (date : Text)
      → is_ok (parse_iso_date date) ≡ true
      → All IsDated schedules
      → (filter (applies date) schedules ≡ []
          → select_schedule schedules date ≡ err (no_schedule date))
        × ((s t : PricingSchedule) (others : List PricingSchedule)
            → filter (applies date) schedules ≡ s ∷ t ∷ others
            → select_schedule schedules date
              ≡ err (overlapping_schedules date (map (λ x. x.id) (s ∷ t ∷ others))))
  unfolding choose
  select_schedule-err schedules date d h = (
    λ e. select_dated schedules date d h ∙ ap (choose date) e,
    λ s t others e. select_dated schedules date d h ∙ ap (choose date) e,
  )
