-- ===== src/Availability/Steady.antt =====
-- A date on which the clock of a zone is not changed: localInstants (availability.go) finds each
-- minute of it once.
use wantmytime.Prelude.{
  ℕ, ap, ◌∙◌, ◌+◌, ◌-◌, ◌*◌, ◌/◌, ◌%◌, ◌≤◌, ◌<◌, ◌≡◌, ◌==◌, refl, sym, true, ◌&&◌, arith, eqb→eq,
  eq→eqb,
}
use wantmytime.Prelude.Time.{Time, Date, minute, hour, day}
use wantmytime.Prelude.Tables.{any-keep_if}
use wantmytime.Availability.Zone.{Zone, midnight, wall_minute}
use wantmytime.Availability.Slots.{local_instants, candidates, shows}
use wantmytime.Availability.Counting.{count_up-visits, visits-count_up}
use wantmytime.Availability.Exact.{has_time, any_at, both_true}

-- The date is the 24 hours from its midnight, its clock starts at 0 and runs, and the date after
-- next does not start before the date has ended.
pub record IsSteady (zone : Zone) (date : Date) : Type 0 where
  pub begins : 4 * hour ≤ midnight zone date
  pub dated : (clock : ℕ) → clock < day → zone.date_of (midnight zone date + clock) ≡ date
  pub in_day :
      (t : Time) → zone.date_of t ≡ date → (midnight zone date ≤ t) × (t < midnight zone date + day)
  pub shown : (clock : ℕ) → clock < day → zone.clock_of (midnight zone date + clock) ≡ clock
  pub picked : (clock : ℕ) → clock < day → zone.instant date clock ≡ midnight zone date + clock
  pub ends : midnight zone date + day ≤ midnight zone (date + 2)

shows_parts :
    (zone : Zone) (date : Date) (m : ℕ) (t : Time)
    → shows zone date m t ≡ true
    → (zone.date_of t ≡ date) × (wall_minute (zone.clock_of t) ≡ m)
shows_parts zone date m t h =
    let outer = both_true _ _ h in
    let inner = both_true _ _ outer.0 in (eqb→eq _ _ inner.0, eqb→eq _ _ inner.1)

module _ (zone : Zone) (date : Date) (steady : IsSteady zone date) (m : ℕ)
    (m_in_day : m < 1440) where
  abbrev pub at : Time
  at = midnight zone date + m * minute

  picked_at : zone.instant date (m * minute) ≡ at
  picked_at = steady.picked (m * minute) (omega (arith, m_in_day))

  shows-at : shows zone date m at ≡ true
  shows-at =
      let c = m * minute in
      rw
        (
          steady.dated c (omega (arith, m_in_day)),
          steady.shown c (omega (arith, m_in_day)),
          eq→eqb date date refl,
          eq→eqb (c / minute) m (omega arith),
          eq→eqb (c / 1_000_000_000 % 60) 0 (omega arith),
        )
        refl

  abbrev from : Time
  from = zone.instant date (m * minute) - 4 * hour

  sixteen : from + 15 * minute * 16 ≡ at
  sixteen = omega (arith, picked_at, steady.begins)

  kept :
      (t : Time)
      → has_time t (local_instants zone date m)
        ≡ has_time t (candidates (zone.instant date (m * minute))) && shows zone date m t
  unfolding local_instants
  kept t =
      any-keep_if (λ x. x == t) (shows zone date m) (candidates (zone.instant date (m * minute)))
      ∙ any_at t (shows zone date m) (candidates (zone.instant date (m * minute)))

  pub has_at : has_time at (local_instants zone date m) ≡ true
  has_at =
      kept at
      ∙ rw
          (
            shows-at,
            visits-count_up (λ x. x == at) (15 * minute) 0
                (zone.instant date (m * minute) + 4 * hour) 33 16 from (omega arith)
                (omega (arith, sixteen, picked_at)) (eq→eqb (from + 15 * minute * 16) at sixteen),
          )
          refl

  pub only_at : (t : Time) → has_time t (local_instants zone date m) ≡ true → t ≡ at
  only_at t h =
      let b = both_true _ _ (sym (kept t) ∙ h) in
      let r =
        count_up-visits (λ x. x == t) (15 * minute) 0 (zone.instant date (m * minute) + 4 * hour) 33
          from b.0 in
      let e = eqb→eq (from + 15 * minute * r.0) t r.2 in
      let shown = shows_parts zone date m t b.1 in
      let bounds = steady.in_day t shown.0 in
      let base = midnight zone date in
      let clock : zone.clock_of t ≡ t - base =
        ap zone.clock_of (omega (arith, bounds.0))
        ∙ steady.shown (t - base) (omega (arith, bounds.0, bounds.1)) in
      let m_shown : wall_minute (t - base) ≡ m = sym (ap wall_minute clock) ∙ shown.1 in
      omega (arith, e, r.1, m_shown, bounds.0, sixteen, picked_at)
