-- ===== src/Availability/Shown.antt =====
-- The slots and the test of a start time together (availability.go): what a buyer is shown is
-- accepted when the buyer asks for it.
use wantmytime.Prelude.{
  ℕ, ◌+◌, ◌-◌, ◌*◌, ◌/◌, ◌%◌, ◌≤◌, ◌<◌, ◌≡◌, ◌==◌, inl, inr, refl, sym, ap, ◌∙◌, Bool, true, false,
  not, ◌&&◌, String, str_eq, Option, none, some, List, [], ◌++◌, ltb, arith, Bool-cases,
  Option-cases, lt→ltb, le→ltb_false, le→leb, eq→eqb, eqb→eq,
}
use wantmytime.Prelude.Time.{Time, Date, minute, hour, second}
use mathlib.Core.Path.{subst}
use wantmytime.Prelude.Options.{some_inj}
use wantmytime.Prelude.Tables.{
  any, keep_if, any-append, any-keep_if, any-map, All-map, any-implies, All, All-keep_if, Some,
  Some-any, Some-one, find-All,
}
use wantmytime.Store.Schema.{Db, AvailabilityOverride, CalendarBusyBlock}
use wantmytime.Store.Monad.{Session, ok, query, select, pure, ◌>>=◌}
use wantmytime.Availability.Zone.{Zone, Zones, midnight, add_days, wall_minute, weekday_of}
use wantmytime.Availability.Hours.{MinuteWindow}
use wantmytime.Availability.Slots.{
  Interval, SlotSeller, DayContext, clashes, ranges_overlap, busy, busy_in, reserved_between,
  busy_blocks_between, around, day_context, day_slots, weekly_windows, find_override, is_closed,
  replaced, replacement_of, order_by_start, window_texts, local_instants, seller_day_slots,
  horizon_day_slots, open_day_slots, windows_of_day, day_in_horizon, is_empty, slot_is_free,
}
use wantmytime.Availability.Scheduled.{
  calendar_conflict, in_zone, shows_start, windows_allow, window_allows, scan_window,
  valid_scheduled_time, allows, override_windows, or_false, or_false, check_scheduled,
  check_windows,
}
use wantmytime.Availability.Kept.{ok_inj}
use wantmytime.Availability.Ordered.{any-order_by_start, All-order_by_start}
use wantmytime.Availability.Counting.{or-true}
use wantmytime.Availability.Exact.{has_time, both_true, IsSlot, IsSlotOf, day_slots-IsSlot}
use wantmytime.Availability.Steady.{IsSteady, has_at, only_at}
use wantmytime.Availability.Saved.{IsQuarter, IsSaved, AreSaved, HasSavedHours, saved_read}

-- A database that answers every statement.
abbrev pub working : Db → Time → Session
working d now = record { db = d; faults = []; now = now }

has_time-any :
    (a : Time) (q : Time → Bool) (l : List Time) → has_time a l ≡ true → q a ≡ true → any q l ≡ true
has_time-any a q l h e = any-implies (λ x. x == a) q l (λ x f. ap q (eqb→eq x a f) ∙ e) h

and_true : (a b : Bool) → a ≡ true → b ≡ true → a && b ≡ true
and_true true b h k = k
and_true false b h k = h

not_both : (a b : Bool) → a && not b ≡ true → b ≡ true → ⊥
not_both true true h k = cc
not_both true false h k = cc
not_both false b h k = cc

-- The windows of the override or the weekly ones, whichever the test reads.
windows_run :
    (o : Option (List (String × String))) (f : Time → Db → List (String × String))
    (g : List (String × String) → Bool) (d : Db) (now : Time)
    → (or_false ((override_windows o (select f) >>= λ ws. pure (g ws)) (working d now))).0
      ≡ ok (g (replaced o (f now d)))
unfolding query select
windows_run none f g d now = refl
windows_run (some l) f g d now = refl

overlap_inside :
    (a b t e lo hi : ℕ)
    → lo ≤ t
    → e ≤ hi
    → ltb a e && ltb t b && ltb a b && ltb t e ≡ true
    → (ltb a hi && ltb lo b && ltb a b && ltb lo hi ≡ true) × (ltb t b && ltb a e ≡ true)
overlap_inside a b t e lo hi h k o = (ground (arith, h, k, o), ground (arith, o))

module _ (server : Zone) (seller : SlotSeller) (zones : Zones) (date : Date) (duration : ℕ)
    (t : Time) (d : Db) (now : Time) (slots : List Time)
    (known : zones seller.zone_name ≡ some seller.zone) (saved : HasSavedHours d)
    (steady : IsSteady seller.zone date)
    (shown : (seller_day_slots server seller (midnight seller.zone date) duration (working d now)).0
      ≡ ok slots)
    (listed : has_time t slots ≡ true) where
  abbrev base : Time
  base = midnight seller.zone date

  abbrev span : ℕ
  span = duration + seller.buffer

  -- The override of the date and the windows that hold on it.
  abbrev overridden : Option AvailabilityOverride
  overridden = find_override seller.id (seller.zone.date_of base) d

  abbrev weekly : List (String × String)
  weekly = weekly_windows seller.id (weekday_of (seller.zone.date_of base)) seller.zone_name d

  abbrev windows : List (String × String)
  windows = replaced (replacement_of overridden) (order_by_start weekly)

  base_date : seller.zone.date_of base ≡ date
  base_date = ap seller.zone.date_of (omega arith) ∙ steady.dated 0 (omega arith)

  abbrev taken : List Interval
  taken =
      reserved_between seller.id (around seller.zone base) now d
      ++ busy_blocks_between seller.id (around seller.zone base) d

  abbrev context : DayContext
  context = day_context server seller base now taken

  open_slots :
      (is_closed overridden ≡ false)
      × (has_time t (day_slots seller context duration windows) ≡ true)
  unfolding seller_day_slots horizon_day_slots windows_of_day open_day_slots query select
  open_slots = elim (Bool-cases (day_in_horizon seller now base)) [
    | inr e ↦ absurd (nothing (rw e at shown))
    | inl e ↦ elim (Bool-cases (is_closed overridden)) [
      | inl c ↦ absurd (nothing (rw (e, c) at shown))
      | inr c ↦ elim (Bool-cases (is_empty windows)) [
        | inl n ↦ absurd (nothing (rw (e, c, n) at shown))
        | inr n ↦ (c, ap (has_time t) (ok_inj (rw (e, c, n) at shown)) ∙ listed)
      ]
    ]
  ]
    where
      false-true : false ≡ true → ⊥
      false-true h = cc

      nothing : ok [] ≡ ok slots → ⊥
      nothing h = false-true (ap (has_time t) (ok_inj h) ∙ listed)

  -- The window and the step that the slot comes from.
  replaced-IsSaved :
      (o : Option (List (String × String)))
      → AreSaved o
      → All IsSaved (order_by_start weekly)
      → All IsSaved (replaced o (order_by_start weekly))
  replaced-IsSaved none h k = k
  replaced-IsSaved (some l) h k = h

  override-AreSaved : AreSaved (replacement_of overridden)
  unfolding find_override
  override-AreSaved = elim (Option-cases overridden) [
    | inl e ↦ rw e tt
    | inr (o, e) ↦ rw e (find-All _ _ d.availability_overrides saved.1 o e)
  ]

  weekly-IsSaved : All IsSaved weekly
  unfolding weekly_windows
  weekly-IsSaved = All-map IsSaved window_texts _ (All-keep_if _ _ d.availability_windows saved.0)

  windows-IsSaved : All IsSaved windows
  windows-IsSaved =
      replaced-IsSaved (replacement_of overridden) override-AreSaved
        (All-order_by_start IsSaved weekly weekly-IsSaved)

  from_windows : Some (IsSlot seller context duration t) windows
  from_windows = (day_slots-IsSlot seller context duration t windows).0 open_slots.1

  -- What a slot's window says of the slot.
  abbrev IsHeld : String × String → ℕ → Type 0
  IsHeld texts m =
      (m < 1440)
      × (m % 15 ≡ 0)
      × (t ≡ base + m * minute)
      × (m + span < 1440)
      × (slot_is_free seller context duration t ≡ true)
      × (allows seller.zone date m span t (scan_window texts) ≡ true)

  window_allowed :
      (w : MinuteWindow) (m : ℕ)
      → IsQuarter w
      → w.start ≤ m
      → m + span ≤ w.end
      → t ≡ base + m * minute
      → window_allows seller.zone date m span t w ≡ true
  unfolding window_allows
  window_allowed w m q after_start before_end instant =
      rw (le→ltb_false m w.start after_start, le→ltb_false w.end (m + span) before_end)
        (has_time-any (base + w.start * minute) _ (local_instants seller.zone date w.start)
          (has_at seller.zone date steady w.start (omega (arith, q.0, q.1)))
          (has_time-any (base + w.end * minute) _ (local_instants seller.zone date w.end)
            (has_at seller.zone date steady w.end q.1)
            (rw
              (
                lt→ltb (base + w.start * minute) (base + w.end * minute) (omega (arith, q.0)),
                le→leb (base + w.start * minute) t (omega (arith, instant, after_start)),
                le→leb (t + span * minute) (base + w.end * minute)
                    (omega (arith, instant, before_end)),
              )
              refl)))

  window-IsHeld :
      (texts : String × String) (w : MinuteWindow) (k : ℕ)
      → IsQuarter w
      → scan_window texts ≡ some w
      → IsSlotOf seller context duration t w k
      → IsHeld texts (w.start + 15 * k)
  window-IsHeld texts w k q scanned o =
      let m = w.start + 15 * k in
      let early : m < 1440 = omega (arith, o.0, q.1) in
      let instant = only_at seller.zone date steady m early t (rw base_date at o.1) in
      (
        early,
        omega (arith, q.2),
        instant,
        omega (arith, o.0, q.1),
        o.2,
        rw scanned (window_allowed w m q (omega arith) o.0 instant),
      )

  slot-IsHeld :
      (texts : String × String)
      → IsSlot seller context duration t texts
      → IsSaved texts
      → (m : ℕ) × IsHeld texts m
  slot-IsHeld texts (w, k, e, o) sv =
      let readers = saved_read texts sv in
      let same : w ≡ sv.0 = some_inj (sym e ∙ readers.0) in
      (
        sv.0.start + 15 * k,
        window-IsHeld texts sv.0 k sv.1 readers.1
            (subst (λ v. IsSlotOf seller context duration t v k) same o),
      )

  held : (texts : String × String) × (m : ℕ) × IsHeld texts m
  held =
      let r = Some-one _ _ windows from_windows windows-IsSaved in
      let h = slot-IsHeld r.0 r.1 r.2 in (r.0, h.0, h.1)

  -- The rest is of a minute at which the slot starts.
  module _ (m : ℕ) (early : m < 1440) (instant : t ≡ base + m * minute) where
    date_shown : seller.zone.date_of t ≡ date
    date_shown = ap seller.zone.date_of instant ∙ steady.dated (m * minute) (omega (arith, early))

    clock_shown : seller.zone.clock_of t ≡ m * minute
    clock_shown = ap seller.zone.clock_of instant ∙ steady.shown (m * minute) (omega (arith, early))

    minute_shown : wall_minute (seller.zone.clock_of t) ≡ m
    minute_shown = ap wall_minute clock_shown ∙ omega arith

    whole_minutes : m * minute / minute ≡ m
    whole_minutes = omega arith

    start_shown : m % 15 ≡ 0 → shows_start seller.zone (in_zone seller.zone t) t ≡ true
    start_shown quarter =
        rw
          (
            date_shown,
            clock_shown,
            eq→eqb (m * minute / second % 60) 0 (omega arith),
            eq→eqb (m * minute % second) 0 (omega arith),
            eq→eqb (m * minute / minute % 15) 0 (omega (arith, quarter)),
            whole_minutes,
            ap (λ x. has_time x (local_instants seller.zone date m)) instant,
            has_at seller.zone date steady m early,
          )
          refl

    after_looked : base - 24 * hour ≤ t
    after_looked = omega (arith, instant)

    base_clock : seller.zone.clock_of base ≡ 0
    base_clock = ap seller.zone.clock_of (omega arith) ∙ steady.shown 0 (omega arith)

    next_midnight : add_days seller.zone base 2 ≡ midnight seller.zone (date + 2)
    next_midnight =
        ap (λ x. seller.zone.instant (x + 2) (seller.zone.clock_of base)) base_date
        ∙ ap (seller.zone.instant (date + 2)) base_clock

    before_looked : m + span < 1440 → t + span * minute ≤ add_days seller.zone base 2
    before_looked before_end = rw next_midnight (omega (arith, instant, steady.ends, before_end))

    -- A busy block that overlaps the slot is among those that the slots were tested against.
    seen :
        m + span < 1440
        → (b : CalendarBusyBlock)
        → busy_in seller.id (record { start = t; end = t + span * minute }) b && true ≡ true
        → clashes t (t + span * minute) (busy b) && busy_in seller.id (around seller.zone base) b
          ≡ true
    unfolding ranges_overlap
    seen before_end b h =
        let whole = both_true _ _ h in
        let parts = both_true (str_eq b.seller_id seller.id) _ whole.0 in
        let r =
          overlap_inside b.busy_from b.busy_to t (t + span * minute) (base - 24 * hour)
            (add_days seller.zone base 2) after_looked (before_looked before_end) parts.1 in
        and_true _ _ r.1 (and_true _ _ parts.0 r.0)

    no_conflict :
        m + span < 1440
        → slot_is_free seller context duration t ≡ true
        → calendar_conflict seller.id (record { start = t; end = t + span * minute }) none d ≡ false
    unfolding calendar_conflict slot_is_free busy_blocks_between
    no_conflict before_end free =
        elim (Bool-cases
          (calendar_conflict seller.id (record { start = t; end = t + span * minute }) none d)) [
            | inr e ↦ e
            | inl e ↦ absurd (not_both _ _ free (clash e))
          ]
      where
        clash :
            calendar_conflict seller.id (record { start = t; end = t + span * minute }) none d
              ≡ true
            → any (clashes t (t + span * minute)) taken ≡ true
        clash e =
            any-append (clashes t (t + span * minute))
              (reserved_between seller.id (around seller.zone base) now d)
              (busy_blocks_between seller.id (around seller.zone base) d)
            ∙ or-true _ _ (
                any-map (clashes t (t + span * minute)) busy
                  (keep_if (busy_in seller.id (around seller.zone base)) d.calendar_busy_blocks)
                ∙ any-keep_if (λ b. clashes t (t + span * minute) (busy b))
                    (busy_in seller.id (around seller.zone base)) d.calendar_busy_blocks
                ∙ any-implies _ _ d.calendar_busy_blocks (seen before_end) e)

    allowed : windows_allow seller.zone (in_zone seller.zone t) span t windows ≡ true
    unfolding windows_allow
    allowed =
        Some-any (IsSlot seller context duration t) IsSaved _ windows
          (λ texts o sv. let r = slot-IsHeld texts o sv in allows_at texts r.0 r.1) from_windows
          windows-IsSaved
      where
        allows_at :
            (texts : String × String) (n : ℕ)
            → IsHeld texts n
            → allows seller.zone
                (seller.zone.date_of t)
                (wall_minute (seller.zone.clock_of t))
                span
                t
                (scan_window texts)
              ≡ true
        allows_at texts n h =
            let same : m ≡ n = omega (arith, instant, h.2) in
            rw (date_shown, minute_shown, same) h.5

    unsorted :
        windows_allow seller.zone
          (in_zone seller.zone t)
          span
          t
          (replaced (replacement_of overridden) weekly)
        ≡ true
    unfolding windows_allow
    unsorted = any_replaced (replacement_of overridden) allowed
      where
        any_replaced :
            (o : Option (List (String × String)))
            → windows_allow seller.zone
                (in_zone seller.zone t)
                span
                t
                (replaced o (order_by_start weekly))
              ≡ true
            → windows_allow seller.zone (in_zone seller.zone t) span t (replaced o weekly) ≡ true
        any_replaced none h = sym (any-order_by_start _ weekly) ∙ h
        any_replaced (some l) h = h

    same_date : seller.zone.date_of base ≡ seller.zone.date_of t
    same_date = base_date ∙ sym date_shown

    not_closed : is_closed (find_override seller.id (seller.zone.date_of t) d) ≡ false
    not_closed = ap (λ x. is_closed (find_override seller.id x d)) (sym same_date) ∙ open_slots.0

    accepted :
        m % 15 ≡ 0
        → m + span < 1440
        → slot_is_free seller context duration t ≡ true
        → (valid_scheduled_time zones seller.id seller.zone_name
            (in_zone seller.zone t)
            t
            span
            none
            (working d now)).0
          ≡ ok true
    unfolding valid_scheduled_time check_scheduled check_windows query select
    accepted quarter before_end free =
        rw
          (
            valid_scheduled_time,
            known,
            check_scheduled,
            no_conflict before_end free,
            start_shown quarter,
            check_windows,
            not_closed,
          )
          (windows_run (replacement_of (find_override seller.id (seller.zone.date_of t) d))
              (λ _ d.
                weekly_windows seller.id (weekday_of (seller.zone.date_of t)) seller.zone_name d)
              (windows_allow seller.zone (in_zone seller.zone t) span t) d now
            ∙ ap ok (
                ap
                  (λ x. windows_allow seller.zone (in_zone seller.zone t) span t (
                    replaced (replacement_of (find_override seller.id x d))
                      (weekly_windows seller.id (weekday_of x) seller.zone_name d)))
                  (sym same_date)
                ∙ unsorted))

  -- Each time that sellerDaySlots shows for a date is accepted by validScheduledTime in the same state of
  -- the tables, if all statements succeed, the hours in the tables are as the handlers save them, the
  -- zone's clock is not changed on the date, and the name of the zone is known.
  pub shown_slot_is_valid :
      (valid_scheduled_time zones seller.id seller.zone_name
        (in_zone seller.zone t)
        t
        span
        none
        (working d now)).0
      ≡ ok true
  shown_slot_is_valid = let (texts, m, h) = held in accepted m h.0 h.2 h.1 h.3 h.4
