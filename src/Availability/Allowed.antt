-- ===== src/Availability/Allowed.antt =====
-- Which times a buyer is shown (availability.go): sellerDaySlots and localInstants against a
-- description in numbers.
use wantmytime.Prelude.{
  ℕ, ◌∙◌, ◌+◌, ◌-◌, ◌*◌, ◌/◌, ◌%◌, ◌≤◌, ◌≡◌, ◌==◌, ◌↔◌, ◌⊎◌, inl, inr, refl, sym, true, false, ◌&&◌,
  String, some, List, [], ◌∷◌, ltb, arith, Bool-cases, eqb→eq, eq→eqb,
}
use wantmytime.Prelude.Time.{Time, Date, minute, hour}
use wantmytime.Prelude.Tables.{any, any-keep_if, All, Some, Some-map}
use wantmytime.Availability.Zone.{Zone, wall_minute}
use wantmytime.Availability.Hours.{MinuteWindow}
use wantmytime.Availability.Slots.{
  Interval, SlotSeller, DayContext, clashes, shows, candidates, local_instants, slot_is_free,
  read_window, day_slots,
}
use wantmytime.Availability.Counting.{count_up-visits, visits-count_up}
use wantmytime.Availability.Exact.{has_time, any_at, both_true, IsSlot, day_slots-IsSlot}

-- The clock of the zone shows the minute m of the date at t, and t is some quarters of an hour after
-- the instant four hours before the one that time.Date picks, and not more than four hours after it.
abbrev pub ShowsMinute : Zone → Date → ℕ → Time → Type 0
ShowsMinute zone date m t =
    (j : ℕ) × (zone.instant date (m * minute) - 4 * hour + 15 * minute * j ≡ t)
    × (t ≤ zone.instant date (m * minute) + 4 * hour)
    × (zone.date_of t ≡ date)
    × (wall_minute (zone.clock_of t) ≡ m)
    × (zone.clock_of t / 1_000_000_000 % 60 ≡ 0)

-- From t to `end` nothing else takes place.
abbrev pub IsApart : Time → Time → Interval → Type 0
IsApart t end b = (b.end ≤ t) ⊎ (end ≤ b.start)

-- t is not before the first start and not after the last one, the conversation and the buffer end on
-- the date, and nothing that occupies the seller overlaps them.
abbrev pub IsFree : SlotSeller → DayContext → ℕ → Time → Type 0
IsFree seller c duration t =
    (c.min_start ≤ t)
    × (t ≤ c.max_start)
    × (seller.zone.date_of (t + (duration + seller.buffer) * minute) ≡ c.date)
    × All (IsApart t (t + (duration + seller.buffer) * minute)) c.occupied_by

-- A start k quarters of an hour after that of a window, such that the conversation and the buffer end
-- with the window.
abbrev pub IsAllowed : SlotSeller → DayContext → ℕ → Time → String × String → Type 0
IsAllowed seller c duration t texts =
    (w : MinuteWindow) × (k : ℕ) × (read_window texts ≡ some w)
    × (w.start + 15 * k + (duration + seller.buffer) ≤ w.end)
    × ShowsMinute seller.zone c.date (w.start + 15 * k) t
    × IsFree seller c duration t

none_clash-IsApart :
    (t end : Time) (l : List Interval) → any (clashes t end) l ≡ false → All (IsApart t end) l
none_clash-IsApart t end [] h = tt
none_clash-IsApart t end (b ∷ l) h = elim (Bool-cases (ltb t b.end)) [
  | inr e ↦ (inl (ground (arith, e)), none_clash-IsApart t end l (ground (arith, h)))
  | inl e ↦ (inr (ground (arith, e, h)), none_clash-IsApart t end l (ground (arith, h)))
]

IsApart-none_clash :
    (t end : Time) (l : List Interval) → All (IsApart t end) l → any (clashes t end) l ≡ false
IsApart-none_clash t end [] h = refl
IsApart-none_clash t end (b ∷ l) (inl a, h) = ground (arith, a, IsApart-none_clash t end l h)
IsApart-none_clash t end (b ∷ l) (inr a, h) = ground (arith, a, IsApart-none_clash t end l h)

module _ (seller : SlotSeller) (c : DayContext) (duration : ℕ) (t : Time) where
  slot_is_free-IsFree : slot_is_free seller c duration t ≡ true → IsFree seller c duration t
  unfolding slot_is_free
  slot_is_free-IsFree h =
      let end = t + (duration + seller.buffer) * minute in
      (
        ground (arith, h),
        ground (arith, h),
        eqb→eq (seller.zone.date_of end) c.date (ground (arith, h)),
        none_clash-IsApart t end c.occupied_by (ground (arith, h)),
      )

  IsFree-slot_is_free : IsFree seller c duration t → slot_is_free seller c duration t ≡ true
  unfolding slot_is_free
  IsFree-slot_is_free (early, late, dated, apart) =
      let end = t + (duration + seller.buffer) * minute in
      let same = eq→eqb (seller.zone.date_of end) c.date dated in
      let none = IsApart-none_clash t end c.occupied_by apart in
      ground (arith, early, late, same, none)

module _ (zone : Zone) (date : Date) (m : ℕ) (t : Time) where
  local_instants-has :
      has_time t (local_instants zone date m)
      ≡ has_time t (candidates (zone.instant date (m * minute))) && shows zone date m t
  unfolding local_instants
  local_instants-has =
      any-keep_if (λ x. x == t) (shows zone date m) (candidates (zone.instant date (m * minute)))
      ∙ any_at t (shows zone date m) (candidates (zone.instant date (m * minute)))

  listed_shows : has_time t (local_instants zone date m) ≡ true → ShowsMinute zone date m t
  listed_shows h =
      let center = zone.instant date (m * minute) in
      let (near, shown) = both_true _ _ (sym local_instants-has ∙ h) in
      let (j, bound, same) =
        count_up-visits (λ x. x == t) (15 * minute) 0 (center + 4 * hour) 33 (center - 4 * hour)
          near in
      let there = eqb→eq _ t same in
      (
        j,
        there,
        omega (arith, there, bound),
        eqb→eq _ date (ground (arith, shown)),
        eqb→eq _ m (ground (arith, shown)),
        eqb→eq _ 0 (ground (arith, shown)),
      )

  shows_listed : ShowsMinute zone date m t → has_time t (local_instants zone date m) ≡ true
  shows_listed (j, there, bound, dated, minuted, whole) =
      let center = zone.instant date (m * minute) in
      let near =
        visits-count_up (λ x. x == t) (15 * minute) 0 (center + 4 * hour) 33 j (center - 4 * hour)
          (omega (arith, there, bound)) (omega (arith, there, bound)) (eq→eqb _ t there) in
      local_instants-has ∙ rw (near, eq→eqb _ date dated, eq→eqb _ m minuted, eq→eqb _ 0 whole) refl

module _ (seller : SlotSeller) (c : DayContext) (duration : ℕ) (t : Time) where
  to_allowed :
      (texts : String × String)
      → IsSlot seller c duration t texts
      → IsAllowed seller c duration t texts
  to_allowed texts (w, k, read, (room, shown, free)) = (
    w,
    k,
    read,
    room,
    listed_shows seller.zone c.date _ t shown,
    slot_is_free-IsFree seller c duration t free,
  )

  from_allowed :
      (texts : String × String)
      → IsAllowed seller c duration t texts
      → IsSlot seller c duration t texts
  from_allowed texts (w, k, read, room, shown, free) = (
    w,
    k,
    read,
    (room, shows_listed seller.zone c.date _ t shown, IsFree-slot_is_free seller c duration t free),
  )

  -- The times of a day are exactly those that some window of the day, as it is read, allows: a number
  -- of quarters of an hour from the window's start, the conversation and the buffer within the window,
  -- at an instant near the one that time.Date picks at which the zone's clock shows that minute of the
  -- date, not before the first start and not after the last one that the context gives, ending on the
  -- date, and overlapping nothing that occupies the seller.
  pub day_slots-exact :
      (ws : List (String × String))
      → has_time t (day_slots seller c duration ws) ≡ true ↔ Some (IsAllowed seller c duration t) ws
  day_slots-exact ws =
      let (there, back) = day_slots-IsSlot seller c duration t ws in
      (λ h. Some-map to_allowed ws (there h), λ o. back (Some-map from_allowed ws o))
