-- ===== src/Availability/Exact.antt =====
-- The loops over the windows of a day and over the minutes of a window (availability.go,
-- sellerDaySlots).
use wantmytime.Prelude.{
  ℕ, ap, ◌∙◌, ◌+◌, ◌*◌, ◌≤◌, ◌≡◌, ◌==◌, ◌↔◌, ◌⊎◌, inl, inr, refl, sym, Bool, true, false, ◌&&◌,
  ◌||◌, String, none, some, List, [], ◌∷◌, arith, Bool-cases, Option-cases, eqb→eq,
}
use wantmytime.Prelude.Time.{Time}
use wantmytime.Prelude.Tables.{any, any-append, any-keep_if, any-append_all, Some}
use wantmytime.Availability.Hours.{MinuteWindow}
use wantmytime.Availability.Slots.{
  SlotSeller, DayContext, local_instants, slot_is_free, minute_slots, window_slots, slot_minutes,
  slots_of_window, read_window, day_slots, slot_fuel,
}
use wantmytime.Availability.Counting.{count_up-visits, visits-count_up}

-- One time among others.
abbrev pub has_time : Time → List Time → Bool
has_time t = any (λ x. x == t)

absorb : (a b : Bool) → a || b && a ≡ a
absorb true b = refl
absorb false true = refl
absorb false false = refl

pub both_true : (a b : Bool) → a && b ≡ true → (a ≡ true) × (b ≡ true)
both_true true b h = (refl, h)
both_true false b h = cc

false-true : false ≡ true → ⊥
false-true h = cc

or_cases : (a b : Bool) → a || b ≡ true → (a ≡ true) ⊎ (b ≡ true)
or_cases true b h = inl refl
or_cases false b h = inr h

either_true : (a b : Bool) → (a ≡ true) ⊎ (b ≡ true) → a || b ≡ true
either_true true b h = refl
either_true false b (inl h) = absurd (false-true h)
either_true false b (inr h) = h

-- A test besides, at the time itself.
pub any_at :
    (t : Time) (q : Time → Bool) (l : List Time) → any (λ x. x == t && q x) l ≡ has_time t l && q t
any_at t q [] = refl
any_at t q (x ∷ l) = elim (Bool-cases (x == t)) [
  | inl e ↦ rw (e, any_at t q l, ap q (eqb→eq x t e)) (absorb (q t) (has_time t l))
  | inr e ↦ rw (e, any_at t q l) refl
]

-- A start on a quarter of an hour from the start of a window, such that the conversation and the
-- buffer end with the window, at an instant that shows that minute, and free.
abbrev pub IsSlotOf : SlotSeller → DayContext → ℕ → Time → MinuteWindow → ℕ → Type 0
IsSlotOf seller c duration t w k =
    (w.start + 15 * k + (duration + seller.buffer) ≤ w.end)
    × (has_time t (local_instants seller.zone c.date (w.start + 15 * k)) ≡ true)
    × (slot_is_free seller c duration t ≡ true)

abbrev pub IsSlot : SlotSeller → DayContext → ℕ → Time → String × String → Type 0
IsSlot seller c duration t texts =
    (w : MinuteWindow) × (k : ℕ) × (read_window texts ≡ some w) × IsSlotOf seller c duration t w k

module _ (seller : SlotSeller) (c : DayContext) (duration : ℕ) (t : Time) where
  minute_slots-has :
      (m : ℕ)
      → has_time t (minute_slots seller c duration m)
        ≡ has_time t (local_instants seller.zone c.date m) && slot_is_free seller c duration t
  unfolding minute_slots
  minute_slots-has m =
      any-keep_if (λ x. x == t) (slot_is_free seller c duration)
        (local_instants seller.zone c.date m)
      ∙ any_at t (slot_is_free seller c duration) (local_instants seller.zone c.date m)

  there :
      (w : MinuteWindow)
      → has_time t (window_slots seller c duration w) ≡ true
      → (k : ℕ) × IsSlotOf seller c duration t w k
  unfolding window_slots
  there w h =
      let r =
        count_up-visits (λ m. has_time t (minute_slots seller c duration m)) 15
          (duration + seller.buffer) w.end (slot_fuel w) w.start
          (sym (
              any-append_all (λ x. x == t) (minute_slots seller c duration)
                (slot_minutes seller duration w))
            ∙ h) in
      let b = both_true _ _ (sym (minute_slots-has (w.start + 15 * r.0)) ∙ r.2) in
      (r.0, (r.1, b.0, b.1))

  back :
      (w : MinuteWindow) (k : ℕ)
      → IsSlotOf seller c duration t w k
      → has_time t (window_slots seller c duration w) ≡ true
  unfolding window_slots
  back w k o =
      any-append_all (λ x. x == t) (minute_slots seller c duration) (slot_minutes seller duration w)
      ∙ visits-count_up (λ m. has_time t (minute_slots seller c duration m)) 15
          (duration + seller.buffer) w.end (slot_fuel w) k w.start (omega (arith, o.0)) o.0
          (minute_slots-has (w.start + 15 * k) ∙ rw (o.1, o.2) refl)

  window_slots-has :
      (w : MinuteWindow)
      → has_time t (window_slots seller c duration w) ≡ true
        ↔ ((k : ℕ) × IsSlotOf seller c duration t w k)
  unfolding window_slots
  window_slots-has w = (there w, λ o. back w o.0 o.1)

  slots_of_window-has :
      (texts : String × String)
      → has_time t (slots_of_window seller c duration (read_window texts)) ≡ true
        ↔ IsSlot seller c duration t texts
  slots_of_window-has texts = elim (Option-cases (read_window texts)) [
    | inl e ↦ (λ h. absurd (not_read e h), λ o. given o)
    | inr (w, e) ↦ (λ h. let r = there w (was_read w e h) in (w, r.0, e, r.1), λ o. given o)
  ]
    where
      not_read :
          read_window texts ≡ none
          → has_time t (slots_of_window seller c duration (read_window texts)) ≡ true
          → ⊥
      not_read e h = cc

      given :
          IsSlot seller c duration t texts
          → has_time t (slots_of_window seller c duration (read_window texts)) ≡ true
      given o = rw o.2 (back o.0 o.1 o.3)

      was_read :
          (w : MinuteWindow)
          → read_window texts ≡ some w
          → has_time t (slots_of_window seller c duration (read_window texts)) ≡ true
          → has_time t (window_slots seller c duration w) ≡ true
      was_read w e h = rw e at h

  pub day_slots-IsSlot :
      (ws : List (String × String))
      → has_time t (day_slots seller c duration ws) ≡ true ↔ Some (IsSlot seller c duration t) ws
  unfolding day_slots
  day_slots-IsSlot [] = (λ h. absurd (false-true h), λ o. absurd o)
  day_slots-IsSlot (w ∷ ws) =
      let one = slots_of_window-has w in
      let others = day_slots-IsSlot ws in
      let parted =
        any-append (λ x. x == t) (slots_of_window seller c duration (read_window w))
          (day_slots seller c duration ws) in
      (
        λ h. elim (or_cases _ _ (sym parted ∙ h)) [
          | inl a ↦ inl (one.0 a)
          | inr b ↦ inr (others.0 b)
        ],
        λ o. parted ∙ either_true _ _ (elim o [ inl a ↦ inl (one.1 a) | inr b ↦ inr (others.1 b) ]),
      )
