-- ===== src/Availability/Kept.antt =====
-- Saving and removing hours (availability.go) keeps the tables such that all hours are readable.
use wantmytime.Prelude.{
  ◌≡◌, inl, inr, refl, sym, Bool, true, false, String, Option, none, some, List, [], ◌∷◌, map,
  Bool-cases, Option-cases, if◌then◌else◌,
}
use wantmytime.Prelude.Time.{Date}
use wantmytime.Prelude.Tables.{any, All, All-append, All-without, All-update_where}
use mathlib.Core.Path.{subst}
use wantmytime.Prelude.Chars.{trim_space}
use wantmytime.Prelude.Options.{some_inj}
use wantmytime.Store.Schema.{AvailabilityOverride, SellerProfile, AvailabilityWindow}
use wantmytime.Store.Monad.{
  ok, err, pure, fail, Session, Error, profile_not_found, invalid_override, overlapping_windows,
}
use wantmytime.Store.Logic.{
  Ensures, bind, Ensures-query, Ensures-select, Ensures-exec, Ensures-lift, Ensures-pure,
  Ensures-guard, Ensures-clock, given, Ensures-fail, ensured,
}
use wantmytime.Store.Transaction.{Ensures-in_transaction}
use wantmytime.Availability.Zone.{Zone, Zones, load_named_timezone, must_location, midnight}
use wantmytime.Availability.Hours.{
  InputWindow, DayWindow, AvailabilityConfig, MinuteWindow, minute_window, outside, day_window,
  day_windows, cons_all, has_overlap, check_availability, config_in_range, week_has_overlap,
  save_availability, put_availability, update_schedule, found_profile, delete_availability_windows,
  insert_availability_windows, insert_availability_window, window_row,
}
use wantmytime.Availability.Overrides.{
  OverrideInput, replacement_windows, check_replacement, upsert_override, override_row, find_seller,
  put_availability_override, is_override, replace_hours, clock_texts,
}
use wantmytime.Availability.Slots.{window_texts}
use wantmytime.Availability.Saved.{
  IsQuarter, IsSaved, AreSaved, HasSavedHours, minute_window-IsQuarter,
}

abbrev AreQuarters : List DayWindow → Type 0
AreQuarters = All (λ w. IsQuarter w.minutes)

cons_all-some :
    {A : Type 0} (o : Option A) (m : Option (List A)) (l : List A)
    → cons_all o m ≡ some l
    → (a : A) × (r : List A) × (o ≡ some a) × (m ≡ some r) × (a ∷ r ≡ l)
cons_all-some none m l h = cc
cons_all-some (some a) none l h = cc
cons_all-some (some a) (some r) l h = (a, r, refl, refl, some_inj h)

none-some : {A : Type 0} {a : A} → none ≡ some a → ⊥
none-some h = cc

day_window-IsQuarter :
    (w : InputWindow) (r : DayWindow) → day_window w ≡ some r → IsQuarter r.minutes
unfolding day_window
day_window-IsQuarter w r h = elim (Bool-cases (outside w.weekday 0 6)) [
  | inl e ↦ absurd (none-some (rw e at h))
  | inr e ↦ elim (Option-cases (minute_window w.start w.end)) [
    | inl n ↦ absurd (none-some (rw (e, n) at h))
    | inr (m, y) ↦
        subst (λ (x : DayWindow). IsQuarter x.minutes) (some_inj (rw (e, y) at h))
          (minute_window-IsQuarter w.start w.end m y)
  ]
]

day_windows-AreQuarters :
    (ws : List InputWindow) (l : List DayWindow) → day_windows ws ≡ some l → AreQuarters l
unfolding day_windows
day_windows-AreQuarters [] l h = subst AreQuarters (some_inj h) tt
day_windows-AreQuarters (w ∷ ws) l h =
    let r = cons_all-some (day_window w) (day_windows ws) l h in
    subst AreQuarters r.4 (day_window-IsQuarter w r.0 r.2, day_windows-AreQuarters ws r.1 r.3)

replacement_windows-AreQuarters :
    (ws : List InputWindow) (l : List MinuteWindow)
    → replacement_windows ws ≡ some l
    → All IsQuarter l
unfolding replacement_windows
replacement_windows-AreQuarters [] l h = subst (All IsQuarter) (some_inj h) tt
replacement_windows-AreQuarters (w ∷ ws) l h =
    let r = cons_all-some (minute_window w.start w.end) (replacement_windows ws) l h in
    subst (All IsQuarter) r.4
      (minute_window-IsQuarter w.start w.end r.0 r.2, replacement_windows-AreQuarters ws r.1 r.3)

err_ok : {A : Type 0} {e : Error} {a : A} → err e ≡ ok a → ⊥
err_ok h = cc

pub ok_inj : {A : Type 0} {a b : A} → ok a ≡ ok b → a ≡ b
ok_inj h = cc

-- What the handler's tests make sure of.
abbrev pub PassesTests : Zones → AvailabilityConfig → Zone × List DayWindow → Type 0
PassesTests zones config r =
    (config_in_range config ≡ true)
    × (load_named_timezone zones (trim_space config.timezone) ≡ some r.0)
    × (day_windows config.windows ≡ some r.1)
    × (week_has_overlap r.1 ≡ false)

pub check_availability-PassesTests :
    (zones : Zones) (config : AvailabilityConfig) (r : Zone × List DayWindow)
    → check_availability zones config ≡ ok r
    → PassesTests zones config r
unfolding check_availability
check_availability-PassesTests zones config r h = elim (Bool-cases (config_in_range config)) [
  | inr e ↦ absurd (err_ok (rw e at h))
  | inl e ↦ elim (Option-cases (load_named_timezone zones (trim_space config.timezone))) [
    | inl z ↦ absurd (err_ok (rw (e, z) at h))
    | inr (zone, z) ↦ elim (Option-cases (day_windows config.windows)) [
      | inl y ↦ absurd (err_ok (rw (e, z, y) at h))
      | inr (l, y) ↦ elim (Bool-cases (week_has_overlap l)) [
        | inl o ↦ absurd (err_ok (rw (e, z, y, o) at h))
        | inr o ↦ subst (PassesTests zones config) (ok_inj (rw (e, z, y, o) at h)) (e, z, y, o)
      ]
    ]
  ]
]

IsSaved-rows :
    (id timezone : String) (l : List DayWindow)
    → AreQuarters l
    → All (λ w. IsSaved (window_texts w)) (map (window_row id timezone) l)
IsSaved-rows id timezone [] h = tt
IsSaved-rows id timezone (w ∷ l) h = ((w.minutes, h.0, inl refl), IsSaved-rows id timezone l h.1)

insert-HasSavedHours :
    (rows : List AvailabilityWindow)
    → All (λ w. IsSaved (window_texts w)) rows
    → Ensures HasSavedHours (insert_availability_windows rows) (λ _. HasSavedHours)
unfolding insert_availability_windows insert_availability_window
insert-HasSavedHours [] h = Ensures-pure (λ d p. p)
insert-HasSavedHours (w ∷ rows) h =
    bind {Q = λ _. HasSavedHours}
      (Ensures-exec _ (λ t d p. (All-append _ d.availability_windows (w ∷ []) p.0 (h.0, tt), p.1)))
      (λ _. insert-HasSavedHours rows h.1)

found_profile-keeps :
    (o : Option SellerProfile) → Ensures HasSavedHours (found_profile o) (λ _. HasSavedHours)
found_profile-keeps none = Ensures-fail
found_profile-keeps (some sp) = Ensures-pure (λ d p. p)

save_availability-HasSavedHours :
    (user_id : String) (zone : Zone) (config : AvailabilityConfig) (windows : List DayWindow)
    → AreQuarters windows
    → Ensures HasSavedHours (save_availability user_id zone config windows) (λ _. HasSavedHours)
unfolding save_availability update_schedule delete_availability_windows
save_availability-HasSavedHours user_id zone config windows h =
    bind {Q = λ _. HasSavedHours} (Ensures-query _ (λ t d p. p)) λ found.
      bind {Q = λ _. HasSavedHours} (found_profile-keeps found) λ sp.
        bind {Q = λ _. HasSavedHours}
          (Ensures-exec _ (λ t d p. (All-without _ _ d.availability_windows p.0, p.1)))
          (λ _. insert-HasSavedHours _ (IsSaved-rows sp.id zone.name windows h))

put_availability-keeps :
    (zones : Zones) (user_id : String) (config : AvailabilityConfig)
    → Ensures HasSavedHours (put_availability zones user_id config) (λ _. HasSavedHours)
unfolding put_availability
put_availability-keeps zones user_id config =
    bind {Q = λ r d. HasSavedHours d × AreQuarters r.1}
      (Ensures-lift (λ r d e p. (
        p,
        day_windows-AreQuarters config.windows r.1
            (check_availability-PassesTests zones config r e).2,
      )))
      (λ r.
        given
          (λ q. Ensures-in_transaction (save_availability-HasSavedHours user_id r.0 config r.1 q)))

-- If all hours in the tables are on quarters of an hour, in order and readable, they are so after a
-- putAvailability that succeeds.
pub put_availability-HasSavedHours :
    (zones : Zones) (user_id : String) (config : AvailabilityConfig) (s s' : Session)
    → put_availability zones user_id config s ≡ (ok tt, s')
    → HasSavedHours s.db
    → HasSavedHours s'.db
put_availability-HasSavedHours zones user_id config s s' e h =
    ensured (put_availability-keeps zones user_id config) h e

IsSaved-texts : (l : List MinuteWindow) → All IsQuarter l → All IsSaved (map clock_texts l)
IsSaved-texts [] h = tt
IsSaved-texts (w ∷ l) h = ((w, h.0, inr refl), IsSaved-texts l h.1)

override_row-AreSaved :
    (id : String) (date : Date) (closed : Bool) (windows : List MinuteWindow)
    → All IsQuarter windows
    → AreSaved (override_row id date closed windows).replacement_windows
override_row-AreSaved id date true windows h = tt
override_row-AreSaved id date false windows h = IsSaved-texts windows h

check_replacement-AreQuarters :
    (ws : List InputWindow) (l : List MinuteWindow) → check_replacement ws ≡ ok l → All IsQuarter l
unfolding check_replacement
check_replacement-AreQuarters ws l h = go (replacement_windows ws) refl h
  where
    go :
        (o : Option (List MinuteWindow))
        → o ≡ replacement_windows ws
        → elim o [
          | none ↦ err invalid_override
          | some m ↦ if has_overlap m then err overlapping_windows else ok m
        ]
          ≡ ok l
        → All IsQuarter l
    go none e h = absurd (err_ok h)
    go (some m) e h = elim (Bool-cases (has_overlap m)) [
      | inl o ↦ absurd (err_ok (rw o at h))
      | inr o ↦
          subst (All IsQuarter) (ok_inj (rw o at h)) (replacement_windows-AreQuarters ws m (sym e))
    ]

find_seller-keeps :
    (user_id : String) → Ensures HasSavedHours (find_seller user_id) (λ _. HasSavedHours)
unfolding find_seller
find_seller-keeps user_id = bind {Q = λ _. HasSavedHours} (Ensures-select _ (λ t d p. p)) found_or
  where
    found_or :
        (o : Option SellerProfile)
        → Ensures HasSavedHours
            (elim o [ none ↦ fail profile_not_found | some sp ↦ pure sp ])
            (λ (_ : SellerProfile). HasSavedHours)
    found_or none = Ensures-fail
    found_or (some sp) = Ensures-pure (λ d p. p)

if_either : {A : Type 0} (P : A → Type 0) (b : Bool) {l m : A} → P l → P m → P (if b then l else m)
if_either P true h k = h
if_either P false h k = k

abbrev AllSaved : List AvailabilityOverride → Type 0
AllSaved = All (λ o. AreSaved o.replacement_windows)

upsert_override-keeps :
    (row : AvailabilityOverride)
    → AreSaved row.replacement_windows
    → Ensures HasSavedHours (upsert_override row) (λ _. HasSavedHours)
unfolding upsert_override
upsert_override-keeps row h = Ensures-exec _ (λ t d p. (
  p.0,
  if_either AllSaved (any (is_override row.seller_id row.local_date) d.availability_overrides)
      (All-update_where _ (is_override row.seller_id row.local_date) (replace_hours row)
        d.availability_overrides (λ o q. h) p.1)
      (All-append _ d.availability_overrides (row ∷ []) p.1 (h, tt)),
))

abbrev saved_date : Zones → SellerProfile → Date → Date
saved_date zones sp date =
    let zone = must_location zones sp.timezone in zone.date_of (midnight zone date)

override-keeps :
    (zones : Zones) (user_id : String) (date : Date) (input : OverrideInput)
    → Ensures HasSavedHours
        (put_availability_override zones user_id date input)
        (λ _. HasSavedHours)
unfolding put_availability_override
override-keeps zones user_id date input =
    bind {Q = λ _. HasSavedHours} (Ensures-guard _ _ (λ d e p. p)) λ _.
      bind {Q = λ _. HasSavedHours} (find_seller-keeps user_id) λ sp.
        bind {Q = λ _. HasSavedHours} Ensures-clock λ now.
          bind {Q = λ _. HasSavedHours} (Ensures-guard _ _ (λ d e p. p)) λ _.
            bind {Q = λ ws d. HasSavedHours d × All IsQuarter ws}
              (Ensures-lift (λ ws d e p. (p, check_replacement-AreQuarters input.windows ws e)))
              (λ ws. given λ q.
                upsert_override-keeps _
                  (override_row-AreSaved sp.id (saved_date zones sp date) input.closed ws q))

-- If all hours in the tables are on quarters of an hour, in order and readable, they are so after a
-- putAvailabilityOverride that succeeds.
pub put_availability_override-HasSavedHours :
    (zones : Zones) (user_id : String) (date : Date) (input : OverrideInput) (s s' : Session)
    → put_availability_override zones user_id date input s ≡ (ok tt, s')
    → HasSavedHours s.db
    → HasSavedHours s'.db
put_availability_override-HasSavedHours zones user_id date input s s' e h =
    ensured (override-keeps zones user_id date input) h e
