-- ===== src/RateLimit.antt =====
-- services/core/cmd/api/ratelimit.go: the fixed window that each client key has, in this process or
-- shared through Redis.
pub mod Window
use wantmytime.Prelude.{
  Bool, true, false, not, String, str_eq, Option, none, some, List, [], ◌∷◌, find, if◌then◌else◌,
}
use wantmytime.Prelude.Int64.{ℤ, pos, ltb_ℤ, leb_ℤ, add64}
use wantmytime.Prelude.Time.{Time, sub_time}

pub record RateWindow : Type 0 where
  pub start : Time
  pub count : ℤ

-- The map `hits` has one entry for a key.
pub record RateLimiter : Type 0 where
  pub limit : ℤ
  pub window : ℤ
  pub hits : List (String × RateWindow)
  pub swept : Time

abbrev pub keep :
    (String × RateWindow → Bool) → List (String × RateWindow) → List (String × RateWindow)
keep p [] = []
keep p (x ∷ xs) = let rest = keep p xs in if p x then x ∷ rest else rest

abbrev pub has_key : String → String × RateWindow → Bool
has_key key e = str_eq e.0 key

abbrev pub other_key : String → String × RateWindow → Bool
other_key key e = not (str_eq e.0 key)

-- hits[key] = entry
abbrev pub put : String → RateWindow → List (String × RateWindow) → List (String × RateWindow)
put key entry hits = (key, entry) ∷ keep (other_key key) hits

-- now.Sub(v.start) < l.window
abbrev pub is_live : ℤ → Time → String × RateWindow → Bool
is_live window now e = ltb_ℤ (sub_time now e.1.start) window

unfoldable pub sweep : RateLimiter → Time → RateLimiter
unfolding sub_time
sweep l now =
    if ltb_ℤ l.window (sub_time now l.swept)
    then record l { hits = keep (is_live l.window now) l.hits; swept = now }
    else l

-- The answer for the key's entry, and the limiter with the entry that replaces it.
unfoldable pub count_hit :
    RateLimiter → String → Time → Option (String × RateWindow) → Bool × RateLimiter
unfolding sub_time
count_hit l key now none =
    (true, record l { hits = put key (record { start = now; count = pos 1 }) l.hits })
count_hit l key now (some e) =
    if not (is_live l.window now e)
    then (true, record l { hits = put key (record { start = now; count = pos 1 }) l.hits })
    else if leb_ℤ l.limit e.1.count
    then (false, l)
    else (
      true,
      record l {
        hits = put key (record { start = e.1.start; count = add64 e.1.count (pos 1) }) l.hits;
      },
    )

unfoldable pub allow_local : RateLimiter → String → Time → Bool × RateLimiter
unfolding count_hit sweep
allow_local l key now =
    let swept = sweep l now in count_hit swept key now (find (has_key key) swept.hits)

-- `shared` is what Redis counted: `none` without Redis, `some none` for its error.
unfoldable pub check : RateLimiter → String → Time → Option (Option ℤ) → Bool × RateLimiter
unfolding allow_local
check l key now (some (some n)) = (leb_ℤ n l.limit, l)
check l key now (some none) = allow_local l key now
check l key now none = allow_local l key now
