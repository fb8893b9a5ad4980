-- ===== src/RateLimit/Window.antt =====
-- How many requests of a client a window of the limiter admits (allowLocal).
use mathlib.Core.Path.{subst}
use wantmytime.Prelude.{
  ltb, find-true, ◌&&◌, ℕ, suc, ◌+◌, ◌-◌, ◌^◌, ◌≤◌, ◌<◌, ◌≡◌, refl, sym, ap, ◌∙◌, Bool, true, false,
  not, String, str_eq, Option, none, some, List, [], ◌∷◌, find, if◌then◌else◌, min, arith,
  Bool-cases, inl, inr, eq_refl, eq_iff,
}
use wantmytime.Prelude.Int64.{pos, add64, add64_pos, ltb_ℤ, leb_ℤ}
use wantmytime.Prelude.Time.{Time, sub_time}
use wantmytime.RateLimit.{
  RateWindow, RateLimiter, keep, has_key, other_key, put, is_live, sweep, count_hit, allow_local,
}

-- Requests one after the other: how many of those with this key were admitted, and the limiter.
abbrev pub admitted : String → List (String × Time) → RateLimiter → ℕ × RateLimiter
admitted key [] l = (0, l)
admitted key ((k, t) ∷ calls) l =
    let (ok, l') = allow_local l k t in
    let (n, last) = admitted key calls l' in
    (if str_eq k key then if ok then suc n else n else n, last)

-- How many requests have this key.
abbrev pub requests : String → List (String × Time) → ℕ
requests key [] = 0
requests key ((k, t) ∷ calls) =
    let rest = requests key calls in if str_eq k key then suc rest else rest

-- All of the requests come in the window that starts at `start`.
abbrev pub Within : Time → ℕ → List (String × Time) → Type 0
Within start w [] = Unit
Within start w ((k, t) ∷ calls) = (start ≤ t) × (t < start + w) × Within start w calls

abbrev Entry : Type 0
Entry = String × RateWindow

find-keep :
    (p q : Entry → Bool) (xs : List Entry) (x : Entry)
    → find p xs ≡ some x
    → q x ≡ true
    → find p (keep q xs) ≡ some x
find-keep p q [] x e h = cc
find-keep p q (y ∷ xs) x e h = elim (Bool-cases (p y)) [
  | inl first ↦ ground (arith, first)
  | inr later ↦ ground (arith, later, find-keep p q xs x)
]

find-keep-none :
    (p q : Entry → Bool) (xs : List Entry) → find p xs ≡ none → find p (keep q xs) ≡ none
find-keep-none p q [] e = refl
find-keep-none p q (y ∷ xs) e = ground (arith, find-keep-none p q xs)

find-true_both :
    (p q : Entry → Bool) (xs : List Entry) (x : Entry)
    → find (λ y. p y && q y) xs ≡ none
    → find p xs ≡ some x
    → q x ≡ false
find-true_both p q [] x e h = cc
find-true_both p q (y ∷ xs) x e h = elim (Bool-cases (p y)) [
  | inl first ↦ ground (arith, first)
  | inr later ↦ ground (arith, later, find-true_both p q xs x)
]

-- No window of the key is open at this time.
abbrev pub IsClear : String → Time → RateLimiter → Type 0
IsClear key start l = find (λ e. has_key key e && is_live l.window start e) l.hits ≡ none

module _ (key : String) (start : Time) (w m : ℕ) (w_fits : w < 2 ^ 63) (m_fits : m < 2 ^ 63) where
  -- The key's window has started at `start` and has admitted `c` requests.
  abbrev Counted : ℕ → RateLimiter → Type 0
  Counted c l =
      (l.limit ≡ pos m)
      × (l.window ≡ pos w)
      × ((e : Entry) × (find (has_key key) l.hits ≡ some e)
          × (e.1.start ≡ start)
          × (e.1.count ≡ pos c))

  in_window :
      (e : Entry) (t : Time)
      → e.1.start ≡ start
      → start ≤ t
      → t < start + w
      → is_live (pos w) t e ≡ true
  unfolding sub_time
  in_window e t h lower upper = ground arith

  sweep-Counted :
      (c : ℕ) (l : RateLimiter) (t : Time)
      → start ≤ t
      → t < start + w
      → Counted c l
      → Counted c (sweep l t)
  unfolding sweep
  sweep-Counted c l t lower upper (limit, window, (e, found, begun, count)) =
      elim (Bool-cases (ltb_ℤ l.window (sub_time t l.swept))) [
        | inr fresh ↦ rw fresh (limit, window, (e, found, begun, count))
        | inl stale ↦
            let live : is_live l.window t e ≡ true = rw window (in_window e t begun lower upper) in
            rw stale (
              limit,
              window,
              (e, find-keep (has_key key) (is_live l.window t) l.hits e found live, begun, count),
            )
      ]

  put-Counted :
      (c : ℕ) (l : RateLimiter) (entry : RateWindow)
      → l.limit ≡ pos m
      → l.window ≡ pos w
      → entry.start ≡ start
      → entry.count ≡ pos c
      → Counted c (record l { hits = put key entry l.hits })
  put-Counted c l entry limit window begun count =
      (limit, window, ((key, entry), rw (eq_refl key) refl, begun, count))

  -- A request with the key, in its window.
  own_hit :
      (c : ℕ) (l : RateLimiter) (t : Time)
      → start ≤ t
      → t < start + w
      → Counted c l
      → ((count_hit l key t (find (has_key key) l.hits)).0 ≡ ltb c m)
        × Counted (if ltb c m then suc c else c) (count_hit l key t (find (has_key key) l.hits)).1
  unfolding count_hit
  own_hit c l t lower upper (limit, window, (e, found, begun, count)) =
      let live : is_live l.window t e ≡ true = rw window (in_window e t begun lower upper) in
      elim (Bool-cases (ltb c m)) [
        | inl below ↦
            let room : leb_ℤ l.limit e.1.count ≡ false = rw (limit, count) (ground arith) in
            let more : add64 e.1.count (pos 1) ≡ pos (suc c) =
              rw count (ground (arith, add64_pos c 1)) in
            rw (found, live, room, below) (refl, put-Counted (suc c) l _ limit window begun more)
        | inr full ↦
            let none_left : leb_ℤ l.limit e.1.count ≡ true = rw (limit, count) (ground arith) in
            rw (found, live, none_left, full) (refl, (limit, window, (e, found, begun, count)))
      ]

  put_other :
      (c : ℕ) (l : RateLimiter) (k : String) (entry : RateWindow)
      → str_eq k key ≡ false
      → Counted c l
      → Counted c (record l { hits = put k entry l.hits })
  put_other c l k entry differs (limit, window, (e, found, begun, count)) =
      let mine : e.0 ≡ key = (eq_iff e.0 key).0 (find-true (has_key key) l.hits e found) in
      let kept : other_key k e ≡ true = elim (Bool-cases (str_eq e.0 k)) [
        | inr apart ↦ ap not apart
        | inl again ↦
            let same : k ≡ key = sym ((eq_iff e.0 k).0 again) ∙ mine in
            let never : true ≡ false =
              sym (eq_refl key) ∙ subst (λ (x : String). str_eq x key ≡ false) same differs in
            cc
      ] in
      (
        limit,
        window,
        (e, rw differs (find-keep (has_key key) (other_key k) l.hits e found kept), begun, count),
      )

  other_hit :
      (c : ℕ) (l : RateLimiter) (k : String) (t : Time) (o : Option Entry)
      → str_eq k key ≡ false
      → Counted c l
      → Counted c (count_hit l k t o).1
  unfolding count_hit
  other_hit c l k t none differs h = put_other c l k _ differs h
  other_hit c l k t (some e) differs h = elim (Bool-cases (is_live l.window t e)) [
    | inr expired ↦ rw expired (put_other c l k _ differs h)
    | inl live ↦ elim (Bool-cases (leb_ℤ l.limit e.1.count)) [
      | inl full ↦ rw (live, full) h
      | inr room ↦ rw (live, room) (put_other c l k _ differs h)
    ]
  ]

  allow_own :
      (c : ℕ) (l : RateLimiter) (t : Time)
      → start ≤ t
      → t < start + w
      → Counted c l
      → ((allow_local l key t).0 ≡ ltb c m)
        × Counted (if ltb c m then suc c else c) (allow_local l key t).1
  unfolding allow_local
  allow_own c l t lower upper h =
      own_hit c (sweep l t) t lower upper (sweep-Counted c l t lower upper h)

  allow_other :
      (c : ℕ) (l : RateLimiter) (k : String) (t : Time)
      → start ≤ t
      → t < start + w
      → str_eq k key ≡ false
      → Counted c l
      → Counted c (allow_local l k t).1
  unfolding allow_local
  allow_other c l k t lower upper differs h =
      other_hit c (sweep l t) k t _ differs (sweep-Counted c l t lower upper h)

  admitted-Counted :
      (c : ℕ) (calls : List (String × Time)) (l : RateLimiter)
      → Within start w calls
      → Counted c l
      → (admitted key calls l).0 ≡ min (requests key calls) (m - c)
  admitted-Counted c [] l within h = omega arith
  admitted-Counted c ((k, t) ∷ calls) l (lower, upper, within) h =
      elim (Bool-cases (str_eq k key)) [
        | inr other ↦ rw other (
            admitted-Counted c calls (allow_local l k t).1 within
              (allow_other c l k t lower upper other h))
        | inl own ↦
            let same : k ≡ key = (eq_iff k key).0 own in
            let (answer, next) = allow_own c l t lower upper h in
            let rest =
              admitted-Counted (if ltb c m then suc c else c) calls (allow_local l key t).1 within
                next in
            rw (own, same, answer) (ground (arith, rest))
      ]

  sweep-IsClear :
      (l : RateLimiter)
      → IsClear key start l
      → IsClear key start (sweep l start)
        × ((sweep l start).limit ≡ l.limit)
        × ((sweep l start).window ≡ l.window)
  unfolding sweep
  sweep-IsClear l clear = elim (Bool-cases (ltb_ℤ l.window (sub_time start l.swept))) [
    | inr fresh ↦ rw fresh (clear, refl, refl)
    | inl stale ↦ rw stale (
      find-keep-none (λ e. has_key key e && is_live l.window start e) (is_live l.window start)
          l.hits clear,
      refl,
      refl,
    )
  ]

  first_hit :
      (l : RateLimiter) (o : Option Entry)
      → find (has_key key) l.hits ≡ o
      → l.limit ≡ pos m
      → l.window ≡ pos w
      → IsClear key start l
      → ((count_hit l key start o).0 ≡ true) × Counted 1 (count_hit l key start o).1
  unfolding count_hit
  first_hit l none found limit window clear = (refl, put-Counted 1 l _ limit window refl refl)
  first_hit l (some e) found limit window clear =
      let expired : is_live l.window start e ≡ false =
        find-true_both (has_key key) (is_live l.window start) l.hits e clear found in
      rw expired (refl, put-Counted 1 l _ limit window refl refl)

  allow_first :
      (l : RateLimiter)
      → l.limit ≡ pos m
      → l.window ≡ pos w
      → IsClear key start l
      → ((allow_local l key start).0 ≡ true) × Counted 1 (allow_local l key start).1
  unfolding allow_local
  allow_first l limit window clear =
      let (swept_clear, same_limit, same_window) = sweep-IsClear l clear in
      first_hit (sweep l start) _ refl (same_limit ∙ limit) (same_window ∙ window) swept_clear

-- A limiter with a limit of `m` and a window of `w`, in which no window of the client's key is open:
-- of a request of the client and any requests that follow within `w`, those of other clients
-- included, exactly the client's first `m` are admitted (the first one also where `m` is 0).
pub allow_local_window :
    (key : String) (start : Time) (w m : ℕ) (l : RateLimiter) (calls : List (String × Time))
    → w < 2 ^ 63
    → m < 2 ^ 63
    → l.limit ≡ pos m
    → l.window ≡ pos w
    → IsClear key start l
    → Within start w calls
    → (admitted key ((key, start) ∷ calls) l).0 ≡ suc (min (requests key calls) (m - 1))
allow_local_window key start w m l calls w_fits m_fits limit window clear within =
    let (answer, next) = allow_first key start w m w_fits m_fits l limit window clear in
    let rest =
      admitted-Counted key start w m w_fits m_fits 1 calls (allow_local l key start).1 within
        next in
    rw (eq_refl key, answer) (ap suc rest)
