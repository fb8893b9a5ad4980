-- ===== src/Availability/Overlap.antt =====
-- The test for overlapping hours (availability.go), which compares neighbours in the order of their
-- starts, finds every overlap of two windows.
use wantmytime.Prelude.{
  ℕ, ◌≤◌, ◌<◌, ◌≡◌, ◌⊎◌, inl, inr, ◌↔◌, refl, true, false, List, [], ◌∷◌, ltb, arith, Bool-cases,
  ltb→lt, ltb_false→le,
}
use wantmytime.Prelude.Tables.{All}
use wantmytime.Availability.Hours.{
  MinuteWindow, insert_window, sort_windows, starts_early, overlapping_neighbours, has_overlap,
}

abbrev pub EndsAfterStart : MinuteWindow → Type 0
EndsAfterStart w = w.start < w.end

-- One of the two is over when the other starts.
abbrev pub IsDisjoint : MinuteWindow → MinuteWindow → Type 0
IsDisjoint v w = (v.end ≤ w.start) ⊎ (w.end ≤ v.start)

-- Every two windows of a list.
abbrev pub ArePairwiseDisjoint : List MinuteWindow → Type 0
ArePairwiseDisjoint [] = Unit
ArePairwiseDisjoint (w ∷ l) = All (IsDisjoint w) l × ArePairwiseDisjoint l

-- One after the other, the next not before the end of the last: what the test accepts.
abbrev Follow : ℕ → List MinuteWindow → Type 0
Follow at [] = Unit
Follow at (w ∷ l) = (at ≤ w.start) × Follow w.end l

early-Follow :
    (w : MinuteWindow) (l : List MinuteWindow) → starts_early w l ≡ false → Follow w.end l
early-Follow w [] h = tt
early-Follow w (x ∷ l) h = (ground (arith, h), early-Follow x l (ground (arith, h)))

Follow-early :
    (w : MinuteWindow) (l : List MinuteWindow) → Follow w.end l → starts_early w l ≡ false
Follow-early w [] h = refl
Follow-early w (x ∷ l) h = ground (arith, Follow-early x l h.1, h.0)

-- Windows that follow a moment are disjoint from one that ends by it.
Follow-All :
    (at : ℕ) (w : MinuteWindow) (l : List MinuteWindow)
    → All EndsAfterStart l
    → w.end ≤ at
    → Follow at l
    → All (IsDisjoint w) l
Follow-All at w [] e h f = tt
Follow-All at w (x ∷ l) e h f =
    (inl (omega (arith, h, f.0)), Follow-All x.end w l e.1 (omega (arith, h, f.0, e.0)) f.1)

Follow-insert :
    (at : ℕ) (w : MinuteWindow) (l : List MinuteWindow)
    → EndsAfterStart w
    → All EndsAfterStart l
    → Follow at l
    → at ≤ w.start
    → All (IsDisjoint w) l
    → Follow at (insert_window w l)
Follow-insert at w [] ew el f h d = (h, tt)
Follow-insert at w (x ∷ l) ew el f h d = elim (Bool-cases (ltb x.start w.start)) [
  | inl e ↦ rw e (
    f.0,
    Follow-insert x.end w l ew el.1 f.1 (ground (arith, ltb→lt x.start w.start e, d.0, ew)) d.1,
  )
  | inr e ↦ rw e (h, (ground (arith, ltb_false→le x.start w.start e, d.0, el.0), f.1))
]

Follow-uninsert :
    (at : ℕ) (w : MinuteWindow) (l : List MinuteWindow)
    → EndsAfterStart w
    → All EndsAfterStart l
    → Follow at (insert_window w l)
    → Follow at l × (at ≤ w.start) × All (IsDisjoint w) l
Follow-uninsert at w [] ew el f = (tt, f.0, tt)
Follow-uninsert at w (x ∷ l) ew el f = elim (Bool-cases (ltb x.start w.start)) [
  | inl e ↦
      let g = the_front e f in
      let r = Follow-uninsert x.end w l ew el.1 g.1 in
      ((g.0, r.0), omega (arith, g.0, r.1, el.0), (inr r.1, r.2))
  | inr e ↦
      let g = the_back e f in
      (
        (omega (arith, g.0, g.1.0, ew), g.1.1),
        g.0,
        (inl g.1.0, Follow-All x.end w l el.1 (omega (arith, g.1.0, el.0)) g.1.1),
      )
]
  where
    the_front :
        ltb x.start w.start ≡ true
        → Follow at (insert_window w (x ∷ l))
        → (at ≤ x.start) × Follow x.end (insert_window w l)
    the_front e f = rw e at f

    the_back :
        ltb x.start w.start ≡ false
        → Follow at (insert_window w (x ∷ l))
        → (at ≤ w.start) × ((w.end ≤ x.start) × Follow x.end l)
    the_back e f = rw e at f

module _ (P : MinuteWindow → Type 0) where
  All-insert_window :
      (w : MinuteWindow) (l : List MinuteWindow) → P w → All P l → All P (insert_window w l)
  All-insert_window w [] pw pl = (pw, tt)
  All-insert_window w (x ∷ l) pw pl = elim (Bool-cases (ltb x.start w.start)) [
    | inl e ↦ rw e (pl.0, All-insert_window w l pw pl.1)
    | inr e ↦ rw e (pw, pl)
  ]

  insert_window-All :
      (w : MinuteWindow) (l : List MinuteWindow) → All P (insert_window w l) → P w × All P l
  insert_window-All w [] h = h
  insert_window-All w (x ∷ l) h = elim (Bool-cases (ltb x.start w.start)) [
    | inl e ↦ let r = insert_window-All w l (moved e h).1 in (r.0, ((moved e h).0, r.1))
    | inr e ↦ rw e at h
  ]
    where
      moved :
          ltb x.start w.start ≡ true
          → All P (insert_window w (x ∷ l))
          → P x × All P (insert_window w l)
      moved e h = rw e at h

  All-sort_windows : (l : List MinuteWindow) → All P l → All P (sort_windows l)
  unfolding sort_windows
  All-sort_windows [] h = tt
  All-sort_windows (w ∷ l) h = All-insert_window w (sort_windows l) h.0 (All-sort_windows l h.1)

  sort_windows-All : (l : List MinuteWindow) → All P (sort_windows l) → All P l
  unfolding sort_windows
  sort_windows-All [] h = tt
  sort_windows-All (w ∷ l) h =
      let r = insert_window-All w (sort_windows l) h in (r.0, sort_windows-All l r.1)

Follow-disjoint :
    (l : List MinuteWindow)
    → All EndsAfterStart l
    → Follow 0 (sort_windows l)
    → ArePairwiseDisjoint l
unfolding sort_windows
Follow-disjoint [] e f = tt
Follow-disjoint (w ∷ l) e f =
    let r = Follow-uninsert 0 w (sort_windows l) e.0 (All-sort_windows EndsAfterStart l e.1) f in
    (sort_windows-All (IsDisjoint w) l r.2, Follow-disjoint l e.1 r.0)

disjoint-Follow :
    (l : List MinuteWindow)
    → All EndsAfterStart l
    → ArePairwiseDisjoint l
    → Follow 0 (sort_windows l)
unfolding sort_windows
disjoint-Follow [] e d = tt
disjoint-Follow (w ∷ l) e d =
    Follow-insert 0 w (sort_windows l) e.0 (All-sort_windows EndsAfterStart l e.1)
      (disjoint-Follow l e.1 d.1) (omega arith) (All-sort_windows (IsDisjoint w) l d.0)

neighbours-Follow : (l : List MinuteWindow) → overlapping_neighbours l ≡ false ↔ Follow 0 l
neighbours-Follow [] = (λ _. tt, λ _. refl)
neighbours-Follow (w ∷ l) = (λ h. (omega arith, early-Follow w l h), λ f. Follow-early w l f.1)

-- Windows that end after they start pass the test exactly when every two of them are disjoint.
pub has_overlap-exact :
    (ws : List MinuteWindow)
    → All EndsAfterStart ws
    → has_overlap ws ≡ false ↔ ArePairwiseDisjoint ws
unfolding has_overlap
has_overlap-exact ws e =
    let n = neighbours-Follow (sort_windows ws) in
    (λ h. Follow-disjoint ws e (n.0 h), λ d. n.1 (disjoint-Follow ws e d))
