-- ===== src/Dashboard/Newest/Heap.antt =====
-- What the heap of `newest_frames_bounded` holds after each frame.
use mathlib.Core.List.Perm
use mathlib.Core.List.{Perm, perm_middle, perm_append_singleton, perm-append_left_iff}
use comp2432_project.Prelude.{
  ℕ, ◌≤◌, ◌<◌, ◌≡◌, refl, sym, ap, ◌⊎◌, inl, inr, Bool, true, false, some, List, [], ◌∷◌, ◌++◌, map,
  Outcome, done, ltb, length, length-map, get_elem?, arith, Bool-cases,
}
use comp2432_project.Prelude.Sort.{
  insert_by, All, All-map, IsSorted, IsPreorder, insert_by-IsSorted, insert_by-All,
  length-insert_by,
}
use mathlib.Core.Path.{subst}
use comp2432_project.Models.{AggregatedFrame}
use comp2432_project.Dashboard.Queries.{latest_first, cmp_latest_desc}
use comp2432_project.Dashboard.Queries.Answers.{latest_first-IsPreorder}
use comp2432_project.Dashboard.Newest.{
  max_latest_frames, HeapEntry, cmp_entry, entry_order, above, offer, entry_of,
}

entry_order-IsPreorder : IsPreorder entry_order
unfolding cmp_entry
entry_order-IsPreorder = record { total = λ a b h. ground arith; trans = λ a b c h k. ground arith }

-- A frame at its index.
abbrev pub Placed : Type 0 → Type 0
Placed F = AggregatedFrame F × ℕ

module _ {F : Type 0} where
  abbrev pub entry : Placed F → HeapEntry
  entry (frame, i) = entry_of frame i

  abbrev pub placed_order : Placed F → Placed F → Bool
  placed_order a b = entry_order (entry a) (entry b)

  placed_order-IsPreorder : IsPreorder placed_order
  placed_order-IsPreorder = record {
    total = λ a b h. entry_order-IsPreorder.total (entry a) (entry b) h;
    trans = λ a b c h k. entry_order-IsPreorder.trans (entry a) (entry b) (entry c) h k;
  }

  insert_by-map :
      (x : Placed F) (ys : List (Placed F))
      → map entry (insert_by placed_order x ys) ≡ insert_by entry_order (entry x) (map entry ys)
  unfolding insert_by
  insert_by-map x [] = refl
  insert_by-map x (y ∷ ys) = elim (Bool-cases (placed_order x y)) [
    | inl e ↦ rw e refl
    | inr e ↦ rw e (ap (λ zs. entry y ∷ zs) (insert_by-map x ys))
  ]

  abbrev pub frames_of : List (Placed F) → List (AggregatedFrame F)
  frames_of ps = map (λ p. p.0) ps

  insert_by-frames :
      (x : Placed F) (ys : List (Placed F))
      → Perm (frames_of (insert_by placed_order x ys)) (x.0 ∷ frames_of ys)
  unfolding insert_by
  insert_by-frames x [] = Perm.refl _
  insert_by-frames x (y ∷ ys) = elim (Bool-cases (placed_order x y)) [
    | inl e ↦ rw e (Perm.refl _)
    | inr e ↦
        rw e (Perm.trans (Perm.cons y.0 (insert_by-frames x ys)) (Perm.swap x.0 y.0 (frames_of ys)))
  ]

  -- The first frame is no newer than the second.
  abbrev pub NoNewer : AggregatedFrame F → AggregatedFrame F → Type 0
  NoNewer a b = latest_first b a ≡ true

  order-NoNewer : (a b : Placed F) → placed_order a b ≡ true → NoNewer a.0 b.0
  unfolding cmp_entry cmp_latest_desc
  order-NoNewer a b h = ground (arith, h)

  above-NoNewer : (x top : Placed F) → above (entry x) (entry top) ≡ true → NoNewer top.0 x.0
  unfolding cmp_latest_desc
  above-NoNewer x top h = ground (arith, h)

  below-NoNewer : (x top : Placed F) → above (entry x) (entry top) ≡ false → NoNewer x.0 top.0
  unfolding cmp_latest_desc
  below-NoNewer x top h = ground (arith, h)

  NoNewer-trans : (a b c : AggregatedFrame F) → NoNewer a b → NoNewer b c → NoNewer a c
  NoNewer-trans a b c h k = latest_first-IsPreorder.trans c b a k h

  -- The heap holds the entries of `ghost` when the loop has seen the frames `seen` of `frames`, and
  -- the others of those frames are `evicted`.
  pub record Holds (frames seen : List (AggregatedFrame F)) (ghost : List (Placed F))
      (evicted : List (AggregatedFrame F)) : Type 0 where
    pub placed : All (λ p. get_elem? frames p.1 ≡ some p.0) ghost
    pub sorted : IsSorted placed_order ghost
    pub kept : Perm (evicted ++ frames_of ghost) seen
    pub older : All (λ e. All (λ p. NoNewer e p.0) ghost) evicted
    pub few : length ghost ≤ max_latest_frames
    pub full : evicted ≡ [] ⊎ length ghost ≡ max_latest_frames

  abbrev pub Offered :
      List (AggregatedFrame F) → List (AggregatedFrame F) → Outcome (List HeapEntry) → Type 0
  Offered frames seen out =
      (ghost : List (Placed F)) × (evicted : List (AggregatedFrame F)) × (out
        ≡ done (map entry ghost))
      × Holds frames seen ghost evicted

  offer-room :
      (frames seen : List (AggregatedFrame F)) (x : Placed F) (ghost : List (Placed F))
      (evicted : List (AggregatedFrame F))
      → get_elem? frames x.1 ≡ some x.0
      → Holds frames seen ghost evicted
      → length ghost < max_latest_frames
      → Holds frames (seen ++ x.0 ∷ []) (insert_by placed_order x ghost) []
  offer-room frames seen x ghost evicted at h room = record {
    placed = insert_by-All placed_order _ x ghost at h.placed;
    sorted = insert_by-IsSorted placed_order placed_order-IsPreorder x ghost h.sorted;
    kept = Perm.trans (insert_by-frames x ghost) (
        Perm.trans (Perm.cons x.0 (subst (λ e. Perm (e ++ frames_of ghost) seen) empty h.kept))
          (Perm.symm (perm_append_singleton x.0 seen)));
    older = tt;
    few = omega (arith, length-insert_by placed_order x ghost, room);
    full = inl refl;
  }
    where
      empty : evicted ≡ []
      empty = elim h.full [ inl e ↦ e | inr n ↦ absurd (omega (arith, n, room)) ]

  offer-above :
      (frames seen : List (AggregatedFrame F)) (x top : Placed F) (ghost : List (Placed F))
      (evicted : List (AggregatedFrame F))
      → get_elem? frames x.1 ≡ some x.0
      → Holds frames seen (top ∷ ghost) evicted
      → length (top ∷ ghost) ≡ max_latest_frames
      → above (entry x) (entry top) ≡ true
      → Holds frames (seen ++ x.0 ∷ []) (insert_by placed_order x ghost) (top.0 ∷ evicted)
  offer-above frames seen x top ghost evicted at h n over = record {
    placed = insert_by-All placed_order _ x ghost at h.placed.1;
    sorted = insert_by-IsSorted placed_order placed_order-IsPreorder x ghost h.sorted.1;
    kept =
        Perm.trans (Perm.cons top.0 ((perm-append_left_iff evicted).1 (insert_by-frames x ghost))) (
          Perm.trans (Perm.cons top.0 (perm_middle evicted (frames_of ghost))) (
            Perm.trans (Perm.swap x.0 top.0 (evicted ++ frames_of ghost)) (
              Perm.trans (Perm.cons x.0 (Perm.symm (perm_middle evicted (frames_of ghost))))
                (Perm.trans (Perm.cons x.0 h.kept) (Perm.symm (perm_append_singleton x.0 seen))))));
    older = (
      insert_by-All placed_order _ x ghost (above-NoNewer x top over)
          (All-map (λ p o. order-NoNewer top p o) ghost h.sorted.0),
      All-map
          (λ e all.
            insert_by-All placed_order (λ p. NoNewer e p.0) x ghost
              (NoNewer-trans e top.0 x.0 all.0 (above-NoNewer x top over)) all.1)
          evicted h.older,
    );
    few = omega (arith, length-insert_by placed_order x ghost, n);
    full = inr (omega (arith, length-insert_by placed_order x ghost, n));
  }

  offer-below :
      (frames seen : List (AggregatedFrame F)) (x top : Placed F) (ghost : List (Placed F))
      (evicted : List (AggregatedFrame F))
      → Holds frames seen (top ∷ ghost) evicted
      → length (top ∷ ghost) ≡ max_latest_frames
      → above (entry x) (entry top) ≡ false
      → Holds frames (seen ++ x.0 ∷ []) (top ∷ ghost) (x.0 ∷ evicted)
  offer-below frames seen x top ghost evicted h n under = record {
    placed = h.placed;
    sorted = h.sorted;
    kept = Perm.trans (Perm.cons x.0 h.kept) (Perm.symm (perm_append_singleton x.0 seen));
    older = (
      (
        below-NoNewer x top under,
        All-map
            (λ p o. NoNewer-trans x.0 top.0 p.0 (below-NoNewer x top under) (order-NoNewer top p o))
            ghost h.sorted.0,
      ),
      h.older,
    );
    few = h.few;
    full = inr n;
  }

  pub offer-Offered :
      (frames seen : List (AggregatedFrame F)) (x : Placed F) (ghost : List (Placed F))
      (evicted : List (AggregatedFrame F))
      → get_elem? frames x.1 ≡ some x.0
      → Holds frames seen ghost evicted
      → Offered frames (seen ++ x.0 ∷ []) (offer (entry x) (map entry ghost))
  unfolding offer
  offer-Offered frames seen x [] evicted at h = (
    insert_by placed_order x [],
    [],
    ap done (sym (insert_by-map x [])),
    offer-room frames seen x [] evicted at h (omega arith),
  )
  offer-Offered frames seen x (top ∷ ghost) evicted at h =
      elim (Bool-cases (ltb (length (map entry (top ∷ ghost))) max_latest_frames)) [
        | inl room ↦ (
          insert_by placed_order x (top ∷ ghost),
          [],
          rw room (ap done (sym (insert_by-map x (top ∷ ghost)))),
          offer-room frames seen x (top ∷ ghost) evicted at h
              (ground (arith, room, length-map ghost entry)),
        )
        | inr no_room ↦
            let n : length (top ∷ ghost) ≡ max_latest_frames =
              ground (arith, no_room, length-map ghost entry, h.few) in
            elim (Bool-cases (above (entry x) (entry top))) [
              | inl over ↦ (
                insert_by placed_order x ghost,
                top.0 ∷ evicted,
                rw (no_room, over) (ap done (sym (insert_by-map x ghost))),
                offer-above frames seen x top ghost evicted at h n over,
              )
              | inr under ↦ (
                top ∷ ghost,
                x.0 ∷ evicted,
                rw (no_room, under) refl,
                offer-below frames seen x top ghost evicted h n under,
              )
            ]
      ]
