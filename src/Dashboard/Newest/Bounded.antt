-- ===== src/Dashboard/Newest/Bounded.antt =====
-- The heap keeps the newest frames.
use mathlib.Core.List.Perm
use mathlib.Core.List.{Perm, perm-append_left_iff}
use comp2432_project.Prelude.{
  ℕ, suc, ◌≤◌, ◌≡◌, refl, sym, ◌∙◌, ◌⊎◌, inl, inr, some, List, [], ◌∷◌, ◌++◌, map, append-nil,
  append_assoc, done, leb, length, length-map, length-append, get_elem?, arith, Bool-cases,
}
use comp2432_project.Prelude.Sort.{
  sort_by, All, All-map, IsSorted, sort_by-IsSorted, sort_by-perm, sort_by-All, length-sort_by,
}
use mathlib.Core.Path.{subst}
use comp2432_project.Dashboard.Newest.Heap.{
  Placed, entry, frames_of, NoNewer, Holds, Offered, offer-Offered,
}
use comp2432_project.Models.{AggregatedFrame}
use comp2432_project.Dashboard.Queries.{latest_first}
use comp2432_project.Dashboard.Queries.Answers.{latest_first-IsPreorder}
use comp2432_project.Dashboard.Newest.{
  max_latest_frames, offer_all, pick_frames, newest_frames_bounded,
}

module _ {F : Type 0} where
  get_elem?-middle :
      (before rest : List (AggregatedFrame F)) (frame : AggregatedFrame F)
      → get_elem? (before ++ frame ∷ rest) (length before) ≡ some frame
  get_elem?-middle [] rest frame = refl
  get_elem?-middle (b ∷ before) rest frame = get_elem?-middle before rest frame

  offer_all-Offered :
      (frames before rest : List (AggregatedFrame F)) (i : ℕ) (ghost : List (Placed F))
      (evicted : List (AggregatedFrame F))
      → frames ≡ before ++ rest
      → i ≡ length before
      → Holds frames before ghost evicted
      → Offered frames frames (offer_all i rest (map entry ghost))
  unfolding offer_all
  offer_all-Offered frames before [] i ghost evicted e k h = (
    ghost,
    evicted,
    refl,
    subst (λ seen. Holds frames seen ghost evicted) (sym (e ∙ append-nil before)) h,
  )
  offer_all-Offered frames before (frame ∷ rest) i ghost evicted e k h =
      let (ghost', evicted', offered, h') =
        offer-Offered frames before (frame, i) ghost evicted at h in
      rw offered (
        offer_all-Offered frames (before ++ frame ∷ []) rest (suc i) ghost' evicted'
          (e ∙ sym (append_assoc before (frame ∷ []) rest))
          (omega (arith, k, length-append before (frame ∷ []))) h')
    where
      at : get_elem? frames i ≡ some frame
      at = rw (e, k) (get_elem?-middle before rest frame)

  pick_frames-placed :
      (frames : List (AggregatedFrame F)) (ghost : List (Placed F))
      → All (λ p. get_elem? frames p.1 ≡ some p.0) ghost
      → pick_frames frames (map entry ghost) ≡ done (frames_of ghost)
  unfolding pick_frames
  pick_frames-placed frames [] h = refl
  pick_frames-placed frames ((frame, i) ∷ ghost) h =
      rw (pick_frames, h.0, pick_frames-placed frames ghost h.1) refl

  All-frames :
      (e : AggregatedFrame F) (ghost : List (Placed F))
      → All (λ p. NoNewer e p.0) ghost
      → All (NoNewer e) (frames_of ghost)
  All-frames e [] h = tt
  All-frames e (p ∷ ghost) h = (h.0, All-frames e ghost h.1)

  -- `result` is the newest of `frames`, the newest first, and `older` are the others.
  pub record Newest (frames result : List (AggregatedFrame F)) : Type 0 where
    pub older : List (AggregatedFrame F)
    pub sorted : IsSorted latest_first result
    pub same : Perm (older ++ result) frames
    pub no_newer : All (λ e. All (NoNewer e) result) older
    pub few : length result ≤ max_latest_frames
    pub full : older ≡ [] ⊎ length result ≡ max_latest_frames

  sorted_ghost :
      (frames : List (AggregatedFrame F)) (ghost : List (Placed F))
      (evicted : List (AggregatedFrame F))
      → Holds frames frames ghost evicted
      → Newest frames (sort_by latest_first (frames_of ghost))
  sorted_ghost frames ghost evicted h = record {
    older = evicted;
    sorted = sort_by-IsSorted latest_first latest_first-IsPreorder (frames_of ghost);
    same =
        Perm.trans ((perm-append_left_iff evicted).1 (sort_by-perm latest_first (frames_of ghost)))
          h.kept;
    no_newer =
        All-map (λ e all. sort_by-All latest_first _ (frames_of ghost) (All-frames e ghost all))
          evicted h.older;
    few = omega (arith, h.few, count);
    full = elim h.full [ inl e ↦ inl e | inr n ↦ inr (count ∙ n) ];
  }
    where
      count : length (sort_by latest_first (frames_of ghost)) ≡ length ghost
      count = length-sort_by latest_first (frames_of ghost) ∙ length-map ghost (λ p. p.0)

  -- The frames for `/api/latest` are the ten newest, or all if there are fewer, the newest first: the
  -- indices that the heap keeps are in range, nothing panics, and no frame left out is newer than one
  -- of them.
  pub newest_frames_bounded-Newest :
      (frames : List (AggregatedFrame F))
      → (result : List (AggregatedFrame F)) × (newest_frames_bounded frames ≡ done result)
        × Newest frames result
  unfolding newest_frames_bounded
  newest_frames_bounded-Newest frames = elim (Bool-cases (leb (length frames) max_latest_frames)) [
    | inl small ↦ (
      sort_by latest_first frames,
      rw small refl,
      record {
        older = [];
        sorted = sort_by-IsSorted latest_first latest_first-IsPreorder frames;
        same = sort_by-perm latest_first frames;
        no_newer = tt;
        few = ground (arith, small, length-sort_by latest_first frames);
        full = inl refl;
      },
    )
    | inr large ↦
        let (ghost, evicted, offered, h) =
          offer_all-Offered frames [] frames 0 [] [] refl refl start in
        (
          sort_by latest_first (frames_of ghost),
          rw (large, offered, pick_frames-placed frames ghost h.placed) refl,
          sorted_ghost frames ghost evicted h,
        )
  ]
    where
      start : Holds frames [] [] []
      start = record {
        placed = tt;
        sorted = tt;
        kept = Perm.refl [];
        older = tt;
        few = omega arith;
        full = inl refl;
      }
