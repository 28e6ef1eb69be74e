-- ===== src/Dashboard/Latest/Newer.antt =====
-- `load_latest_frames_for_api` against `load_all_frames_on_pool` and `newest_frames_bounded`.
use comp2432_project.Prelude.{
  ℕ, arith, ◌≡◌, refl, inl, inr, Option, none, some, List, [], Outcome, done, ◌>>=◌, Bool-cases,
}
use mathlib.Core.List.Perm
use comp2432_project.Prelude.Sort.{sort_by}
use comp2432_project.Models.{AggregatedFrame}
use comp2432_project.Dashboard.Cache.{
  FramesCacheState, Mutex, FramesLoadDecision, wait, sync_load, return_stale_start_bg, Decided,
  return_frames, decision, is_empty, cache_fresh, decide,
}
use comp2432_project.Dashboard.Newest.{newest_frames_bounded}
use comp2432_project.Dashboard.Newest.Bounded.{Newest, newest_frames_bounded-Newest}
use comp2432_project.Dashboard.Latest.{decide_latest, answer_all, answer_latest}

module _ {F : Type 0} where
  -- Both go round again, or the second answers the newest of the first one's frames.
  pub NewestOf :
      Option (List (AggregatedFrame F)) → Outcome (Option (List (AggregatedFrame F))) → Type 0
  NewestOf none latest = latest ≡ done none
  NewestOf (some out) latest =
      (result : List (AggregatedFrame F)) × (latest ≡ done (some result))
      × (newest_frames_bounded out ≡ done result)
      × Newest out result

  -- What the two decide under the lock leads to such answers.
  pub Matches : List (AggregatedFrame F) → Decided F → Outcome (Decided F) → Type 0
  Matches refreshed all latest =
      (d : Decided F) × (latest ≡ done d)
      × NewestOf (answer_all all refreshed) (answer_latest d refreshed)

  poisoned-Matches :
      (refreshed : List (AggregatedFrame F))
      → Matches refreshed (return_frames []) (done (return_frames []))
  unfolding NewestOf Matches answer_all answer_latest newest_frames_bounded sort_by
  poisoned-Matches refreshed = (
    return_frames [],
    refl,
    (
      [],
      refl,
      refl,
      record {
        older = [];
        sorted = tt;
        same = Perm.refl [];
        no_newer = tt;
        few = omega arith;
        full = inl refl;
      },
    ),
  )

  returned-Matches :
      (refreshed frames : List (AggregatedFrame F))
      → Matches refreshed
          (return_frames frames)
          (newest_frames_bounded frames >>= (λ out. done (return_frames out)))
  unfolding NewestOf Matches answer_all answer_latest
  returned-Matches refreshed frames =
      let (result, e, newest) = newest_frames_bounded-Newest frames in
      (return_frames result, rw e refl, (result, refl, e, newest))

  decision-Matches :
      (refreshed : List (AggregatedFrame F)) (d : FramesLoadDecision F)
      → Matches refreshed (decision d) (done (decision d))
  unfolding NewestOf Matches answer_all answer_latest
  decision-Matches refreshed wait = (decision wait, refl, refl)
  decision-Matches refreshed sync_load =
      let (result, e, newest) = newest_frames_bounded-Newest refreshed in
      (decision sync_load, refl, (result, rw e refl, e, newest))
  decision-Matches refreshed (return_stale_start_bg out) =
      let (result, e, newest) = newest_frames_bounded-Newest out in
      (decision (return_stale_start_bg out), refl, (result, rw e refl, e, newest))

  -- A request for the latest frames leaves the cache as a request for all the frames would, it never
  -- panics, and it answers the newest of the frames that the other would answer, or goes round again
  -- when the other does.
  pub latest_is_newest :
      (now : ℕ) (m : Mutex (FramesCacheState F)) (refreshed : List (AggregatedFrame F))
      → ((decide_latest now m).0 ≡ (decide now m).0)
        × Matches refreshed (decide now m).1 (decide_latest now m).1
  unfolding decide decide_latest
  latest_is_newest now m refreshed = elim (Bool-cases m.poisoned) [
    | inl is ↦ rw is (refl, poisoned-Matches refreshed)
    | inr is_not ↦ rw is_not (elim (Bool-cases (cache_fresh now m.value)) [
      | inl is ↦ rw is (refl, returned-Matches refreshed m.value.frames)
      | inr is_not ↦ rw is_not (elim (Bool-cases m.value.refreshing) [
        | inl is ↦ rw is (elim (Bool-cases (is_empty m.value.frames)) [
          | inl is ↦ rw is (refl, decision-Matches refreshed wait)
          | inr is_not ↦ rw is_not (refl, returned-Matches refreshed m.value.frames)
        ])
        | inr is_not ↦ rw is_not (elim (Bool-cases (is_empty m.value.frames)) [
          | inl is ↦ rw is (refl, decision-Matches refreshed sync_load)
          | inr is_not ↦
              rw is_not (refl, decision-Matches refreshed (return_stale_start_bg m.value.frames))
        ])
      ])
    ])
  ]
