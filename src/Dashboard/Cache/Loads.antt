-- ===== src/Dashboard/Cache/Loads.antt =====
-- At most one load is in flight, and no push is lost across it.
use comp2432_project.Prelude.{
  ℕ, ◌+◌, ◌≤◌, ◌≡◌, refl, sym, ap, ◌∙◌, Bool, true, false, List, [], ◌∷◌, ◌++◌, append-nil,
  append_assoc, arith,
}
use comp2432_project.Models.{AggregatedFrame}
use comp2432_project.Dashboard.Frames.{merge_frame_into_vec}
use comp2432_project.Dashboard.Cache.{
  FramesCacheState, Mutex, record_aggregated_frame, merge_pushes, apply_disk_refresh_to_cache,
  cache_fresh, decide, Event, World, push, request, load_done, step, run, frames_cache_ttl_ms,
}

abbrev pub in_flight : Bool → ℕ
in_flight true = 1
in_flight false = 0

module _ {F : Type 0} where
  -- `refreshing` says whether a load is in flight, and pushes wait for nothing else.
  pub record IsConsistent (w : World F) : Type 0 where
    pub sound : w.cache.poisoned ≡ false
    pub one_load : w.loads ≡ in_flight w.cache.value.refreshing
    pub none_waits : w.cache.value.refreshing ≡ false → w.cache.value.pending_pushes ≡ []

  step-IsConsistent : (e : Event F) (w : World F) → IsConsistent w → IsConsistent (step e w)
  unfolding step record_aggregated_frame decide apply_disk_refresh_to_cache
  step-IsConsistent (push now frame) w i = record {
    sound = ground (arith, i.sound);
    one_load = ground (arith, i.sound, i.one_load);
    none_waits = λ h. ground (arith, i.sound, i.none_waits);
  }
  step-IsConsistent (request now) w i = record {
    sound = ground (arith, i.sound);
    one_load = ground (arith, i.sound, i.one_load);
    none_waits = λ h. ground (arith, i.sound, i.none_waits);
  }
  step-IsConsistent (load_done now disk) w i = record {
    sound = ground (arith, i.sound);
    one_load = ground (arith, i.sound, i.one_load);
    none_waits = λ h. ground (arith, i.sound, i.none_waits);
  }

  -- From a consistent world, whatever the order of pushes, requests and loads, the world stays
  -- consistent: at most one load from disk is in flight, `refreshing` says whether there is one,
  -- and no push waits when there is none.
  pub run-IsConsistent :
      (es : List (Event F)) (w : World F) → IsConsistent w → IsConsistent (run es w)
  unfolding run
  run-IsConsistent [] w i = i
  run-IsConsistent (e ∷ es) w i = run-IsConsistent es (step e w) (step-IsConsistent e w i)

  abbrev pub pushed : List (Event F) → List (AggregatedFrame F)
  pushed [] = []
  pushed (push now frame ∷ es) = frame ∷ pushed es
  pushed (request now ∷ es) = pushed es
  pushed (load_done now disk ∷ es) = pushed es

  abbrev pub HasNoLoadDone : List (Event F) → Type 0
  HasNoLoadDone [] = Unit {0}
  HasNoLoadDone (push now frame ∷ es) = HasNoLoadDone es
  HasNoLoadDone (request now ∷ es) = HasNoLoadDone es
  HasNoLoadDone (load_done now disk ∷ es) = ⊥

  abbrev pub refreshed : ℕ → List (AggregatedFrame F) → Mutex (FramesCacheState F)
  refreshed now fs = record {
    poisoned = false;
    value = record { refreshed_at_ms = now; refreshing = false; frames = fs; pending_pushes = [] };
  }

  push_while_loading :
      (now : ℕ) (frame : AggregatedFrame F) (w : World F)
      → w.cache.poisoned ≡ false
      → w.cache.value.refreshing ≡ true
      → (step (push now frame) w).cache.value.refreshing ≡ true
        × (step (push now frame) w).cache.value.pending_pushes
          ≡ w.cache.value.pending_pushes ++ frame ∷ []
  unfolding step record_aggregated_frame
  push_while_loading now frame w h k = ground (arith, h, k)

  request_while_loading :
      (now : ℕ) (w : World F)
      → w.cache.value.refreshing ≡ true
      → (step (request now) w).cache.value.refreshing ≡ true
        × (step (request now) w).cache.value.pending_pushes ≡ w.cache.value.pending_pushes
  unfolding step decide
  request_while_loading now w k = ground (arith, k)

  load-refreshed :
      (es : List (Event F)) (w : World F) (now : ℕ) (disk : List (AggregatedFrame F))
      → IsConsistent w
      → w.cache.value.refreshing ≡ true
      → HasNoLoadDone es
      → (run (es ++ load_done now disk ∷ []) w).cache
        ≡ refreshed now (merge_pushes disk (w.cache.value.pending_pushes ++ pushed es))
  unfolding run step apply_disk_refresh_to_cache
  load-refreshed [] w now disk i k n =
      rw (i.one_load, k, append-nil w.cache.value.pending_pushes) (rw i.sound refl)
  load-refreshed (push t frame ∷ es) w now disk i k n =
      let (k', p) = push_while_loading t frame w i.sound k in
      load-refreshed es (step (push t frame) w) now disk (step-IsConsistent (push t frame) w i) k' n
      ∙ ap (λ ps. refreshed now (merge_pushes disk ps))
          (ap (λ ps. ps ++ pushed es) p ∙ append_assoc _ (frame ∷ []) _)
  load-refreshed (request t ∷ es) w now disk i k n =
      let (k', p) = request_while_loading t w k in
      load-refreshed es (step (request t) w) now disk (step-IsConsistent (request t) w i) k' n
      ∙ ap (λ ps. refreshed now (merge_pushes disk (ps ++ pushed es))) p
  load-refreshed (load_done t d ∷ es) w now disk i k n = absurd n

  stale_request_loads :
      (now : ℕ) (w : World F)
      → IsConsistent w
      → w.cache.value.refreshing ≡ false
      → cache_fresh now w.cache.value ≡ false
      → (step (request now) w).cache.value.refreshing ≡ true
        × (step (request now) w).cache.value.pending_pushes ≡ []
  unfolding step decide
  stale_request_loads now w i k stale =
      (ground (arith, i.sound, k, stale), ground (arith, i.sound, k, stale, i.none_waits))

  -- In a consistent world with no load in flight, a request that finds a stale cache starts a
  -- load, whatever the cache holds. Whatever pushes and requests come before that load is
  -- applied, the cache is then what the load read with every one of those pushes merged in, in
  -- order; none waits, and `refreshing` is off.
  pub load_keeps_pushes :
      (w : World F) (es : List (Event F)) (began now : ℕ) (disk : List (AggregatedFrame F))
      → IsConsistent w
      → w.cache.value.refreshing ≡ false
      → cache_fresh began w.cache.value ≡ false
      → HasNoLoadDone es
      → (run (request began ∷ es ++ load_done now disk ∷ []) w).cache
        ≡ refreshed now (merge_pushes disk (pushed es))
  unfolding run
  load_keeps_pushes w es began now disk i k stale n =
      let (k', none_wait) = stale_request_loads began w i k stale in
      load-refreshed es (step (request began) w) now disk (step-IsConsistent (request began) w i) k'
        n
      ∙ ap (λ ps. refreshed now (merge_pushes disk (ps ++ pushed es))) none_wait

  after_push : ℕ → AggregatedFrame F → World F → World F
  after_push now frame w = record w {
    cache = record w.cache {
      value = record w.cache.value {
        refreshed_at_ms = now;
        frames = merge_frame_into_vec w.cache.value.frames frame;
      };
    };
  }

  push_while_idle :
      (now : ℕ) (frame : AggregatedFrame F) (w : World F)
      → w.cache.poisoned ≡ false
      → w.cache.value.refreshing ≡ false
      → step (push now frame) w ≡ after_push now frame w
  unfolding step record_aggregated_frame after_push
  push_while_idle now frame w h k = rw (h, k) refl

  request_while_fresh :
      (now : ℕ) (w : World F)
      → IsConsistent w
      → w.cache.value.refreshing ≡ false
      → now ≤ w.cache.value.refreshed_at_ms + frames_cache_ttl_ms
      → step (request now) w ≡ w
  unfolding step decide
  request_while_fresh now w i k near = ground (arith, i.sound, near)

  load_while_idle :
      (now : ℕ) (disk : List (AggregatedFrame F)) (w : World F)
      → w.loads ≡ 0
      → step (load_done now disk) w ≡ w
  unfolding step
  load_while_idle now disk w none_runs = ground (arith, none_runs)

  -- Every request comes at most `frames_cache_ttl_ms` after the last push, `last` at first.
  abbrev pub IsPaced : ℕ → List (Event F) → Type 0
  IsPaced last [] = Unit {0}
  IsPaced last (push now frame ∷ es) = IsPaced now es
  IsPaced last (request now ∷ es) = now ≤ last + frames_cache_ttl_ms × IsPaced last es
  IsPaced last (load_done now disk ∷ es) = IsPaced last es

  -- In a consistent world with no load in flight, while each request comes at most 5 seconds
  -- after the last push, no request starts a load: the cache holds what it held before with the
  -- pushes merged in, and frames that are only on disk stay out of it.
  pub paced_never_loads :
      (es : List (Event F)) (w : World F)
      → IsConsistent w
      → w.cache.value.refreshing ≡ false
      → IsPaced w.cache.value.refreshed_at_ms es
      → (run es w).cache.value.frames ≡ merge_pushes w.cache.value.frames (pushed es)
        × (run es w).loads ≡ 0
  unfolding run merge_pushes after_push
  paced_never_loads [] w i k p = (refl, i.one_load ∙ ap in_flight k)
  paced_never_loads (push now frame ∷ es) w i k p =
      let e = push_while_idle now frame w i.sound k in
      let i' = step-IsConsistent (push now frame) w i in
      let i'' : IsConsistent (after_push now frame w) = rw (sym e) i' in
      rw (run, e) (paced_never_loads es (after_push now frame w) i'' k p)
  paced_never_loads (request now ∷ es) w i k p =
      rw (run, request_while_fresh now w i k p.0) (paced_never_loads es w i k p.1)
  paced_never_loads (load_done now disk ∷ es) w i k p =
      rw (run, load_while_idle now disk w (i.one_load ∙ ap in_flight k))
        (paced_never_loads es w i k p)
