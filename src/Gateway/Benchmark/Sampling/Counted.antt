-- ===== src/Gateway/Benchmark/Sampling/Counted.antt =====
-- The readings that the sampling loop counts as processed, against the frames that it has been shown.
use comp2432_project.Prelude.{
  ℕ, ◌+◌, ◌≤◌, ◌≡◌, refl, ap, ◌∙◌, min, true, Option, none, some, List, [], ◌∷◌, ◌++◌,
  if◌then◌else◌, ltb, Bool-cases, inl, inr, arith,
}
use comp2432_project.Prelude.Floats.{FloatOps}
use comp2432_project.Prelude.Sort.{All}
use comp2432_project.Models.{AggregatedFrame}
use comp2432_project.Gateway.Benchmark.Sampling.{
  SamplingConfig, total_duration, Fetched, Tick, Sampler, CpuSampler, max_u64, saturating_add,
  and_then, contains, frame_count, count_new, sample_row, sample_tick, sampling_loop, first_sampler,
}

module _ {F : Type 0} where
  -- The frames whose id comes up for the first time, when the ids of `seen` have come up before.
  abbrev pub first_seen : List ℕ → List (AggregatedFrame F) → List (AggregatedFrame F)
  first_seen seen [] = []
  first_seen seen (frame ∷ frames) =
      let old = first_seen seen frames in
      let new = frame ∷ first_seen (frame.frame_id ∷ seen) frames in
      if contains seen frame.frame_id then old else new

  abbrev pub total_count : List (AggregatedFrame F) → ℕ
  total_count [] = 0
  total_count (frame ∷ frames) = frame_count frame + total_count frames

  -- The turns of the loop: the ticks before the time is up.
  abbrev pub turns : SamplingConfig → List (Tick F) → List (Tick F)
  turns cfg [] = []
  turns cfg (tick ∷ ticks) =
      let on = tick ∷ turns cfg ticks in if ltb tick.tested_at (total_duration cfg) then on else []

  -- The dashboard has answered and the row could be written.
  abbrev pub IsAnswered : Tick F → Type 0
  IsAnswered tick = (got : Fetched F) × (tick.fetched ≡ some got) × (tick.row_written ≡ true)

  abbrev pub frames_of : Tick F → List (AggregatedFrame F)
  frames_of tick = elim tick.fetched [ none ↦ [] | some got ↦ got.latest_frames ]

  abbrev pub frames_shown : List (Tick F) → List (AggregatedFrame F)
  frames_shown [] = []
  frames_shown (tick ∷ ticks) = frames_of tick ++ frames_shown ticks

  abbrev seen_after : List ℕ → List (AggregatedFrame F) → List ℕ
  seen_after seen [] = seen
  seen_after seen (frame ∷ frames) =
      let old = seen_after seen frames in
      let new = seen_after (frame.frame_id ∷ seen) frames in
      if contains seen frame.frame_id then old else new

  total_count-append :
      (xs ys : List (AggregatedFrame F)) → total_count (xs ++ ys) ≡ total_count xs + total_count ys
  total_count-append [] ys = omega arith
  total_count-append (x ∷ xs) ys = omega (arith, total_count-append xs ys)

  total_first_seen-append :
      (seen : List ℕ) (xs ys : List (AggregatedFrame F))
      → total_count (first_seen seen (xs ++ ys))
        ≡ total_count (first_seen seen xs) + total_count (first_seen (seen_after seen xs) ys)
  total_first_seen-append seen [] ys = omega arith
  total_first_seen-append seen (x ∷ xs) ys = elim (Bool-cases (contains seen x.frame_id)) [
    | inl e ↦ rw e (total_first_seen-append seen xs ys)
    | inr e ↦ rw e (omega (arith, total_first_seen-append (x.frame_id ∷ seen) xs ys))
  ]

  count_new-seen :
      (xs : List (AggregatedFrame F)) (seen : List ℕ) (n : ℕ)
      → (count_new xs seen n).0 ≡ seen_after seen xs
  unfolding count_new
  count_new-seen [] seen n = refl
  count_new-seen (x ∷ xs) seen n = elim (Bool-cases (contains seen x.frame_id)) [
    | inl e ↦ rw e (count_new-seen xs seen n)
    | inr e ↦ rw e (count_new-seen xs (x.frame_id ∷ seen) (saturating_add n (frame_count x)))
  ]

  count_new-total :
      (xs : List (AggregatedFrame F)) (seen : List ℕ) (n : ℕ)
      → n ≤ max_u64
      → (count_new xs seen n).1 ≡ min (n + total_count (first_seen seen xs)) max_u64
  unfolding count_new
  count_new-total [] seen n h = omega arith
  count_new-total (x ∷ xs) seen n h = elim (Bool-cases (contains seen x.frame_id)) [
    | inl e ↦ rw e (count_new-total xs seen n h)
    | inr e ↦ rw e (
        count_new-total xs (x.frame_id ∷ seen) (saturating_add n (frame_count x)) (omega arith)
        ∙ omega arith)
  ]

  frames_of_answer :
      (tick : Tick F) (got : Fetched F)
      → tick.fetched ≡ some got
      → frames_of tick ≡ got.latest_frames
  frames_of_answer tick got e =
      ap
        (λ (o : Option (Fetched F)). elim o as (λ _. List (AggregatedFrame F)) [
          | none ↦ []
          | some got ↦ got.latest_frames
        ])
        e

module _ {F : Type 0} (f : FloatOps F) (cfg : SamplingConfig) where
  abbrev pub sampled : Tick F → Fetched F → Sampler F → Sampler F
  sampled tick got s =
      let turned = sample_row f cfg tick got s in
      record turned.0 { samples = s.samples ++ turned.1 ∷ [] }

  pub answered_tick :
      (tick : Tick F) (got : Fetched F) (s : Sampler F)
      → tick.fetched ≡ some got
      → tick.row_written ≡ true
      → sample_tick f cfg tick s ≡ some (sampled tick got s)
  unfolding sample_tick sample_row
  answered_tick tick got s e w = rw (e, sample_tick) (rw w)

  sampled-total :
      (tick : Tick F) (got : Fetched F) (s : Sampler F)
      → s.processing_total_readings ≤ max_u64
      → (sampled tick got s).processing_total_readings
        ≡ min
            (s.processing_total_readings
              + total_count (first_seen s.seen_frame_ids got.latest_frames))
            max_u64
  unfolding sample_row
  sampled-total tick got s h =
      omega (arith, count_new-total got.latest_frames s.seen_frame_ids 0 (omega arith))

  sampled-seen :
      (tick : Tick F) (got : Fetched F) (s : Sampler F)
      → (sampled tick got s).seen_frame_ids ≡ seen_after s.seen_frame_ids got.latest_frames
  unfolding sample_row
  sampled-seen tick got s = count_new-seen got.latest_frames s.seen_frame_ids 0

  -- The loop from any state.
  loop_counts :
      (ticks : List (Tick F)) (s : Sampler F)
      → All IsAnswered (turns cfg ticks)
      → s.processing_total_readings ≤ max_u64
      → (s' : Sampler F) × (sampling_loop f cfg ticks s ≡ some s')
        × (s'.processing_total_readings
            ≡ min
                (s.processing_total_readings
                  + total_count (first_seen s.seen_frame_ids (frames_shown (turns cfg ticks))))
                max_u64)
  unfolding sampling_loop
  loop_counts [] s h k = (s, refl, omega arith)
  loop_counts (tick ∷ ticks) s h k = elim (Bool-cases (ltb tick.tested_at (total_duration cfg))) [
    | inr e ↦ (s, rw e, rw e (omega arith))
    | inl e ↦
        let h' : IsAnswered tick × All IsAnswered (turns cfg ticks) = rw e at h in
        let (got, answer, written) = h'.0 in
        let next = sampled tick got s in
        let rest = frames_shown (turns cfg ticks) in
        let turned = sampled-total tick got s k in
        let (s', runs, total) = loop_counts ticks next h'.1 (omega arith) in
        let seen : total_count (first_seen next.seen_frame_ids rest)
            ≡ total_count (first_seen (seen_after s.seen_frame_ids got.latest_frames) rest) =
          ap (λ ids. total_count (first_seen ids rest)) (sampled-seen tick got s) in
        let shown : total_count (first_seen s.seen_frame_ids (frames_of tick ++ rest))
            ≡ total_count (first_seen s.seen_frame_ids (got.latest_frames ++ rest)) =
          ap (λ frames. total_count (first_seen s.seen_frame_ids (frames ++ rest)))
            (frames_of_answer tick got answer) in
        (
          s',
          rw e (
              ap (λ o. and_then o (λ u. sampling_loop f cfg ticks u))
                (answered_tick tick got s answer written)
              ∙ runs),
          rw e (
              omega (
                arith,
                total,
                seen,
                shown,
                turned,
                total_first_seen-append s.seen_frame_ids got.latest_frames rest,
              )),
        )
  ]

  -- Where the dashboard answers every turn of the loop and every row can be written, the sampling
  -- ends without an error, and `processing_total_readings` is the sum of the reading counts of the
  -- frames shown, each frame id counted once, the first time that it is shown; the sum stops at the
  -- greatest `u64`.
  pub processing_counted_once :
      (cpu : CpuSampler) (now : ℕ) (ticks : List (Tick F))
      → All IsAnswered (turns cfg ticks)
      → (s' : Sampler F) × (sampling_loop f cfg ticks (first_sampler now cpu) ≡ some s')
        × (s'.processing_total_readings
            ≡ min (total_count (first_seen [] (frames_shown (turns cfg ticks)))) max_u64)
  processing_counted_once cpu now ticks h =
      let (s', runs, total) = loop_counts ticks (first_sampler now cpu) h (omega arith) in
      (s', runs, omega (arith, total))
