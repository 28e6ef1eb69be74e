-- ===== src/Gateway/Benchmark/Kept.antt =====
-- What the counters of the load workers hold after any number of responses.
use native.Mathlib.Nat.{mod-lt, mod-eq_of_lt}
use comp2432_project.Prelude.{
  ℕ, suc, ◌+◌, ◌%◌, ◌^◌, ◌≤◌, ◌<◌, ◌≡◌, refl, sym, ap, ◌∙◌, Bool, true, false, List, [], ◌∷◌, ◌++◌,
  append_assoc, append-nil, length, length-append, length-drop, drop, arith, ltb, Bool-cases, inl,
  inr,
}
use comp2432_project.RoundQueue.Window.{shift-mod}
use comp2432_project.RoundQueue.Newest.{newest, newest_all, newest-cons}
use comp2432_project.Gateway.Benchmark.{
  max_http_latency_samples, HttpLoadMetrics, default_metrics, push_latency_sample, count_response,
  count_responses,
}

-- The latencies of the responses that succeeded, in order.
abbrev pub ok_latencies : List (Bool × ℕ) → List ℕ
ok_latencies [] = []
ok_latencies ((true, l) ∷ rs) = l ∷ ok_latencies rs
ok_latencies ((false, l) ∷ rs) = ok_latencies rs

-- How many responses failed.
abbrev pub failures : List (Bool × ℕ) → ℕ
failures [] = 0
failures ((true, l) ∷ rs) = failures rs
failures ((false, l) ∷ rs) = suc (failures rs)

push-length :
    (buf : List ℕ) (s : ℕ)
    → length buf ≤ max_http_latency_samples
    → length (push_latency_sample buf s) ≤ max_http_latency_samples
unfolding push_latency_sample
push-length buf s h = elim (Bool-cases (ltb (length buf) max_http_latency_samples)) [
  | inl e ↦ rw e (ground (arith, length-append buf (s ∷ [])))
  | inr e ↦ rw e (ground (arith, length-append (drop 1 buf) (s ∷ []), length-drop 1 buf))
]

-- A sample pushed into the buffer, as the start of more samples.
push-newest :
    (buf : List ℕ) (s : ℕ) (ss : List ℕ)
    → newest max_http_latency_samples (push_latency_sample buf s ++ ss)
      ≡ newest max_http_latency_samples (buf ++ s ∷ ss)
unfolding push_latency_sample
push-newest [] s ss = refl
push-newest (x ∷ buf) s ss = elim (Bool-cases (ltb (suc (length buf)) max_http_latency_samples)) [
  | inl e ↦ rw e (ap (newest max_http_latency_samples) (append_assoc (x ∷ buf) (s ∷ []) ss))
  | inr e ↦ rw e (
      ap (newest max_http_latency_samples) (append_assoc buf (s ∷ []) ss)
      ∙ sym (
          newest-cons max_http_latency_samples x (buf ++ s ∷ ss)
            (ground (arith, length-append buf (s ∷ ss)))))
]

-- Nothing more to count.
pub add-nothing : (n m : ℕ) → n < m → n ≡ (n + 0) % m
add-nothing n m h = sym (mod-eq_of_lt (omega arith) ∙ omega arith)

counts_success :
    (rs : List (Bool × ℕ)) (g : HttpLoadMetrics)
    → g.success < 2 ^ 64
    → (count_responses rs g).success ≡ (g.success + length (ok_latencies rs)) % 2 ^ 64
unfolding count_response count_responses
counts_success [] g h = add-nothing g.success (2 ^ 64) h
counts_success ((true, l) ∷ rs) g h =
    counts_success rs (count_response (true, l) g) (mod-lt (g.success + 1) (omega arith))
    ∙ sym (shift-mod (2 ^ 64) g.success (length (ok_latencies rs)))
counts_success ((false, l) ∷ rs) g h = counts_success rs (count_response (false, l) g) h

counts_failures :
    (rs : List (Bool × ℕ)) (g : HttpLoadMetrics)
    → g.fail < 2 ^ 64
    → (count_responses rs g).fail ≡ (g.fail + failures rs) % 2 ^ 64
unfolding count_response count_responses
counts_failures [] g h = add-nothing g.fail (2 ^ 64) h
counts_failures ((true, l) ∷ rs) g h = counts_failures rs (count_response (true, l) g) h
counts_failures ((false, l) ∷ rs) g h =
    counts_failures rs (count_response (false, l) g) (mod-lt (g.fail + 1) (omega arith))
    ∙ sym (shift-mod (2 ^ 64) g.fail (failures rs))

keeps_latencies :
    (rs : List (Bool × ℕ)) (g : HttpLoadMetrics)
    → length g.latencies_us ≤ max_http_latency_samples
    → (count_responses rs g).latencies_us
      ≡ newest max_http_latency_samples (g.latencies_us ++ ok_latencies rs)
unfolding count_response count_responses
keeps_latencies [] g h = sym (
    ap (newest max_http_latency_samples) (append-nil g.latencies_us)
    ∙ newest_all max_http_latency_samples g.latencies_us h)
keeps_latencies ((true, l) ∷ rs) g h =
    keeps_latencies rs (count_response (true, l) g) (push-length g.latencies_us l h)
    ∙ push-newest g.latencies_us l (ok_latencies rs)
keeps_latencies ((false, l) ∷ rs) g h = keeps_latencies rs (count_response (false, l) g) h

count_from_zero : (n m : ℕ) → (0 + n) % m ≡ n % m
count_from_zero n m = ap (λ k. k % m) (omega arith)

-- From empty counters, after any responses in any order, `success` and `fail` are the numbers of
-- those that succeeded and that failed, modulo 2^64, and the buffer holds the latencies of the
-- newest 50,000 that succeeded, in order.
pub responses_are_counted :
    (rs : List (Bool × ℕ))
    → ((count_responses rs default_metrics).success ≡ length (ok_latencies rs) % 2 ^ 64)
      × ((count_responses rs default_metrics).fail ≡ failures rs % 2 ^ 64)
      × ((count_responses rs default_metrics).latencies_us
          ≡ newest max_http_latency_samples (ok_latencies rs))
responses_are_counted rs = (
  counts_success rs default_metrics (omega arith)
      ∙ count_from_zero (length (ok_latencies rs)) (2 ^ 64),
  counts_failures rs default_metrics (omega arith) ∙ count_from_zero (failures rs) (2 ^ 64),
  keeps_latencies rs default_metrics (omega arith),
)
