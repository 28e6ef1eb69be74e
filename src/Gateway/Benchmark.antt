-- ===== src/Gateway/Benchmark.antt =====
-- gateway/src/benchmark/collector.rs: what the load workers count. A response is whether the request
-- succeeded and how long it took; the workers share the counters under a lock, so the responses come
-- in the order in which they take it.
pub mod Kept
pub mod Scenario
pub mod Sampling
pub mod Report
use comp2432_project.Prelude.{
  ℕ, ◌+◌, ◌%◌, ◌^◌, Bool, List, [], ◌∷◌, ◌++◌, length, drop, if◌then◌else◌, ltb,
}

abbrev pub max_http_latency_samples : ℕ
max_http_latency_samples = 50000

pub record HttpLoadMetrics : Type 0 where
  pub success : ℕ
  pub fail : ℕ
  pub latencies_us : List ℕ

abbrev pub default_metrics : HttpLoadMetrics
default_metrics = record { success = 0; fail = 0; latencies_us = [] }

unfoldable pub push_latency_sample : List ℕ → ℕ → List ℕ
push_latency_sample buf sample =
    if ltb (length buf) max_http_latency_samples
    then buf ++ sample ∷ []
    else drop 1 buf ++ sample ∷ []

-- What a worker does under the lock with a response.
unfoldable pub count_response : Bool × ℕ → HttpLoadMetrics → HttpLoadMetrics
count_response (ok, latency_us) g =
    if ok
    then record g {
      success = (g.success + 1) % 2 ^ 64;
      latencies_us = push_latency_sample g.latencies_us latency_us;
    }
    else record g { fail = (g.fail + 1) % 2 ^ 64 }

unfoldable pub count_responses : List (Bool × ℕ) → HttpLoadMetrics → HttpLoadMetrics
count_responses [] g = g
count_responses (r ∷ rs) g = count_responses rs (count_response r g)
