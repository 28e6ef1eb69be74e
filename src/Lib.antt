-- ===== src/Lib.antt =====
-- A verification library for the sensor gateway: simulated sensors write readings into lock-free ring
-- buffers, reader threads move them into one bounded buffer, aggregation workers make a frame of each
-- time window and write it to disk, and a dashboard serves the frames from a cache.
--
-- The parts, the files that model them, and the code:
--
--   RoundQueue         os_lib/src/queue.rs, `RWRoundQueue`, `QueueReader`, `QueueWriter`. `new`,
--                      `next_index`, `try_read`, `write_overwrite`, `read_batch` and the handles' calls
--                      are functions of the same names; a pointer is an offset into the allocation, and
--                      a read or write outside it is a `fault`. The allocator is a parameter. Fifo is
--                      the abstract bounded queue; Bounds, Window, Refine, Power, New, Handles, Trace
--                      and Newest prove what they are named for.
--   RoundQueue.Interleave  The same code with one reader and one writer interleaved at every access to
--                      shared memory. `reader_step` and `writer_step` make one access each. Both
--                      threads see one order of the accesses: weaker orders are not modelled.
--   OwningQueue        os_lib/src/queue_noncopy.rs, the ring for values that are not `Copy`, which no
--                      crate includes: who owns each value, through the calls and the `Drop`. Its
--                      indices are those of RoundQueue.
--   Sensor             sensor_sim/src/{thermometer,accelerometer,force_sensor}.rs, which differ in
--                      their reading only: the type `R`. It uses RoundQueue.
--   Sensor.Waiting     `wait_for_data` of a sensor against its generator, interleaved at each access.
--   Gateway.Readings   the readings and `SensorReading`.
--   Gateway.Buffer     gateway/src/sensor_buffer.rs, `SharedBuffer`. An operation is cut where it waits
--                      on a condition variable; Schedule, Kept and Stops run any number of producers
--                      and consumers in any order and with any wake-ups.
--   Gateway.Manager    gateway/src/sensor_buffer.rs, the telemetry of `SensorBufferManager`.
--   Gateway.Reader     gateway/src/sensor_buffer.rs, the thread of `register_sensor`, which moves the
--                      readings of a Sensor into Gateway.Buffer.
--   Gateway.Rates      gateway/src/rates.rs.
--   Gateway.Stats      gateway/src/aggregation.rs, `compute_stats`, `detect_anomalies`, `make_frame`.
--   Gateway.Aggregation  gateway/src/aggregation.rs, the windows and the loop of the workers, which is
--                      cut into turns at each lock and shared value. The workers pop from
--                      Gateway.Buffer and make frames by Gateway.Stats.
--   Gateway.Pipeline   gateway/src/main.rs, sensor_buffer.rs and aggregation.rs: the threads of Sensor,
--                      Reader and Aggregation around one Buffer, and `main` from its loop to the end of
--                      `SensorBufferManager::shutdown` and `AggregationEngine::shutdown`. A call on a
--                      ring runs to its end. Threads and Turns are about one turn of a thread, Phases
--                      and Steps about what holds while `main` joins them.
--   Gateway.Monitor    gateway/src/main.rs, what `main` hands to the dashboard: the policy, and the
--                      telemetry in a round of its loop. Shown follows it to the answers of Stores.
--   Gateway.Storage    gateway/src/storage.rs, `DataStorage::write` as its steps on a directory, which is
--                      a list of files that Dashboard.Disk reads.
--   Gateway.Main       gateway/src/main.rs, the configuration, the sensors that `main` registers and the
--                      number of workers.
--   Gateway.Benchmark  gateway/src/benchmark/collector.rs, what the load workers of `run_http_load`
--                      count under their lock, and `push_latency_sample`. Scenario is mod.rs and
--                      scenarios.rs: a scenario's configuration, the text for the gateway and the
--                      readings expected; Sampling is `run_sampling`, turn by turn; Report is
--                      report.rs: `build_summary`, `build_checks` and the percentiles.
--   Dashboard.Frames   dashboard/src/lib.rs, `merge_frame_into_vec`.
--   Dashboard.Cache    dashboard/src/lib.rs, the cache of frames: `record_aggregated_frame`, the
--                      decision in `load_all_frames_on_pool`, `apply_disk_refresh_to_cache`.
--   Dashboard.Disk     dashboard/src/lib.rs, `load_all_frames` over a list of files.
--   Dashboard.Newest   dashboard/src/lib.rs, `newest_frames_bounded`.
--   Dashboard.Latest   dashboard/src/lib.rs, `load_latest_frames_for_api`, on Cache and Newest.
--   Dashboard.Shutdown  dashboard/src/lib.rs, `request_shutdown`, the end of `run` and the handlers that
--                      watch, interleaved at each access to what they share.
--   Dashboard.Telemetry  dashboard/src/lib.rs, `merge_buffer_telemetry_with_frames`.
--   Dashboard.Stores   dashboard/src/lib.rs, the stores of the telemetry, the policy that is set once, and
--                      `buffer_api`.
--   Dashboard.Queries  dashboard/src/lib.rs, what `stats_api`, `sensor_api`, `range_api` and
--                      `throughput_api` compute of the frames that they have loaded.
--   Models             common_models/src/lib.rs.
--   Prelude            lists, tests, texts, outcomes and sorting that the parts share.
--
-- Numbers are natural numbers with the wrap-around of their width written out: `usize` and `u64` are
-- 64 bits wide. `f32` and `f64` are a type with the operations of Prelude.Floats and no laws. Clock
-- readings, random readings, what is on disk and the order of threads are inputs. A `HashMap` is the
-- list of its entries.
--
-- Two functions are on fuel. `halves_to_one` tests a power of two: 64 halvings are enough for a
-- `usize`, and RoundQueue.Power proves that its answer is right. `drain` in the `Drop` of OwningQueue
-- makes as many rounds as the ring has slots: it never holds that many elements.
--
-- Not modelled: the HTTP requests, sockets and static pages of dashboard/src/lib.rs and resource.rs
-- (input and output), serde's encoding (a parameter of Storage and Disk), a step of
-- gateway/src/storage.rs that fails (the code panics there), the signals, the start of the threads and
-- the output of gateway/src/main.rs, and the child process, the requests and the output files of
-- gateway/src/benchmark.
pub mod Prelude
pub mod RoundQueue
pub mod OwningQueue
pub mod Models
pub mod Dashboard
pub mod Gateway
pub mod Sensor
