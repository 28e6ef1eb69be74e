-- ===== src/Gateway/Storage/Tests.antt =====
-- A frame written beside another, and the names that count.
use comp2432_project.Prelude.{
  ℕ, ◌+◌, ◌-◌, ◌≡◌, refl, false, Option, none, some, List, [], ◌∷◌, ◌++◌, map, arith,
}
use comp2432_project.Prelude.Decimal.{print_nat}
use comp2432_project.Gateway.Main.{Text, codes}
use comp2432_project.Models.{AggregatedFrame}
use comp2432_project.Dashboard.Cache.{FramesCacheState, Mutex, default}
use comp2432_project.Dashboard.Disk.{DataFile, extension, load_all_frames}
use comp2432_project.Gateway.Storage.{
  final_name, tmp_name, create_truncated, append_to, without, run_steps, write,
}
use comp2432_project.Gateway.Storage.Atomic.{write_is_atomic}

abbrev frame : ℕ → AggregatedFrame ℕ
frame id = record {
  frame_id = id;
  window_start = 0;
  window_end = 2_000;
  sensor_stats = [];
  anomalies = [];
  sensor_internal_buffer_max = [];
}

-- Texts of frames for the test: "7" and "8".
abbrev to_json : AggregatedFrame ℕ → Text
to_json f = (48 + f.frame_id) ∷ []

abbrev from_json : Text → Option (AggregatedFrame ℕ)
from_json [] = none
from_json (c ∷ cs) = some (frame (c - 48))

abbrev files : List DataFile
files =
    record { name = codes "frame_1000_7.json"; content = codes "7\n" }
    ∷ record { name = codes ".frame_2000_8.json.tmp"; content = codes "half" }
    ∷ []

abbrev cold : Mutex (FramesCacheState ℕ)
cold = record { poisoned = false; value = default }

write_is_atomic_example :
    (load_all_frames from_json (
        some (
          run_steps
            (create_truncated (tmp_name (frame 8))
              ∷ map (append_to (tmp_name (frame 8))) (codes "{" ∷ []))
            files))
      ≡ load_all_frames from_json (some files))
    × ((front back : List (AggregatedFrame ℕ)) × (load_all_frames from_json
            (some (write to_json 2_100 (frame 8) (files, cold)).0)
          ≡ front ++ frame 8 ∷ back)
        × (load_all_frames from_json (some (without (final_name (frame 8)) files)) ≡ front ++ back))
write_is_atomic_example =
    write_is_atomic to_json from_json (frame 8) files (codes "{" ∷ []) 2_100 cold
      ((λ e. omega arith, λ e. omega arith), tt) refl

name_of_8 : final_name (frame 8) ≡ codes "frame_2000_8.json"
unfolding final_name print_nat
name_of_8 = refl

hidden_name : extension (codes ".json") ≡ none
unfolding extension
hidden_name = refl
