-- ===== src/Gateway/Storage.antt =====
-- gateway/src/storage.rs: `DataStorage`, the steps by which a frame becomes a file.
pub mod Names
pub mod Atomic
mod Tests
use comp2432_project.Prelude.{
  ℕ, Bool, true, false, not, Option, none, some, List, [], ◌∷◌, ◌++◌, if◌then◌else◌,
}
use comp2432_project.Prelude.Decimal.{print_nat}
use comp2432_project.Prelude.Sort.{retain}
use comp2432_project.Gateway.Main.{Text, codes}
use comp2432_project.Models.{AggregatedFrame}
use comp2432_project.Dashboard.Cache.{FramesCacheState, Mutex, record_aggregated_frame}
use comp2432_project.Dashboard.Disk.{DataFile, text_eq}

module _ {F : Type 0} where
  -- `frame_{window_end}_{frame_id}.json`
  unfoldable pub final_name : AggregatedFrame F → Text
  final_name frame =
      codes "frame_"
      ++ (print_nat frame.window_end ++ (codes "_" ++ (print_nat frame.frame_id ++ codes ".json")))

  abbrev pub tmp_name : AggregatedFrame F → Text
  tmp_name frame = codes "." ++ (final_name frame ++ codes ".tmp")

-- What `write` does to the directory. `writeln!` writes the text and the line feed one by one.
pub data FileStep : Type 0 where
  create_truncated : Text → FileStep
  append_to : Text → Text → FileStep
  sync_all : Text → FileStep
  rename : Text → Text → FileStep

abbrev pub named : Text → DataFile → Bool
named name file = text_eq file.name name

-- The file's content, and the directory without the file.
abbrev pub content_of : Text → List DataFile → Text
content_of name [] = []
content_of name (file ∷ files) = if named name file then file.content else content_of name files

abbrev pub without : Text → List DataFile → List DataFile
without name files = retain (λ file. not (named name file)) files

abbrev pub put : Text → Text → List DataFile → List DataFile
put name content files = record { name = name; content = content } ∷ without name files

pub file_step : FileStep → List DataFile → List DataFile
file_step (create_truncated name) files = put name [] files
file_step (append_to name text) files = put name (content_of name files ++ text) files
file_step (sync_all name) files = files
file_step (rename src dst) files = put dst (content_of src files) (without src files)

pub run_steps : List FileStep → List DataFile → List DataFile
unfolding file_step
run_steps [] files = files
run_steps (step ∷ steps) files = run_steps steps (file_step step files)

module _ {F : Type 0} (to_json : AggregatedFrame F → Text) where
  -- The steps up to the rename, and all.
  abbrev pub prepare_steps : AggregatedFrame F → List FileStep
  prepare_steps frame =
      create_truncated (tmp_name frame)
      ∷ append_to (tmp_name frame) (to_json frame)
      ∷ append_to (tmp_name frame) (codes "\n")
      ∷ sync_all (tmp_name frame)
      ∷ []

  abbrev pub write_steps : AggregatedFrame F → List FileStep
  write_steps frame = prepare_steps frame ++ rename (tmp_name frame) (final_name frame) ∷ []

  -- The call, at the time `now`: the file, and then the dashboard's cache.
  unfoldable pub write :
      ℕ
      → AggregatedFrame F
      → List DataFile × Mutex (FramesCacheState F)
      → List DataFile × Mutex (FramesCacheState F)
  unfolding run_steps
  write now frame (files, cache) =
      (run_steps (write_steps frame) files, (record_aggregated_frame now frame cache).0)
