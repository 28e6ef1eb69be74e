-- ===== src/Dashboard/Disk.antt =====
-- dashboard/src/lib.rs: `load_all_frames`, which reads the frames from the files of the data directory.
-- A directory is the list of its files, in any order, and a text the list of its characters' numbers.
use comp2432_project.Prelude.{
  Bool, true, false, ◌&&◌, ◌||◌, Option, none, some, List, [], ◌∷◌, ◌++◌, if◌then◌else◌, ltb, ◌==◌,
}
use comp2432_project.Prelude.Sort.{retain, sort_by}
use comp2432_project.Gateway.Main.{Text, codes}
use comp2432_project.Models.{AggregatedFrame}

pub record DataFile : Type 0 where
  pub name : Text
  pub content : Text

abbrev pub text_eq : Text → Text → Bool
text_eq [] [] = true
text_eq [] (d ∷ ds) = false
text_eq (c ∷ cs) [] = false
text_eq (c ∷ cs) (d ∷ ds) = c == d && text_eq cs ds

-- The order of the file names, character by character.
abbrev pub text_le : Text → Text → Bool
text_le [] ds = true
text_le (c ∷ cs) [] = false
text_le (c ∷ cs) (d ∷ ds) = ltb c d || c == d && text_le cs ds

-- What stands behind the last dot of a text, if it has a dot.
abbrev pub behind_last_dot : Text → Option Text
behind_last_dot [] = none
behind_last_dot (c ∷ cs) = elim (behind_last_dot cs) [
  | some after ↦ some after
  | none ↦ if c == 46 then some cs else none
]

-- `Path::extension`: a dot at the start of the name does not count.
unfoldable pub extension : Text → Option Text
extension [] = none
extension (c ∷ cs) = behind_last_dot cs

unfoldable pub is_json : DataFile → Bool
unfolding extension
is_json file = elim (extension file.name) [ none ↦ false | some e ↦ text_eq e (codes "json") ]

-- `BufRead::lines`: the pieces between the line feeds, without a carriage return at their end; `line`
-- is what has been read of the piece.
abbrev pub strip_return : Text → Text
strip_return [] = []
strip_return (c ∷ []) = if c == 13 then [] else c ∷ []
strip_return (c ∷ d ∷ cs) = c ∷ strip_return (d ∷ cs)

abbrev pub lines_from : Text → Text → List Text
lines_from [] [] = []
lines_from (c ∷ line) [] = (c ∷ line) ∷ []
lines_from line (c ∷ cs) =
    let next = strip_return line ∷ lines_from [] cs in
    let longer = lines_from (line ++ c ∷ []) cs in if c == 10 then next else longer

abbrev pub path_order : DataFile → DataFile → Bool
path_order a b = text_le a.name b.name

module _ {F : Type 0} (from_json : Text → Option (AggregatedFrame F)) where
  abbrev pub parse_lines : List Text → List (AggregatedFrame F)
  parse_lines [] = []
  parse_lines (line ∷ rest) = elim (from_json line) [
    | none ↦ parse_lines rest
    | some frame ↦ frame ∷ parse_lines rest
  ]

  abbrev pub frames_of_files : List DataFile → List (AggregatedFrame F)
  frames_of_files [] = []
  frames_of_files (file ∷ files) = parse_lines (lines_from [] file.content) ++ frames_of_files files

  -- `none`: the directory cannot be read. A file that cannot be opened is not in the list.
  unfoldable pub load_all_frames : Option (List DataFile) → List (AggregatedFrame F)
  load_all_frames none = []
  load_all_frames (some files) = frames_of_files (sort_by path_order (retain is_json files))
