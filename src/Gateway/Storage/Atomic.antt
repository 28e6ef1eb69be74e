-- ===== src/Gateway/Storage/Atomic.antt =====
-- What `load_all_frames` reads while a frame is written and afterwards.
use comp2432_project.Prelude.{
  ℕ, ◌≡◌, ◌≢◌, refl, sym, ap, ap₂, ◌∙◌, Bool, not, Option, some, List, [], ◌∷◌, ◌++◌, map,
  append-nil, append_assoc, ◌==◌, Bool-cases, inl, inr, arith,
}
use comp2432_project.Prelude.Sort.{All, retain, insert_by, sort_by}
use comp2432_project.Gateway.Main.{Text, codes}
use comp2432_project.Models.{AggregatedFrame}
use comp2432_project.Dashboard.Cache.{FramesCacheState, Mutex}
use comp2432_project.Dashboard.Disk.{
  DataFile, is_json, strip_return, lines_from, parse_lines, frames_of_files, path_order,
  load_all_frames,
}
use comp2432_project.Gateway.Storage.{
  final_name, tmp_name, create_truncated, append_to, named, content_of, without, put, file_step,
  run_steps, prepare_steps, write_steps, write,
}
use comp2432_project.Gateway.Storage.Names.{
  hidden_put, tmp-hidden, final-shown, retain-without_hidden, content_of-put, retain_comm,
}

-- A text of one line.
abbrev pub IsOneLine : Text → Type 0
IsOneLine text = All (λ c. (c ≢ 10) × (c ≢ 13)) text

strip-one_line : (text : Text) → IsOneLine text → strip_return text ≡ text
strip-one_line [] h = refl
strip-one_line (c ∷ []) h = ground (arith, h.0.1)
strip-one_line (c ∷ d ∷ cs) h = ap (λ ds. c ∷ ds) (strip-one_line (d ∷ cs) h.1)

lines-one_line :
    (line text : Text)
    → IsOneLine text
    → lines_from line (text ++ codes "\n") ≡ strip_return (line ++ text) ∷ []
lines-one_line line [] h = rw (append-nil line)
lines-one_line line (c ∷ text) h = elim (Bool-cases (c == 10)) [
  | inl e ↦ absurd (h.0.0 (ground arith))
  | inr e ↦ rw e (
      lines-one_line (line ++ c ∷ []) text h.1
      ∙ ap (λ t. strip_return t ∷ []) (append_assoc line (c ∷ []) text))
]

insert_by-split {ℓ} :
    {A : Type ℓ} (le : A → A → Bool) (x : A) (ys : List A)
    → (front back : List A) × (insert_by le x ys ≡ front ++ x ∷ back) × (ys ≡ front ++ back)
unfolding insert_by
insert_by-split le x [] = ([], [], refl, refl)
insert_by-split le x (y ∷ ys) = elim (Bool-cases (le x y)) [
  | inl e ↦ ([], y ∷ ys, rw e, refl)
  | inr e ↦
      let (front, back, split, whole) = insert_by-split le x ys in
      (y ∷ front, back, rw e (ap (λ zs. y ∷ zs) split), ap (λ zs. y ∷ zs) whole)
]

module _ {F : Type 0} (to_json : AggregatedFrame F → Text)
    (from_json : Text → Option (AggregatedFrame F)) where
  frames-append :
      (xs ys : List DataFile)
      → frames_of_files from_json (xs ++ ys)
        ≡ frames_of_files from_json xs ++ frames_of_files from_json ys
  frames-append [] ys = refl
  frames-append (x ∷ xs) ys =
      ap (λ fs. parse_lines from_json (lines_from [] x.content) ++ fs) (frames-append xs ys)
      ∙ sym (
          append_assoc (parse_lines from_json (lines_from [] x.content))
            (frames_of_files from_json xs) (frames_of_files from_json ys))

  -- Steps on the temporary file.
  hidden_appends :
      (frame : AggregatedFrame F) (pieces : List Text) (files : List DataFile)
      → retain is_json (run_steps (map (append_to (tmp_name frame)) pieces) files)
        ≡ retain is_json files
  unfolding run_steps
  hidden_appends frame [] files = refl
  hidden_appends frame (piece ∷ pieces) files =
      hidden_appends frame pieces _
      ∙ hidden_put frame (content_of (tmp_name frame) files ++ piece) files

  hidden_start :
      (frame : AggregatedFrame F) (pieces : List Text) (files : List DataFile)
      → retain is_json (
          run_steps
            (create_truncated (tmp_name frame) ∷ map (append_to (tmp_name frame)) pieces)
            files)
        ≡ retain is_json files
  unfolding run_steps file_step
  hidden_start frame pieces files =
      hidden_appends frame pieces (put (tmp_name frame) [] files) ∙ hidden_put frame [] files

  module _ (frame : AggregatedFrame F) (files : List DataFile) where
    abbrev prepared : List DataFile
    prepared = run_steps (prepare_steps to_json frame) files

    prepared-content : content_of (tmp_name frame) prepared ≡ to_json frame ++ codes "\n"
    unfolding run_steps file_step
    prepared-content =
        let made = content_of-put (tmp_name frame) [] files in
        content_of-put (tmp_name frame) _ _
        ∙ ap (λ t. t ++ codes "\n")
            (content_of-put (tmp_name frame) _ _ ∙ ap (λ t. t ++ to_json frame) made)

    prepared-shown : retain is_json prepared ≡ retain is_json files
    unfolding run_steps file_step
    prepared-shown = hidden_put frame _ _ ∙ hidden_put frame _ _ ∙ hidden_put frame [] files

    renamed-shown :
        retain is_json (without (final_name frame) (without (tmp_name frame) prepared))
        ≡ retain is_json (without (final_name frame) files)
    renamed-shown =
        let other = λ (file : DataFile). not (named (final_name frame) file) in
        retain_comm is_json other (without (tmp_name frame) prepared)
        ∙ ap (retain other)
            (retain-without_hidden (tmp_name frame) prepared (tmp-hidden frame []) ∙ prepared-shown)
        ∙ sym (retain_comm is_json other files)

    abbrev new_file : DataFile
    new_file = record { name = final_name frame; content = to_json frame ++ codes "\n" }

    written-files :
        retain is_json (run_steps (write_steps to_json frame) files)
        ≡ new_file ∷ retain is_json (without (final_name frame) files)
    unfolding run_steps file_step retain
    written-files = rw (final-shown frame (content_of (tmp_name frame) prepared)) (
        ap₂
          (λ (c : Text) (fs : List DataFile). record { name = final_name frame; content = c } ∷ fs)
          prepared-content renamed-shown)

    -- While the temporary file is created and appended to, in whatever pieces, `load_all_frames` reads
    -- what it read before. When all steps of a write are done it reads the frame and all that it would
    -- read without the file of that name, in the same order, where the frame's text has one line and
    -- is parsed back.
    pub write_is_atomic :
        (pieces : List Text) (now : ℕ) (cache : Mutex (FramesCacheState F))
        → IsOneLine (to_json frame)
        → from_json (to_json frame) ≡ some frame
        → (load_all_frames from_json (
              some (
                run_steps
                  (create_truncated (tmp_name frame) ∷ map (append_to (tmp_name frame)) pieces)
                  files))
            ≡ load_all_frames from_json (some files))
          × ((front back : List (AggregatedFrame F)) × (load_all_frames from_json
                  (some (write to_json now frame (files, cache)).0)
                ≡ front ++ frame ∷ back)
              × (load_all_frames from_json (some (without (final_name frame) files))
                  ≡ front ++ back))
    unfolding write load_all_frames sort_by
    write_is_atomic pieces now cache one back_again =
        let old = sort_by path_order (retain is_json (without (final_name frame) files)) in
        let (front, back, split, whole) = insert_by-split path_order new_file old in
        let unseen = hidden_start frame pieces files in
        let parsed : parse_lines from_json (lines_from [] new_file.content) ≡ frame ∷ [] =
          rw (lines-one_line [] (to_json frame) one)
            (rw (strip-one_line (to_json frame) one) (rw (back_again, parse_lines) refl)) in
        (
          ap (λ fs. frames_of_files from_json (sort_by path_order fs)) unseen,
          (
            frames_of_files from_json front,
            frames_of_files from_json back,
            ap (λ fs. frames_of_files from_json (sort_by path_order fs)) written-files
                ∙ ap (frames_of_files from_json) split
                ∙ frames-append front (new_file ∷ back)
                ∙ ap
                    (λ fs.
                      frames_of_files from_json front ++ (fs ++ frames_of_files from_json back))
                    parsed,
            ap (frames_of_files from_json) whole ∙ frames-append front back,
          ),
        )
