-- ===== src/Gateway/Storage/Names.antt =====
-- Which files of the directory count as frames, by their names.

use comp2432_project.Prelude.{
  ◌≡◌, refl, ap, ◌∙◌, Bool, true, false, Option, none, some, List, [], ◌∷◌, ◌++◌, ◌==◌, Bool-cases,
  inl, inr, arith,
}
use comp2432_project.Prelude.Decimal.{print_nat}
use comp2432_project.Prelude.Sort.{retain}
use comp2432_project.Gateway.Main.{Text, codes}
use comp2432_project.Models.{AggregatedFrame}
use comp2432_project.Dashboard.Disk.{DataFile, text_eq, behind_last_dot, extension, is_json}
use comp2432_project.Gateway.Storage.{final_name, tmp_name, named, content_of, without, put}

pub text_eq_sound : (s t : Text) → text_eq s t ≡ true → s ≡ t
text_eq_sound [] [] h = refl
text_eq_sound [] (d ∷ ds) h = cc
text_eq_sound (c ∷ cs) [] h = cc
text_eq_sound (c ∷ cs) (d ∷ ds) h = elim (Bool-cases (c == d)) [
  | inl e ↦
      let rest : text_eq cs ds ≡ true = rw e at h in
      let same : c ≡ d = ground arith in cc (text_eq_sound cs ds rest, same)
  | inr e ↦ let wrong : false ≡ true = rw e at h in cc
]

pub text_eq_self : (s : Text) → text_eq s s ≡ true
text_eq_self [] = refl
text_eq_self (c ∷ cs) = ground (arith, text_eq_self cs)

-- What follows the last dot of the end follows the last dot of the whole.
pub behind-append :
    (xs ys : Text) {after : Text}
    → behind_last_dot ys ≡ some after
    → behind_last_dot (xs ++ ys) ≡ some after
behind-append [] ys h = h
behind-append (x ∷ xs) ys h = rw (behind-append xs ys h, behind_last_dot)

pub is_json_lem :
    (file : DataFile) {after : Text}
    → extension file.name ≡ some after
    → is_json file ≡ text_eq after (codes "json")
unfolding is_json
is_json_lem file e =
    ap
      (λ (o : Option Text). elim o as (λ _. Bool) [
        | none ↦ false
        | some e ↦ text_eq e (codes "json")
      ])
      e

-- Whether a file counts depends on its name.
pub is_json-name : (a b : DataFile) → a.name ≡ b.name → is_json a ≡ is_json b
unfolding is_json
is_json-name a b e =
    ap
      (λ (name : Text). elim (extension name) as (λ _. Bool) [
        | none ↦ false
        | some e ↦ text_eq e (codes "json")
      ])
      e

module _ {F : Type 0} (frame : AggregatedFrame F) (content : Text) where
  pub tmp-hidden : is_json (record { name = tmp_name frame; content = content }) ≡ false
  unfolding extension
  tmp-hidden =
      is_json_lem (record { name = tmp_name frame; content = content })
        (behind-append (final_name frame) (codes ".tmp") refl)

  pub final-shown : is_json (record { name = final_name frame; content = content }) ≡ true
  unfolding extension final_name
  final-shown =
      let tail = print_nat frame.frame_id ++ codes ".json" in
      let middle = print_nat frame.window_end ++ (codes "_" ++ tail) in
      is_json_lem (record { name = final_name frame; content = content })
        (behind-append (codes "rame_") middle (
          behind-append (print_nat frame.window_end) (codes "_" ++ tail) (
            behind-append (codes "_") tail
              (behind-append (print_nat frame.frame_id) (codes ".json") refl))))

-- Removing a file that does not count, and removing any file and counting.
module _ (name : Text) where
  pub retain-without_hidden :
      (files : List DataFile)
      → is_json (record { name = name; content = [] }) ≡ false
      → retain is_json (without name files) ≡ retain is_json files
  unfolding retain
  retain-without_hidden [] h = refl
  retain-without_hidden (file ∷ files) h = elim (Bool-cases (named name file)) [
    | inl e ↦
        let hidden : is_json file ≡ false =
          is_json-name file (record { name = name; content = [] }) (text_eq_sound file.name name e)
          ∙ h in
        rw e (rw hidden (retain-without_hidden files h))
    | inr e ↦ rw e (elim (Bool-cases (is_json file)) [
      | inl j ↦ rw j (ap (λ fs. file ∷ fs) (retain-without_hidden files h))
      | inr j ↦ rw j (retain-without_hidden files h)
    ])
  ]

  pub content_of-put :
      (content : Text) (files : List DataFile) → content_of name (put name content files) ≡ content
  content_of-put content files = rw (text_eq_self name)

pub retain_comm {ℓ} :
    {A : Type ℓ} (p q : A → Bool) (xs : List A) → retain p (retain q xs) ≡ retain q (retain p xs)
unfolding retain
retain_comm p q [] = refl
retain_comm p q (x ∷ xs) = ground (arith, retain_comm p q xs)

module _ {F : Type 0} (frame : AggregatedFrame F) where
  -- Nothing that is put into the temporary file counts.
  pub hidden_put :
      (content : Text) (files : List DataFile)
      → retain is_json (put (tmp_name frame) content files) ≡ retain is_json files
  unfolding retain
  hidden_put content files =
      rw (tmp-hidden frame content)
        (retain-without_hidden (tmp_name frame) files (tmp-hidden frame []))
