-- ===== src/Prelude/Texts.antt =====
-- Texts as keys.
use Prim.Native.String.{String}
use mathlib.Core.Path.{◌≡◌, refl}
use mathlib.Core.Bool.{Bool, true}
use text.Mathlib.Text.{◌==◌}
use text.Mathlib.TextEquality.{eq_iff}

abbrev pub same_text : String → String → Bool
same_text s t = s == t

pub same_text_sound : (s t : String) → same_text s t ≡ true → s ≡ t
same_text_sound s t h = (eq_iff s t).0 h

pub same_text_self : (s : String) → same_text s s ≡ true
same_text_self s = (eq_iff s s).1 refl
