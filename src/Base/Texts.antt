-- ===== src/Base/Texts.antt =====
-- Equality of texts as a test.
use Prim.Native.String.{String}
use mathlib.Core.Path.{◌≡◌, refl}
use mathlib.Core.Bool.{true}
use text.Mathlib.Text.{◌==◌ as str_eq}
use text.Mathlib.TextEquality.{eq_iff}

pub str_eq_refl : (s : String) → str_eq s s ≡ true
str_eq_refl s = (eq_iff s s).1 refl

pub str_eq→eq : (s t : String) → str_eq s t ≡ true → s ≡ t
str_eq→eq s t h = (eq_iff s t).0 h

pub eq→str_eq : (s t : String) → s ≡ t → str_eq s t ≡ true
eq→str_eq s t h = (eq_iff s t).1 h
