-- ===== src/Prelude/Text.antt =====
-- Texts that the program only compares: keys, names and tags.
use Prim.Native.String.{String, ◌++◌, find, len}
use mathlib.Core.Path.{◌≡◌, refl}
use mathlib.Core.Logic.{◌≢◌}
use mathlib.Core.Bool.{Bool, true, false, ◌||◌}
use mathlib.Core.Option.{Option, none, some}
use mathlib.Core.List.{List, [], ◌∷◌}
use native.Mathlib.Omega.{arith}
use text.Mathlib.Text.{◌==◌}
use text.Mathlib.TextEquality.{eq_iff}
use harness_auto_test_eviden.Prelude.Tests.{leb, if◌then◌else◌}

infix 50 ◌===◌
abbrev pub ◌===◌ : String → String → Bool
s === t = s == t

-- `x in {…}` for a set of texts.
abbrev pub member : String → List String → Bool
member s [] = false
member s (t ∷ ts) = s == t || member s ts

-- `x or y` where x is a text that may be missing: a missing and an empty text are false.
abbrev pub or_text : Option String → String → String
or_text none d = d
or_text (some s) d = if s == "" then d else s

pub ===-refl : (s : String) → (s === s) ≡ true
===-refl s = (eq_iff s s).1 refl

pub ===-false : (s t : String) → s ≢ t → (s === t) ≡ false
===-false s t h = ground (arith, eq_iff s t)

-- An f-string of two parts.
abbrev pub joined : String → String → String
joined s t = s ++ t

-- `t in s`: the search ends inside the text.
abbrev pub contains : String → String → Bool
contains s t = leb (find s t) (len s)
