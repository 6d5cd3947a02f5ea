-- ===== src/Base/Text.antt =====
-- Tests on texts, and the parts of a text that the source takes with slices and splits.
use Prim.Native.Nat.{ℕ, zero, suc}
use Prim.Native.String.{String}
use Prim.Native.Char.{code}
use flakehound.Base.Tests.{◌==◌ as nat_eq, ltb, if◌then◌else◌}
use mathlib.Core.Bool.{Bool, true, false, ◌||◌}
use mathlib.Core.Option.{Option, none, some}
use text.Mathlib.Text.{◌==◌}

abbrev pub same : String → String → Bool
same s t = s == t

-- error[:n]
unfoldable pub clip : ℕ → String → String
clip zero s = ""
clip (suc n) String.[] = ""
clip (suc n) (String.◌∷◌ c s) = String.◌∷◌ c (clip n s)

-- SQL's `column IS NOT DISTINCT FROM value` at a text.
abbrev pub same_text? : Option String → Option String → Bool
same_text? none none = true
same_text? (some s) (some t) = s == t
same_text? _ _ = false

unfoldable pub has_slash : String → Bool
has_slash String.[] = false
has_slash (String.◌∷◌ c s) = (String.◌∷◌ c "" == "/") || has_slash s

abbrev pub text_if : Bool → String → String → String
text_if true s t = s
text_if false s t = t

-- s.split("/")[0]
unfoldable pub before_slash : String → String
before_slash String.[] = ""
before_slash (String.◌∷◌ c s) = text_if (String.◌∷◌ c "" == "/") "" (String.◌∷◌ c (before_slash s))

-- s.rpartition("/")[2]: all of it where there is no slash.
unfoldable pub after_last_slash : String → String
unfolding has_slash
after_last_slash String.[] = ""
after_last_slash (String.◌∷◌ c s) =
    text_if (has_slash s) (after_last_slash s) (text_if (String.◌∷◌ c "" == "/") s (String.◌∷◌ c s))

-- On texts, by code points, and then on what follows them in a tuple.
unfoldable pub text_le_then : String → String → Bool → Bool
text_le_then String.[] String.[] rest = rest
text_le_then String.[] (String.◌∷◌ d t) rest = true
text_le_then (String.◌∷◌ c s) String.[] rest = false
text_le_then (String.◌∷◌ c s) (String.◌∷◌ d t) rest =
    let later = text_le_then s t rest in
    if nat_eq (code c) (code d) then later else ltb (code c) (code d)
