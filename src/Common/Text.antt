-- ===== src/Common/Text.antt =====
-- Whole texts, which the program only compares: a decision of their equality, and its Boolean.
use Prim.Native.String.{String}
use mathlib.Core.Path.{◌≡◌, refl}
use mathlib.Core.Bool.{Bool, true, false}
use mathlib.Core.Logic.{◌≢◌}
use text.Mathlib.Text.{◌==◌ as str_eq}
use text.Mathlib.TextEquality.{eq_iff}
use native.Mathlib.Omega.{arith}

decide_by : (a b : String) (t : Bool) → str_eq a b ≡ t → Dec (a ≡ b)
decide_by a b true h = yes ((eq_iff a b).0 h)
decide_by a b false h = no (λ e. cc (h, (eq_iff a b).1 e))

unfoldable pub text_discrete : Discrete String
unfolding decide_by
text_discrete a b = decide_by a b (str_eq a b) refl

-- `a === b` on texts.
abbrev pub text_eqb : String → String → Bool
text_eqb a b = elim (text_discrete a b) [ yes _ ↦ true | no _ ↦ false ]

pub text_eqb→eq : (a b : String) → text_eqb a b ≡ true → a ≡ b
text_eqb→eq a b h = ground arith

pub text_eqb_refl : (a : String) → text_eqb a a ≡ true
text_eqb_refl a = ground arith

pub text_eqb→ne : (a b : String) → text_eqb a b ≡ false → a ≢ b
text_eqb→ne a b h = λ e. cc (h, e, text_eqb_refl b)
