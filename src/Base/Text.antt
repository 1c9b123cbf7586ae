-- ===== src/Base/Text.antt =====
-- Text is compared as a whole: a decision on equality, from the library's test.
pub use Prim.Native.String.{String}
use mathlib.Core.Path.{◌≡◌, refl}
use mathlib.Core.Logic.{ite, if_pos, ◌≢◌}
use mathlib.Core.Bool.{Bool, true, false}
use text.Mathlib.Text.{◌==◌}
use text.Mathlib.TextEquality.{eq_iff}

from_test : (s t : String) (b : Bool) → (s == t) ≡ b → Dec (s ≡ t)
from_test s t true e = yes ((eq_iff s t).0 e)
from_test s t false e = no (λ p. cc (e, (eq_iff s t).1 p))

-- `s == t` on std::string.
unfoldable pub text_dec : (s t : String) → Dec (s ≡ t)
unfolding from_test
text_dec s t = from_test s t (s == t) refl

-- `s.empty()`.
abbrev pub is_empty : String → Bool
is_empty s = ite (text_dec s "") true false

pub text_dec_self {ℓ} : {A : Type ℓ} (s : String) (x y : A) → ite (text_dec s s) x y ≡ x
text_dec_self s x y = if_pos (text_dec s s) refl x y

pub text_ne : (s t : String) → (s == t) ≡ false → s ≢ t
text_ne s t h e = cc (h, (eq_iff s t).1 e)
