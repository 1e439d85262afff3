-- ===== src/Prelude/Text.antt =====
-- Keys made of two parts, `a + "/" + b`.
use Prim.Native.Char.{code}
use Prim.Native.String.{String, ◌++◌ as ◌<>◌}
use mathlib.Core.Path.{◌≡◌, refl, sym, ap, ap₂, ◌∙◌}
use mathlib.Core.Logic.{◌≢◌}
use text.Mathlib.TextLemmas.{nil-append, cons-append, head-eq_of_cons-eq, tail-eq_of_cons-eq}

-- No character of the text is a slash, as in the name of a Kubernetes object.
abbrev pub NoSlash : String → Type 0
NoSlash String.[] = Unit
NoSlash (String.◌∷◌ c s) = (code c ≢ b'/') × NoSlash s

pub slash-append : (b : String) → "/" <> b ≡ String.◌∷◌ "/" b
slash-append b = cons-append "/" "" b ∙ ap (String.◌∷◌ "/") (nil-append b)

-- What stands before and after the first slash of both sides.
pub flat_nil : (b : String) → "" <> "/" <> b ≡ String.◌∷◌ "/" b
flat_nil b = nil-append ("/" <> b) ∙ slash-append b

-- A text without a slash ends where the first slash stands.
pub slash-injective :
    (a c b d : String) → NoSlash a → NoSlash c → a <> "/" <> b ≡ c <> "/" <> d → (a ≡ c) × (b ≡ d)
slash-injective String.[] String.[] b d ha hc e =
    (refl, tail-eq_of_cons-eq (sym (flat_nil b) ∙ e ∙ flat_nil d))
slash-injective String.[] (String.◌∷◌ y c) b d ha hc e =
    absurd (
      hc.0 (ap code (sym (head-eq_of_cons-eq (sym (flat_nil b) ∙ e ∙ cons-append y c ("/" <> d))))))
slash-injective (String.◌∷◌ x a) String.[] b d ha hc e = absurd (
    ha.0
      (ap code (sym (head-eq_of_cons-eq (sym (flat_nil d) ∙ sym e ∙ cons-append x a ("/" <> b))))))
slash-injective (String.◌∷◌ x a) (String.◌∷◌ y c) b d ha hc e =
    let e' : String.◌∷◌ x (a <> "/" <> b) ≡ String.◌∷◌ y (c <> "/" <> d) =
      sym (cons-append x a ("/" <> b)) ∙ e ∙ cons-append y c ("/" <> d) in
    let rest : (a ≡ c) × (b ≡ d) = slash-injective a c b d ha.1 hc.1 (tail-eq_of_cons-eq e') in
    (ap₂ String.◌∷◌ (head-eq_of_cons-eq e') rest.0, rest.1)
