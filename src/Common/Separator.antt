-- ===== src/Common/Separator.antt =====
-- Texts joined by a separator that the first of them does not hold.
use Prim.Native.Char.{Char, code}
use Prim.Native.String.{String, ◌++◌}
use mathlib.Core.Path.{◌≡◌, refl, sym, ap, ◌∙◌}
use mathlib.Core.Bool.{false}
use native.Mathlib.Omega.{arith}
use text.Mathlib.TextLemmas.{nil-append, cons-append}
use orbitplus.Common.Text.{contains}

head : String → Char
head String.[] = "x"
head (String.◌∷◌ c s) = c

tail : String → String
tail String.[] = ""
tail (String.◌∷◌ c s) = s

chars_inj : {c d : Char} {s t : String} → String.◌∷◌ c s ≡ String.◌∷◌ d t → (c ≡ d) × (s ≡ t)
unfolding head tail
chars_inj e = (ap head e, ap tail e)

module _ (sep : Char) where
  abbrev before_rest : String → String
  before_rest s = String.◌∷◌ sep s

  abbrev pub separator : String
  separator = String.◌∷◌ sep ""

  separator-append : (a s : String) → a ++ (separator ++ s) ≡ a ++ before_rest s
  separator-append a s = ap (λ r. a ++ r) (cons-append sep "" s ∙ ap before_rest (nil-append s))

  append-first :
      (a b x y : String)
      → contains (code sep) a ≡ false
      → contains (code sep) b ≡ false
      → a ++ before_rest x ≡ b ++ before_rest y
      → (a ≡ b) × (x ≡ y)
  unfolding contains
  append-first String.[] String.[] x y ha hb e =
      (refl, (chars_inj (sym (nil-append _) ∙ e ∙ nil-append _)).1)
  append-first String.[] (String.◌∷◌ d b) x y ha hb e =
      let q = ap code (chars_inj (sym (nil-append _) ∙ e ∙ cons-append d b _)).0 in
      absurd (ground (arith, q))
  append-first (String.◌∷◌ c a) String.[] x y ha hb e =
      let q = ap code (chars_inj (sym (cons-append c a _) ∙ e ∙ nil-append _)).0 in
      absurd (ground (arith, q))
  append-first (String.◌∷◌ c a) (String.◌∷◌ d b) x y ha hb e =
      let (h, t) = chars_inj (sym (cons-append c a _) ∙ e ∙ cons-append d b _) in
      let (p, q) = append-first a b x y (ground arith) (ground arith) t in (cc (h, p), q)

  -- A text without the separator ends at the first separator.
  pub append-first_separator :
      (a b x y : String)
      → contains (code sep) a ≡ false
      → contains (code sep) b ≡ false
      → a ++ (separator ++ x) ≡ b ++ (separator ++ y)
      → (a ≡ b) × (x ≡ y)
  append-first_separator a b x y ha hb e =
      append-first a b x y ha hb (sym (separator-append a x) ∙ e ∙ separator-append b y)
