-- ===== src/Jobs/Dates.antt =====
-- A date text has no space at its ends, so trimming leaves it as it is.
use Prim.Native.Char.{Char, code}
use Prim.Native.String.{String, [], ◌∷◌}
use orbitplus.Common.{◌≡◌, refl, Bool, true, false, Option, none, some, if◌then◌else◌, ◌&&◌, arith}
use orbitplus.Common.Text.{is_space, trim_space, trim_left, trim_right}
use orbitplus.Common.Date.{Date, parse_date, is_digit}

is_space-digit : (c : Char) → is_digit c ≡ true → is_space (code c) ≡ false
unfolding is_digit is_space
is_space-digit c h = ground arith

if_some :
    {A : Type 0} (b : Bool) (x : Option A) (a : A) → (if b then x else none) ≡ some a → b ≡ true
if_some true x a h = refl
if_some false x a h = absurd (cc h)

-- A text of ten characters that neither begins nor ends with a space.
ten :
    (a b c d e f g h i j : Char)
    → is_space (code a) ≡ false
    → is_space (code j) ≡ false
    → trim_space (a ∷ b ∷ c ∷ d ∷ e ∷ f ∷ g ∷ h ∷ i ∷ j ∷ [])
      ≡ a ∷ b ∷ c ∷ d ∷ e ∷ f ∷ g ∷ h ∷ i ∷ j ∷ []
unfolding trim_space trim_left trim_right
ten a b c d e f g h i j p q = rw (p, q) refl

first_digit :
    (a b c d p e f q g h : Bool)
    → a && b && c && d && p && e && f && q && g && h ≡ true
    → (a ≡ true) × (h ≡ true)
first_digit a b c d p e f q g h r = ground arith

pub trim_space-parse_date : (s : String) (date : Date) → parse_date s ≡ some date → trim_space s ≡ s
unfolding parse_date
trim_space-parse_date (a ∷ b ∷ c ∷ d ∷ p ∷ e ∷ f ∷ q ∷ g ∷ h ∷ []) date r =
    let (first, last) = first_digit _ _ _ _ _ _ _ _ _ _ (if_some _ _ date r) in
    ten a b c d p e f q g h (is_space-digit a first) (is_space-digit h last)
trim_space-parse_date s date r = absurd (cc r)
