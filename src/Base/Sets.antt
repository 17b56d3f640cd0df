-- ===== src/Base/Sets.antt =====
-- Lists of texts read as sets.
use mathlib.Core.Path.{◌≡◌, refl}
use mathlib.Core.Bool.{Bool, false, ◌&&◌, ◌||◌}
use mathlib.Core.List.{List, [], ◌∷◌, ◌++◌}
use native.Mathlib.Omega.{arith}
use db_operator.Base.Tests.{if◌then◌else◌}
use db_operator.Base.Outcome.{Text}
use db_operator.Base.Strings.{text_eq_refl, text_eq, text_eq_iff}

unfoldable pub member : Text → List Text → Bool
member a [] = false
member a (x ∷ xs) = text_eq x a || member a xs

pub member-append :
    (a : Text) (xs ys : List Text) → member a (xs ++ ys) ≡ (member a xs || member a ys)
unfolding member
member-append a [] ys = refl
member-append a (x ∷ xs) ys = ground (arith, member-append a xs ys)

-- the elements that pass a test, in their order
unfoldable pub keep : (Text → Bool) → List Text → List Text
keep p [] = []
keep p (x ∷ xs) = let rest = keep p xs in if p x then x ∷ rest else rest

pub member-keep :
    (p : Text → Bool) (a : Text) (xs : List Text) → member a (keep p xs) ≡ (member a xs && p a)
unfolding member keep
member-keep p a [] = refl
member-keep p a (x ∷ xs) = ground (arith, member-keep p a xs, text_eq_iff x a)

-- both lists hold the same texts
abbrev pub SameSet : List Text → List Text → Type 0
SameSet xs ys = (a : Text) → member a xs ≡ member a ys

-- a list with no member is empty
pub no_member : (xs : List Text) → ((a : Text) → member a xs ≡ false) → xs ≡ []
unfolding member
no_member [] h = refl
no_member (x ∷ xs) h = ground (arith, h x, text_eq_refl x)
