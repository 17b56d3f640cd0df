-- ===== src/Interfaces/Funk.antt =====
-- The functions of github.com/thoas/go-funk that the program calls on string slices, with what its
-- documentation says of them, and an instance that meets it.
use mathlib.Core.List.{List, [], ◌∷◌, map}
use db_operator.Base.{
  ◌≤◌, text_eq_refl, length, Text, text_eq, text_eq_iff, member, member-keep, keep, drop, ℕ, suc,
  ◌≡◌, refl, Bool, true, false, not, ◌&&◌, Option, none, some, arith, if◌then◌else◌,
}

pub record Funk : Type 0 where
  pub contains : List Text → Text → Bool
  pub contains_lem : (xs : List Text) (a : Text) → contains xs a ≡ member a xs
  pub subset : List Text → List Text → Bool
  pub subset_sound :
      (xs ys : List Text) (a : Text) → subset xs ys ≡ true → member a xs ≡ true → member a ys ≡ true
  -- a list no longer than the other, all of whose elements the other holds
  pub subset_complete :
      (xs ys : List Text)
      → length xs ≤ length ys
      → ((a : Text) → member a xs ≡ true → member a ys ≡ true)
      → subset xs ys ≡ true
  -- `Subtract` and `SubtractString`
  pub subtract : List Text → List Text → List Text
  pub member-subtract :
      (xs ys : List Text) (a : Text)
      → member a (subtract xs ys) ≡ (member a xs && not (member a ys))
  -- `Difference`: what only the left and what only the right list holds
  pub difference : List Text → List Text → List Text × List Text
  pub member-difference_left :
      (xs ys : List Text) (a : Text)
      → member a (difference xs ys).0 ≡ (member a xs && not (member a ys))
  pub member-difference_right :
      (xs ys : List Text) (a : Text)
      → member a (difference xs ys).1 ≡ (member a ys && not (member a xs))
  -- `Join` with `InnerJoin`
  pub inner_join : List Text → List Text → List Text
  -- `UniqString`
  pub uniq : List Text → List Text
  pub member-uniq : (xs : List Text) (a : Text) → member a (uniq xs) ≡ member a xs
  -- `FilterString`
  pub filter_string : (Text → Bool) → List Text → List Text
  pub filter_string-eq-keep : (p : Text → Bool) (xs : List Text) → filter_string p xs ≡ keep p xs
  -- `Map` from strings to strings
  pub map_string : (Text → Text) → List Text → List Text
  pub map_string-eq-map : (f : Text → Text) (xs : List Text) → map_string f xs ≡ map f xs
  -- `IndexOfString`, with `none` for -1
  pub index_of : List Text → Text → Option ℕ
  pub index_of-none : (xs : List Text) (a : Text) → member a xs ≡ false → index_of xs a ≡ none
  -- `DropString`: the list without its first elements
  pub drop_string : List Text → ℕ → List Text
  pub drop_string-eq-drop : (xs : List Text) (n : ℕ) → drop_string xs n ≡ drop n xs

unfoldable pub subset_of : List Text → List Text → Bool
subset_of [] ys = true
subset_of (x ∷ xs) ys = member x ys && subset_of xs ys

pub subset_of_sound :
    (xs ys : List Text) (a : Text)
    → subset_of xs ys ≡ true
    → member a xs ≡ true
    → member a ys ≡ true
unfolding subset_of member
subset_of_sound [] ys a h m = cc
subset_of_sound (x ∷ xs) ys a h m = ground (arith, text_eq_iff x a, subset_of_sound xs ys a)

subset_of_all :
    (xs ys : List Text)
    → ((a : Text) → member a xs ≡ true → member a ys ≡ true)
    → subset_of xs ys ≡ true
unfolding subset_of member
subset_of_all [] ys h = refl
subset_of_all (x ∷ xs) ys h =
    ground (arith, h x, text_eq_refl x, subset_of_all xs ys (λ a m. h a (ground (arith, m))))

pub subset_of_complete :
    (xs ys : List Text)
    → length xs ≤ length ys
    → ((a : Text) → member a xs ≡ true → member a ys ≡ true)
    → subset_of xs ys ≡ true
subset_of_complete xs ys _ = subset_of_all xs ys

abbrev pub without : List Text → List Text → List Text
without xs ys = keep (λ x. not (member x ys)) xs

pub member-without :
    (xs ys : List Text) (a : Text) → member a (without xs ys) ≡ (member a xs && not (member a ys))
member-without xs ys a = member-keep (λ x. not (member x ys)) a xs

unfoldable pub unique : List Text → List Text
unique [] = []
unique (x ∷ xs) = let rest = unique xs in if member x rest then rest else x ∷ rest

pub member-unique : (xs : List Text) (a : Text) → member a (unique xs) ≡ member a xs
unfolding unique member
member-unique [] a = refl
member-unique (x ∷ xs) a = ground (arith, member-unique xs a, member-unique xs x, text_eq_iff x a)

unfoldable pub position : List Text → Text → Option ℕ
position [] a = none
position (x ∷ xs) a =
    let later : Option ℕ = elim (position xs a) [ none ↦ none | some i ↦ some (suc i) ] in
    if text_eq x a then some 0 else later

pub position-none : (xs : List Text) (a : Text) → member a xs ≡ false → position xs a ≡ none
unfolding position member
position-none [] a h = refl
position-none (x ∷ xs) a h = ground (arith, position-none xs a)

instance abbrev pub reference_funk : Funk
reference_funk = record {
  contains = λ xs a. member a xs;
  contains_lem = λ xs a. refl;
  subset = subset_of;
  subset_sound = subset_of_sound;
  subset_complete = subset_of_complete;
  subtract = without;
  member-subtract = member-without;
  difference = λ xs ys. (without xs ys, without ys xs);
  member-difference_left = member-without;
  member-difference_right = λ xs ys. member-without ys xs;
  inner_join = λ xs ys. keep (λ x. member x ys) xs;
  uniq = unique;
  member-uniq = member-unique;
  filter_string = keep;
  filter_string-eq-keep = λ p xs. refl;
  map_string = map;
  map_string-eq-map = λ f xs. refl;
  index_of = position;
  index_of-none = position-none;
  drop_string = λ xs n. drop n xs;
  drop_string-eq-drop = λ xs n. refl;
}
