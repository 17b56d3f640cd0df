-- ===== src/Postgres/Acl/Suffix.antt =====
-- The regular expression of `getDatabasePrivilegesPg` is not anchored before the user name.
use db_operator.Base.{
  append_assoc, sym, ap, ◌∙◌, Text, has_prefix, drop, length, List, [], ◌∷◌, ◌++◌, some, true,
  false, ◌≡◌, refl, ℕ, arith,
}
use db_operator.Postgres.Acl.{match_acl_entry, find_acl}

has_prefix-append : (s t : Text) → has_prefix (s ++ t) s ≡ true
unfolding has_prefix
has_prefix-append [] [] = refl
has_prefix-append [] (_ ∷ _) = refl
has_prefix-append (c ∷ s) t = ground (arith, has_prefix-append s t)

drop-append : (s t : Text) → drop (length s) (s ++ t) ≡ t
drop-append [] t = refl
drop-append (c ∷ s) t = drop-append s t

find_acl_here :
    (c : ℕ) (user rest : Text) (privs : List Text)
    → match_acl_entry rest ≡ some privs
    → find_acl (c ∷ user) (c ∷ (user ++ rest)) ≡ some privs
unfolding find_acl has_prefix
find_acl_here c user rest privs m =
    ground (arith, has_prefix-append user rest, drop-append user rest)

-- the name does not begin at a byte of the first text, with the second behind it
abbrev pub Skips : Text → Text → Text → Type 0
Skips user [] after = Unit
Skips user (b ∷ before) after =
    (has_prefix (b ∷ (before ++ after)) user ≡ false) × Skips user before after

find_acl_skip :
    (user before after : Text)
    → Skips user before after
    → find_acl user (before ++ after) ≡ find_acl user after
unfolding find_acl
find_acl_skip user [] after skips = refl
find_acl_skip user (b ∷ before) after (other, rest) =
    rw (find_acl, other) (find_acl_skip user before after rest)

find_acl_first :
    (c : ℕ) (user before rest : Text) (privs : List Text)
    → Skips (c ∷ user) before (c ∷ (user ++ rest))
    → match_acl_entry rest ≡ some privs
    → find_acl (c ∷ user) (before ++ c ∷ (user ++ rest)) ≡ some privs
find_acl_first c user before rest privs skips m =
    find_acl_skip (c ∷ user) before (c ∷ (user ++ rest)) skips ∙ find_acl_here c user rest privs m

-- For a user whose name is not empty, and another user whose name is this one behind a further text:
-- where the text of an access list comes to the entry of the other user, and neither name begins
-- before, nor this user's name within the further text, the other user's entry is read as this user's
-- too, so that for both what the other user holds is found.
pub find_acl_suffix :
    (a c : ℕ) (more user before rest : Text) (privs : List Text)
    → Skips (c ∷ user) (before ++ a ∷ more) (c ∷ (user ++ rest))
    → Skips (a ∷ (more ++ c ∷ user)) before (a ∷ ((more ++ c ∷ user) ++ rest))
    → match_acl_entry rest ≡ some privs
    → (find_acl (c ∷ user) ((before ++ a ∷ more) ++ c ∷ (user ++ rest)) ≡ some privs)
      × (find_acl (a ∷ (more ++ c ∷ user)) (before ++ a ∷ ((more ++ c ∷ user) ++ rest))
          ≡ some privs)
      × ((before ++ a ∷ more) ++ c ∷ (user ++ rest) ≡ before ++ a ∷ ((more ++ c ∷ user) ++ rest))
find_acl_suffix a c more user before rest privs own other m = (
  find_acl_first c user (before ++ a ∷ more) rest privs own m,
  find_acl_first a (more ++ c ∷ user) before rest privs other m,
  append_assoc before (a ∷ more) (c ∷ (user ++ rest))
      ∙ ap (λ t. before ++ a ∷ t) (sym (append_assoc more (c ∷ user) rest)),
)
