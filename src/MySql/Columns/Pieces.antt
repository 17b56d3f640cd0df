-- ===== src/MySql/Columns/Pieces.antt =====
-- What the parts of a split text say of the text.
use db_operator.Base.{
  ◌-◌, if◌then◌else◌, ltb, zero, Text, split, join, length, take, drop, is_empty, List, [], ◌∷◌,
  ◌++◌, ◌≡◌, ◌⊎◌, inl, inr, Bool, true, false, refl, arith, ℕ, suc, ◌≤◌, append_assoc, append-nil,
  sym, ◌∙◌, Bool-cases, ◌==◌,
}
use db_operator.MySql.Columns.{rsplit, parse_items, parse_priv_piece}

split-cons : (s : Text) (sep : ℕ) → (p : Text) × (ps : List Text) × (split s sep ≡ p ∷ ps)
unfolding split
split-cons [] sep = ([], [], refl)
split-cons (c ∷ s) sep =
    let (p, ps, e) = split-cons s sep in
    elim (Bool-cases (c == sep)) [
      | inl here ↦ ([], split s sep, rw here)
      | inr later ↦ (c ∷ p, ps, rw (later, e))
    ]

join-append_head :
    (x y : Text) (ps : List Text) (sep : Text) → join ((x ++ y) ∷ ps) sep ≡ x ++ join (y ∷ ps) sep
unfolding join
join-append_head x y [] sep = refl
join-append_head x y (p ∷ ps) sep = append_assoc x y (sep ++ join (p ∷ ps) sep)

join-split : (s : Text) (sep : ℕ) → join (split s sep) (sep ∷ []) ≡ s
unfolding split join
join-split [] sep = refl
join-split (c ∷ s) sep =
    let (p, ps, e) = split-cons s sep in
    let ih : join (p ∷ ps) (sep ∷ []) ≡ s = rw e at (join-split s sep) in
    elim (Bool-cases (c == sep)) [
      | inl here ↦ rw (here, e) (ground (arith, ih, here))
      | inr later ↦ rw (later, e) (cc (join-append_head (c ∷ []) p ps (sep ∷ []), ih))
    ]

join-regroup :
    (n : ℕ) (p : Text) (ps : List Text) (sep : Text)
    → join (join (take (suc n) (p ∷ ps)) sep ∷ drop (suc n) (p ∷ ps)) sep ≡ join (p ∷ ps) sep
unfolding join
join-regroup zero p ps sep = refl
join-regroup (suc n) p [] sep = refl
join-regroup (suc n) p (q ∷ qs) sep =
    let joined = join (take (suc n) (q ∷ qs)) sep in
    let left = drop (suc n) (q ∷ qs) in
    cc (
      join-append_head p (sep ++ joined) left sep,
      join-append_head sep joined left sep,
      join-regroup n q qs sep,
    )

length-drop : (n : ℕ) (ps : List Text) → length (drop n ps) ≡ length ps - n
length-drop zero ps = omega arith
length-drop (suc n) [] = omega arith
length-drop (suc n) (p ∷ ps) = ground (arith, length-drop n ps)

-- the regrouping at the place that `rsplit` computes
regroup_at :
    (n loc : ℕ) (p : Text) (ps : List Text) (sep : Text)
    → n ≤ length ps
    → loc ≡ length (p ∷ ps) - n
    → (join (join (take loc (p ∷ ps)) sep ∷ drop loc (p ∷ ps)) sep ≡ join (p ∷ ps) sep)
      × (length (drop loc (p ∷ ps)) ≡ n)
regroup_at n zero p ps sep few e = absurd_loc
  where
    absurd_loc :
        (join (join (take zero (p ∷ ps)) sep ∷ drop zero (p ∷ ps)) sep ≡ join (p ∷ ps) sep)
        × (length (drop zero (p ∷ ps)) ≡ n)
    absurd_loc = ground (arith, few, e)
regroup_at n (suc loc) p ps sep few e =
    (join-regroup loc p ps sep, ground (arith, length-drop loc ps, few, e))

-- A text split from the right has at most one part more than the given count, and its parts joined by
-- the separator are the text again.
pub rsplit-join :
    (s : Text) (sep count : ℕ)
    → (join (rsplit s sep count) (sep ∷ []) ≡ s) × (length (rsplit s sep count) ≤ suc count)
unfolding rsplit join
rsplit-join s sep count =
    let (p, ps, e) = split-cons s sep in
    let whole : join (p ∷ ps) (sep ∷ []) ≡ s = rw e at (join-split s sep) in
    let k = length (p ∷ ps) - 1 in
    let n = if ltb k count then k else count in
    let few : n ≤ length ps = ground arith in
    let small : n ≤ count = ground arith in
    let (same, long) = regroup_at n (length (p ∷ ps) - n) p ps (sep ∷ []) few refl in
    rw e (elim (Bool-cases (count == 0)) [
      | inl zero_count ↦ rw zero_count (refl, omega arith)
      | inr some_count ↦ rw some_count (elim (Bool-cases (k == 0)) [
        | inl one ↦ rw one (refl, omega arith)
        | inr more ↦ rw more (same ∙ whole, rw long (omega (arith, small)))
      ])
    ])

-- a text that is the items between commas, perhaps with a comma behind the last
abbrev pub Joins : Text → List Text → Type 0
Joins text items =
    (text ≡ join items (b',' ∷ []))
    ⊎ ((is_empty items ≡ false) × (text ≡ join items (b',' ∷ []) ++ b',' ∷ []))

Joins-close :
    (item s : Text) (items : List Text) → Joins s items → Joins (item ++ b',' ∷ s) (item ∷ items)
unfolding join
Joins-close item s [] (inl e) = inr (refl, rw e refl)
Joins-close item s [] (inr (f, e)) = cc
Joins-close item s (q ∷ qs) (inl e) = inl (rw e refl)
Joins-close item s (q ∷ qs) (inr (f, e)) =
    inr (refl, rw e (sym (append_assoc item (b',' ∷ join (q ∷ qs) (b',' ∷ [])) (b',' ∷ []))))

Joins-shift :
    (item s : Text) (c : ℕ) (items : List Text)
    → Joins ((item ++ c ∷ []) ++ s) items
    → Joins (item ++ c ∷ s) items
Joins-shift item s c items h = rw (append_assoc item (c ∷ []) s) at h

-- `item` is the text that was read since the last comma
parse_items-Joins :
    (in_parens : Bool) (item stripped s : Text)
    → Joins (item ++ s) (parse_items in_parens item stripped s).0
unfolding parse_items join
parse_items-Joins in_parens [] stripped [] = inl refl
parse_items-Joins in_parens (c ∷ item) stripped [] = inl (append-nil (c ∷ item))
parse_items-Joins true item stripped (c ∷ s) =
    Joins-shift item s c _
      (parse_items-Joins (if c == b')' then false else true) (item ++ c ∷ []) stripped s)
parse_items-Joins false item stripped (c ∷ s) = elim (Bool-cases (c == b',')) [
  | inl comma ↦
      let here : c ≡ b',' = ground (arith, comma) in
      rw (comma, here) (Joins-close item s _ (parse_items-Joins false [] [] s))
  | inr other ↦ elim (Bool-cases (c == b'(')) [
    | inl opens ↦
        rw (other, opens)
          (Joins-shift item s c _ (parse_items-Joins true (item ++ c ∷ []) stripped s))
    | inr plain ↦
        rw (other, plain)
          (Joins-shift item s c _ (parse_items-Joins false (item ++ c ∷ []) (stripped ++ c ∷ []) s))
  ]
]

-- No byte of a list of privileges is lost when it is cut into items: joined by commas the items are
-- the list again, up to a comma behind the last item.
pub parse_priv_piece-Joins : (piece : Text) → Joins piece (parse_priv_piece piece).0
unfolding parse_priv_piece
parse_priv_piece-Joins piece = parse_items-Joins false [] [] piece
