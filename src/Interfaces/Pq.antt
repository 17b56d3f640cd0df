-- ===== src/Interfaces/Pq.antt =====
-- The quoting functions of github.com/lib/pq, and an instance.
use db_operator.Base.{Text, codes, replace_byte, ◌++◌, ◌∷◌, [], ◌≡◌, refl}

abbrev pub double_quote : Text
double_quote = b'"' ∷ []

pub record Pq : Type 0 where
  pub quote_identifier : Text → Text
  -- the name between double quotes, with the quotes inside it doubled
  pub quote_identifier_lem :
      (name : Text)
      → quote_identifier name
        ≡ double_quote ++ (replace_byte b'"' (codes "\"\"") name ++ double_quote)
  pub quote_literal : Text → Text

instance abbrev pub reference_pq : Pq
reference_pq = record {
  quote_identifier =
      λ name. double_quote ++ (replace_byte b'"' (codes "\"\"") name ++ double_quote);
  quote_identifier_lem = λ name. refl;
  quote_literal = λ s. codes "'" ++ (replace_byte b'\'' (codes "''") s ++ codes "'");
}
