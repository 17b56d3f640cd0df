-- ===== src/Shared/Urls.antt =====
-- What the program uses of net/url: `url.Values` with one value for a key, and `URL.String` for a URL
-- with scheme, host, path and query, on texts of bytes.
use db_operator.Base.{
  Text, codes, is_empty, has_prefix, text_lt, text_eq, leb, join, map, List, [], ◌∷◌, ◌++◌, Bool,
  ◌&&◌, ◌||◌, if◌then◌else◌, ℕ, ◌+◌, ◌/◌, contains_byte,
}
use Prim.Native.Nat.{◌%◌}

abbrev hex_digit : ℕ → ℕ
hex_digit d = if leb d 9 then b'0' + d else 55 + d

abbrev is_unreserved : ℕ → Bool
is_unreserved c =
    (leb b'a' c && leb c b'z')
    || ((leb b'A' c && leb c b'Z')
        || ((leb b'0' c && leb c b'9') || contains_byte c (codes "-_.~")))

abbrev percent : ℕ → Text
percent c = b'%' ∷ hex_digit (c / 16) ∷ hex_digit (c % 16) ∷ []

-- with the bytes that the part of the URL also allows
unfoldable pub escape_url : Text → Text → Text
unfolding contains_byte
escape_url allowed [] = []
escape_url allowed (c ∷ s) =
    let rest = escape_url allowed s in
    if is_unreserved c || contains_byte c allowed then c ∷ rest else percent c ++ rest

-- `QueryEscape`, where a space is a plus
unfoldable pub query_escape : Text → Text
unfolding contains_byte
query_escape [] = []
query_escape (c ∷ s) =
    let rest = query_escape s in
    if is_unreserved c
    then c ∷ rest
    else (if contains_byte c (b' ' ∷ []) then b'+' ∷ rest else percent c ++ rest)

-- `Set`, on pairs that are kept in the order of the keys, in which `Encode` writes them
unfoldable pub set_value : Text → Text → List (Text × Text) → List (Text × Text)
set_value key value [] = (key, value) ∷ []
set_value key value ((k, v) ∷ values) =
    let later = set_value key value values in
    if text_eq k key
    then (key, value) ∷ values
    else (if text_lt key k then (key, value) ∷ (k, v) ∷ values else (k, v) ∷ later)

unfoldable pub encode_values : List (Text × Text) → Text
unfolding query_escape
encode_values values =
    join (map (λ kv. query_escape kv.0 ++ b'=' ∷ query_escape kv.1) values) (codes "&")

unfoldable pub url_string : Text → Text → Text → Text → Text
unfolding escape_url
url_string scheme host path raw_query =
    (if is_empty scheme then [] else scheme ++ codes ":")
    ++ ((if is_empty host && is_empty path then [] else codes "//")
        ++ (escape_url (codes "!$&'()*+,;=:[]<>\"") host
            ++ ((if is_empty path || (has_prefix path (codes "/") || is_empty host)
                  then []
                  else codes "/")
                ++ ((if text_eq path (codes "*") then path else escape_url (codes "$&+,/:;=@") path)
                    ++ (if is_empty raw_query then [] else b'?' ∷ raw_query)))))
