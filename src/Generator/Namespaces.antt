-- ===== src/Generator/Namespaces.antt =====
-- The functions of FixGenerator.cpp on names, on texts as lists of ASCII characters, with the character
-- classes of the C locale.
use simdfix.Base.{
  ℕ, zero, suc, ◌+◌, ◌-◌, Bool, true, false, not, ◌&&◌, ◌||◌, ◌==◌, leb, if◌then◌else◌, List, [],
  ◌∷◌, ◌++◌, length,
}

-- `starts_with`, `ends_with` and `find`
abbrev begins : List ℕ → List ℕ → Bool
begins [] text = true
begins (p ∷ ps) [] = false
begins (p ∷ ps) (c ∷ cs) = (p == c) && begins ps cs

abbrev is_empty : List ℕ → Bool
is_empty [] = true
is_empty (c ∷ cs) = false

unfoldable pub contains : List ℕ → List ℕ → Bool
contains part [] = is_empty part
contains part (c ∷ cs) = begins part (c ∷ cs) || contains part cs

unfoldable pub ends : List ℕ → List ℕ → Bool
ends part [] = is_empty part
ends part (c ∷ cs) = (begins part (c ∷ cs) && (length part == length (c ∷ cs))) || ends part cs

-- `replaceAll` of a text that is not empty, with `skip` characters left of the last occurrence.
unfoldable pub replace_from : List ℕ → List ℕ → ℕ → List ℕ → List ℕ
replace_from from to skip [] = []
replace_from from to (suc skip) (c ∷ cs) = replace_from from to skip cs
replace_from from to zero (c ∷ cs) =
    let found = begins from (c ∷ cs) in
    let rest = replace_from from to (if found then length from - 1 else 0) cs in
    if found then to ++ rest else c ∷ rest

unfoldable pub replace_all : List ℕ → List ℕ → List ℕ → List ℕ
replace_all text from to = replace_from from to 0 text

-- `std::isalpha` and `std::isdigit`
abbrev is_alpha : ℕ → Bool
is_alpha c = (leb b'A' c && leb c b'Z') || (leb b'a' c && leb c b'z')

abbrev is_digit : ℕ → Bool
is_digit c = leb b'0' c && leb c b'9'

-- The loop over the characters; `start` is the beginning of a part.
unfoldable pub valid_parts : Bool → List ℕ → Bool
valid_parts start [] = true
valid_parts start (c ∷ cs) =
    let blank = c == b' ' in
    let rest = valid_parts blank cs in
    if blank || is_alpha c || (c == b'_') || (not start && is_digit c) then rest else false

abbrev colons : List ℕ
colons = b':' ∷ b':' ∷ []

unfoldable pub is_valid_namespace : List ℕ → Bool
is_valid_namespace ns =
    let parts = replace_all ns colons (b' ' ∷ []) in
    let result = valid_parts true parts && not (contains (b' ' ∷ b' ' ∷ []) parts) in
    if is_empty ns || begins colons ns || ends colons ns then false else result

-- `std::toupper`
abbrev to_upper : ℕ → ℕ
to_upper c = if leb b'a' c && leb c b'z' then c - 32 else c

unfoldable pub upper_case : List ℕ → List ℕ
upper_case [] = []
upper_case (c ∷ cs) = to_upper c ∷ upper_case cs

-- The names of generated code, of the namespace that is set.
unfoldable pub generated_namespace : List ℕ → List ℕ → List ℕ
generated_namespace ns part = ns ++ colons ++ part

abbrev pub include_text : List ℕ
include_text = b'#' ∷ b'i' ∷ b'n' ∷ b'c' ∷ b'l' ∷ b'u' ∷ b'd' ∷ b'e' ∷ b' ' ∷ b'"' ∷ []

unfoldable pub generated_include : List ℕ → List ℕ → List ℕ → List ℕ
generated_include ns part file =
    let path = replace_all ns colons (b'/' ∷ []) in
    include_text ++ path ++ (b'/' ∷ part) ++ (b'/' ∷ file) ++ (b'"' ∷ 10 ∷ [])

unfoldable pub generated_guard : List ℕ → List ℕ → List ℕ → List ℕ
generated_guard ns part name =
    let prefix = replace_all ns colons (b'_' ∷ []) in
    upper_case (prefix ++ (b'_' ∷ part) ++ (b'_' ∷ name) ++ (b'_' ∷ b'H' ∷ b'P' ∷ b'P' ∷ []))

-- `uncap`: the first character in lower case
abbrev to_lower : ℕ → ℕ
to_lower c = if leb b'A' c && leb c b'Z' then c + 32 else c

unfoldable pub uncap : List ℕ → List ℕ
uncap [] = []
uncap (c ∷ cs) = to_lower c ∷ cs
