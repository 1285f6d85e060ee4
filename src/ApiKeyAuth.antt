-- ===== src/ApiKeyAuth.antt =====
-- Proxy/src/L7/Middleware/ApiKeyAuth.h and ApiKeyAuth.cc: the set of API keys, as an ordered vector, and
-- the reading of an Authorization header. A string is the list of its bytes.
pub mod Keys
pub mod Sets
pub mod Refine
pub mod Token
mod Tests
use vortex_net.Base.{
  ℕ, zero, suc, ◌+◌, ◌-◌, Bool, true, false, not, ◌&&◌, ◌||◌, List, [], ◌∷◌, ◌++◌, ltb, leb, ◌==◌,
  if◌then◌else◌, length,
}

abbrev pub Str : Type 0
Str = List ℕ

-- `operator<` and `operator==` of strings.
unfoldable pub str_lt : Str → Str → Bool
str_lt a [] = false
str_lt [] (y ∷ ys) = true
str_lt (x ∷ xs) (y ∷ ys) =
    let rest = str_lt xs ys in if ltb x y then true else if ltb y x then false else rest

unfoldable pub str_eq : Str → Str → Bool
str_eq [] [] = true
str_eq [] (y ∷ ys) = false
str_eq (x ∷ xs) [] = false
str_eq (x ∷ xs) (y ∷ ys) = (x == y) && str_eq xs ys

abbrev pub is_space : ℕ → Bool
is_space c = (c == 32) || (c == 9)

abbrev pub to_lower : ℕ → ℕ
to_lower c = if leb 65 c && leb c 90 then c + 32 else c

unfoldable pub trim_left : Str → Str
trim_left [] = []
trim_left (c ∷ s) = if is_space c then trim_left s else c ∷ s

-- Drops the blanks at the end: a character stays if it, or a later one, is no blank.
unfoldable pub trim_right : Str → Str
trim_right [] = []
trim_right (c ∷ s) = elim (trim_right s) [
  | [] ↦ if is_space c then [] else c ∷ []
  | d ∷ ds ↦ c ∷ d ∷ ds
]

unfoldable pub equals_ignore_case : Str → Str → Bool
equals_ignore_case [] [] = true
equals_ignore_case [] (y ∷ ys) = false
equals_ignore_case (x ∷ xs) [] = false
equals_ignore_case (x ∷ xs) (y ∷ ys) = (to_lower x == to_lower y) && equals_ignore_case xs ys

-- `bearer`.
abbrev pub scheme : Str
scheme = 98 ∷ 101 ∷ 97 ∷ 114 ∷ 101 ∷ 114 ∷ []

-- Takes the scheme's characters off a header, whatever their case; the header may be too short.
unfoldable pub strip_scheme : Str → Str → Bool × Str
strip_scheme [] h = (true, h)
strip_scheme (k ∷ ks) [] = (false, [])
strip_scheme (k ∷ ks) (c ∷ h) =
    let rest = strip_scheme ks h in if to_lower c == k then rest else (false, [])

unfoldable pub extract_token : Str → Str
extract_token header =
    let (ok, rest) = strip_scheme scheme (trim_left header) in
    if ok then trim_right (trim_left rest) else []

-- `std::sort` and `std::unique`.
unfoldable pub insert_key : Str → List Str → List Str
insert_key k [] = k ∷ []
insert_key k (x ∷ xs) = let rest = insert_key k xs in if str_lt x k then x ∷ rest else k ∷ x ∷ xs

unfoldable pub sort : List Str → List Str
sort [] = []
sort (k ∷ ks) = insert_key k (sort ks)

unfoldable pub unique_from : Str → List Str → List Str
unique_from k [] = k ∷ []
unique_from k (x ∷ xs) = if str_eq k x then unique_from k xs else k ∷ unique_from x xs

unfoldable pub unique : List Str → List Str
unique [] = []
unique (k ∷ ks) = unique_from k ks

unfoldable pub load : List Str → List Str
load keys = unique (sort keys)

-- `addKey`: at the first key that is not below, unless that is the key itself.
unfoldable pub add_key : Str → List Str → List Str
add_key k [] = k ∷ []
add_key k (x ∷ xs) =
    let rest = add_key k xs in
    if str_lt x k then x ∷ rest else if str_eq x k then x ∷ xs else k ∷ x ∷ xs

unfoldable pub remove_key : Str → List Str → List Str
remove_key k [] = []
remove_key k (x ∷ xs) = let rest = remove_key k xs in if str_eq x k then rest else x ∷ rest

-- `std::binary_search`, by what it promises of an ordered range: the first key that is not below the
-- token is not above it.
unfoldable pub search_key : Str → List Str → Bool
search_key k [] = false
search_key k (x ∷ xs) = let rest = search_key k xs in if str_lt x k then rest else not (str_lt k x)

unfoldable pub authenticate : List Str → Str → Bool
authenticate keys header =
    let token = extract_token header in elim token [ [] ↦ false | c ∷ s ↦ search_key (c ∷ s) keys ]

-- `Authorization`.
abbrev pub header_name : Str
header_name = 65 ∷ 117 ∷ 116 ∷ 104 ∷ 111 ∷ 114 ∷ 105 ∷ 122 ∷ 97 ∷ 116 ∷ 105 ∷ 111 ∷ 110 ∷ []

unfoldable pub authenticate_headers : List Str → List (Str × Str) → Bool
authenticate_headers keys [] = false
authenticate_headers keys ((name, value) ∷ hs) =
    if equals_ignore_case name header_name
    then authenticate keys value
    else authenticate_headers keys hs
