-- ===== src/Fields/Categories.antt =====
-- CategoryList of src/record.cc: a list of names, and the string of them that a record's field
-- holds. The positions are those of std::string.
pub mod Tokens
pub mod Ends
use barry.Protocol.{get_u8}
use barry.Prelude.{
  ℕ, zero, suc, ◌+◌, ◌-◌, Option, none, some, List, [], ◌∷◌, ◌++◌, leb, ◌==◌, if◌then◌else◌, length,
  take, drop,
}

abbrev pub comma : ℕ
comma = 44

abbrev pub space : ℕ
space = 32

-- `str.find(',', i)` in the characters from `i` on.
abbrev pub find_comma : List ℕ → ℕ → Option ℕ
find_comma [] i = none
find_comma (c ∷ cs) i = if c == comma then some i else find_comma cs (suc i)

-- `while( str[start] == ' ' ) start++;`, which ends at the terminator at the latest.
abbrev pub skip_spaces : List ℕ → ℕ → ℕ
skip_spaces [] start = start
skip_spaces (c ∷ cs) start = if c == space then skip_spaces cs (suc start) else start

-- `while( end && str[end] == ' ' ) end--;`
abbrev pub trim_end : List ℕ → ℕ → ℕ
trim_end str zero = zero
trim_end str (suc end) = if get_u8 str (suc end) == space then trim_end str end else suc end

-- `reads_outside`: the first character is a comma, so `end = delim - 1` wraps around, and
-- `str[end]` lies outside the string.
pub data Categories : Type 0 where
  categories : List (List ℕ) → Categories
  reads_outside out_of_fuel : Categories

abbrev pub token_then : List ℕ → ℕ → ℕ → Categories → Categories
token_then str start end (categories cs) =
    if leb start end
    then categories (take (end - start + 1) (drop start str) ∷ cs)
    else categories cs
token_then str start end reads_outside = reads_outside
token_then str start end out_of_fuel = out_of_fuel

-- A turn of the loop, with the position of the delimiter.
abbrev pub tokens_at : List ℕ → ℕ → Option ℕ → (ℕ → Categories) → Categories
tokens_at str start none rest =
    token_then str (skip_spaces (drop start str) start) (trim_end str (length str - 1))
      (categories [])
tokens_at str start (some zero) rest = reads_outside
tokens_at str start (some (suc end)) rest =
    token_then str (skip_spaces (drop start str) start) (trim_end str end) (rest (suc (suc end)))

-- The loop from `start` on.
unfoldable pub tokens_from : ℕ → List ℕ → ℕ → Categories
tokens_from zero str start = out_of_fuel
tokens_from (suc fuel) str start =
    tokens_at str start (find_comma (drop start str) start) (tokens_from fuel str)

unfoldable pub category_str2list : List ℕ → Categories
unfolding tokens_from
category_str2list [] = categories []
category_str2list (c ∷ cs) = tokens_from (suc (length (c ∷ cs))) (c ∷ cs) 0

abbrev pub join : List ℕ → List (List ℕ) → List ℕ
join str [] = str
join [] (c ∷ cs) = join c cs
join (s ∷ str) (c ∷ cs) = join ((s ∷ str) ++ (comma ∷ space ∷ c)) cs

unfoldable pub category_list2str : List (List ℕ) → List ℕ
category_list2str cs = join [] cs
