-- ===== src/Filter.antt =====
-- main/filter.cc and main/filter.h: the rules that accept or reject an address, a filter as a list of rules, and the
-- named filters. `tolower` of the C library is a parameter; std::list is a list and std::map an
-- association list in which a name stands once.
mod Decide
mod Names
mod Tests
use d4x.Prelude.{
  ℕ, Bool, true, false, ◌&&◌, ◌||◌, not, List, [], ◌∷◌, ◌++◌, ◌==◌, if◌then◌else◌, length, take,
  drop, ◌-◌, ◌+◌, Bytes, same_text, map,
}
use d4x.Mask.{check_mask2, check_mask2_uncase}

-- The fields of d4x::URL that a filter looks at; `proto` is its number in the enumeration.
pub record Url : Type 0 where
  pub proto : ℕ
  pub host : Bytes
  pub path : Bytes
  pub file : Bytes
  pub params : Bytes
  pub tag : Bytes

-- Filter::Rule
pub record Rule : Type 0 where
  pub path : Bytes
  pub file : Bytes
  pub host : Bytes
  pub params : Bytes
  pub tag : Bytes
  pub proto : ℕ
  pub include : Bool

pub record Filter : Type 0 where
  pub include : Bool
  pub name : Bytes
  pub rules : List Rule

-- equal_uncase of main/locstr.cc on two strings that are there: strcasecmp compares byte by byte
-- what `tolower` makes of them.
pub equal_uncase : (ℕ → ℕ) → Bytes → Bytes → Bool
equal_uncase tolower a b = same_text (map tolower a) (map tolower b)

-- Filter::Rule::match
pub rule_match : (ℕ → ℕ) → Rule → Url → Bool
unfolding equal_uncase
rule_match tolower r addr =
    if not (r.proto == 0) && not (addr.proto == r.proto)
    then not r.include
    else if not (check_mask2_uncase tolower r.file addr.file)
    then not r.include
    else if not (check_mask2 r.host addr.host)
    then not r.include
    else if not (check_mask2 r.path addr.path)
    then not r.include
    else if not (equal_uncase tolower addr.tag r.tag)
    then not r.include
    else if not (check_mask2 r.params addr.params)
    then not r.include
    else r.include

-- std::find_if over the rules, as far as Filter::match looks at it: is there a rule that matches?
pub find_if : (ℕ → ℕ) → List Rule → Url → Bool
unfolding rule_match
find_if tolower [] addr = false
find_if tolower (r ∷ rules) addr =
    if rule_match tolower r addr then true else find_if tolower rules addr

-- Filter::match
pub match : (ℕ → ℕ) → Filter → Url → Bool
unfolding find_if
match tolower f addr = if find_if tolower f.rules addr then true else f.include

-- Filter::append: the filter, and the position that the iterator stands at.
pub append : Filter → Rule → Filter × ℕ
append f r = let rules = f.rules ++ r ∷ [] in (record f { rules = rules }, length rules - 1)

-- Filter::empty
pub empty : Filter → Bool
empty f = same_text f.name []

-- FiltersDB: the filters by their names.
abbrev pub FiltersDb : Type 0
FiltersDb = List (Bytes × Filter)

-- `Filters[f.name]=f`
pub insert : FiltersDb → Filter → FiltersDb
insert [] f = (f.name, f) ∷ []
insert ((k, g) ∷ db) f = if same_text k f.name then (k, f) ∷ db else (k, g) ∷ insert db f

-- FiltersDB::remove
pub remove : FiltersDb → Bytes → FiltersDb
remove [] name = []
remove ((k, g) ∷ db) name = if same_text k name then db else (k, g) ∷ remove db name

-- The filter that the default constructor makes; `include` is left as it is found in memory.
abbrev pub unnamed : Bool → Filter
unnamed include = record { include = include; name = []; rules = [] }

-- FiltersDB::find
pub find : Bool → FiltersDb → Bytes → Filter
find garbage [] name = unnamed garbage
find garbage ((k, g) ∷ db) name = if same_text k name then g else find garbage db name
