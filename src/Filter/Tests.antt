-- ===== src/Filter/Tests.antt =====
-- Runs of the filters, and the theorems at concrete filters.
use d4x.Prelude.{ℕ, ◌≡◌, ◌↔◌, ◌⊎◌, refl, Bool, true, false, [], ◌∷◌, ◌==◌, if◌then◌else◌, codes}
use d4x.Mask.{check_mask2, check_mask2_uncase}
use d4x.Filter.{Url, Rule, Filter, match}
use d4x.Filter.Decide.{Accepts, Some, match_iff}

-- `tolower` for one letter.
abbrev lower : ℕ → ℕ
lower c = if c == b'A' then b'a' else c

abbrev url : Url
url = record {
  proto = 2;
  host = codes "host";
  path = codes "dir";
  file = codes "A.zip";
  params = codes "q";
  tag = codes "a";
}

abbrev rule : Bool → Rule
rule b = record {
  path = codes "*";
  file = codes "*.zip";
  host = codes "*";
  params = codes "*";
  tag = codes "A";
  proto = 0;
  include = b;
}

abbrev filter : Filter
filter = record { include = false; name = codes "zip"; rules = rule true ∷ [] }

including : match lower filter url ≡ true
unfolding match check_mask2 check_mask2_uncase
including = refl

-- An excluding rule rejects nothing where the default is to include.
excluding : match lower (record filter { include = true; rules = rule false ∷ [] }) url ≡ true
unfolding match check_mask2 check_mask2_uncase
excluding = refl

match_iff_example :
    (match lower filter url ≡ true)
    ↔ (Some (Accepts lower url) filter.rules ⊎ (filter.include ≡ true))
match_iff_example = match_iff lower filter url
