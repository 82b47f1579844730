-- ===== src/Filter/Decide.antt =====
-- What a rule and a filter decide about an address.
use d4x.Prelude.{
  ℕ, ◌≡◌, ◌↔◌, ◌⊎◌, inl, inr, Bool, true, false, ◌&&◌, not, List, [], ◌∷◌, ◌==◌, if◌then◌else◌, map,
  arith, Bool-cases, same_text→eq, same_text_refl,
}
use d4x.Mask.{question, check_mask2, check_mask2_uncase}
use d4x.Mask.Matches.{Matches, check_mask2_iff, check_mask2_uncase_iff}
use d4x.Filter.{Url, Rule, Filter, equal_uncase, rule_match, find_if, match}

-- The mask describes the string.
abbrev pub Fits : List ℕ → List ℕ → Type 0
Fits = Matches (λ k. k == question) (λ c k. c == k)

-- The rule describes the address: by its protocol, if it names one, by the masks of its file, in
-- whatever case, its host, its path and its parameters, and by its tag, in whatever case.
pub record Describes (tolower : ℕ → ℕ) (r : Rule) (u : Url) : Type 0 where
  pub proto : (r.proto ≡ 0) ⊎ (u.proto ≡ r.proto)
  pub file : Matches (λ k. k == question) (λ c k. tolower c == tolower k) r.file u.file
  pub host : Fits r.host u.host
  pub path : Fits r.path u.path
  pub tag : map tolower u.tag ≡ map tolower r.tag
  pub params : Fits r.params u.params

-- The tests of Rule::match in one.
describes : (ℕ → ℕ) → Rule → Url → Bool
describes tolower r u =
    not (not (r.proto == 0) && not (u.proto == r.proto))
    && (check_mask2_uncase tolower r.file u.file
        && (check_mask2 r.host u.host
            && (check_mask2 r.path u.path
                && (equal_uncase tolower u.tag r.tag && check_mask2 r.params u.params))))

rule_match-describes :
    (tolower : ℕ → ℕ) (r : Rule) (u : Url)
    → rule_match tolower r u ≡ (if describes tolower r u then r.include else not r.include)
unfolding rule_match describes
rule_match-describes tolower r u = ground arith

equal_uncase_iff :
    (tolower : ℕ → ℕ) (a b : List ℕ)
    → (equal_uncase tolower a b ≡ true) ↔ (map tolower a ≡ map tolower b)
unfolding equal_uncase
equal_uncase_iff tolower a b = (same_text→eq _ _, λ e. rw e (same_text_refl (map tolower b)))

Describes-of :
    (tolower : ℕ → ℕ) (r : Rule) (u : Url) → describes tolower r u ≡ true → Describes tolower r u
unfolding describes
Describes-of tolower r u h = record {
  proto = ground arith;
  file = (check_mask2_uncase_iff tolower r.file u.file).0 (ground arith);
  host = (check_mask2_iff r.host u.host).0 (ground arith);
  path = (check_mask2_iff r.path u.path).0 (ground arith);
  tag = (equal_uncase_iff tolower u.tag r.tag).0 (ground arith);
  params = (check_mask2_iff r.params u.params).0 (ground arith);
}

describes_of :
    (tolower : ℕ → ℕ) (r : Rule) (u : Url) → Describes tolower r u → describes tolower r u ≡ true
unfolding describes
describes_of tolower r u d =
    let f = (check_mask2_uncase_iff tolower r.file u.file).1 d.file in
    let h = (check_mask2_iff r.host u.host).1 d.host in
    let p = (check_mask2_iff r.path u.path).1 d.path in
    let t = (equal_uncase_iff tolower u.tag r.tag).1 d.tag in
    let q = (check_mask2_iff r.params u.params).1 d.params in let e = d.proto in ground arith

-- Whatever `tolower` does, an including rule matches exactly the addresses that it describes, and an excluding rule
-- exactly those that it does not describe.
pub rule_match_iff :
    (tolower : ℕ → ℕ) (r : Rule) (u : Url)
    → (rule_match tolower r u ≡ true) ↔ (
        ((r.include ≡ true) × Describes tolower r u)
        ⊎ ((r.include ≡ false) × ¬ (Describes tolower r u)))
rule_match_iff tolower r u = elim (Bool-cases (describes tolower r u)) [
  | inl h ↦
      let d = Describes-of tolower r u h in
      (
        λ m. inl (rw (rule_match-describes, h) at m, d),
        λ c. rw (rule_match-describes, h) (elim c [ inl p ↦ p.0 | inr p ↦ absurd (p.1 d) ]),
      )
  | inr h ↦
      let no_d : ¬ (Describes tolower r u) = λ d. cc (describes_of tolower r u d) in
      (
        λ m. inr (not_true r.include (rw (rule_match-describes, h) at m), no_d),
        λ c. rw (rule_match-describes, h) (elim c [ inl p ↦ absurd (no_d p.1) | inr p ↦ rw p.0 ]),
      )
]
  where
    not_true : (b : Bool) → not b ≡ true → b ≡ false
    not_true b h = ground arith

pub data Some (P : Rule → Type 0) : List Rule → Type 0 where
  here : {r : Rule} {l : List Rule} → P r → Some P (r ∷ l)
  there : {r : Rule} {l : List Rule} → Some P l → Some P (r ∷ l)

find_if-Some :
    (tolower : ℕ → ℕ) (rules : List Rule) (u : Url)
    → find_if tolower rules u ≡ true
    → Some (λ r. rule_match tolower r u ≡ true) rules
unfolding find_if
find_if-Some tolower [] u h = cc
find_if-Some tolower (r ∷ rules) u h = elim (Bool-cases (rule_match tolower r u)) [
  | inl e ↦ here e
  | inr e ↦ there (find_if-Some tolower rules u (rw e at h))
]

Some-find_if :
    (tolower : ℕ → ℕ) (u : Url) {rules : List Rule}
    → Some (λ r. rule_match tolower r u ≡ true) rules
    → find_if tolower rules u ≡ true
unfolding find_if
Some-find_if tolower u (here e) = rw e
Some-find_if tolower u (there {r} h) = elim (Bool-cases (rule_match tolower r u)) [
  | inl e ↦ rw e
  | inr e ↦ rw e (Some-find_if tolower u h)
]

-- A rule decides for the address: it includes what it describes, or excludes and does not describe it.
abbrev pub Accepts : (ℕ → ℕ) → Url → Rule → Type 0
Accepts tolower u r =
    ((r.include ≡ true) × Describes tolower r u) ⊎ ((r.include ≡ false) × ¬ (Describes tolower r u))

Some-map : {P Q : Rule → Type 0} {l : List Rule} → ((r : Rule) → P r → Q r) → Some P l → Some Q l
Some-map f (here p) = here (f _ p)
Some-map f (there s) = there (Some-map f s)

-- A filter passes an address exactly if its default is to include, or if one of its rules accepts it,
-- whatever the other rules say and wherever they stand.
pub match_iff :
    (tolower : ℕ → ℕ) (f : Filter) (u : Url)
    → (match tolower f u ≡ true) ↔ (Some (Accepts tolower u) f.rules ⊎ (f.include ≡ true))
unfolding match
match_iff tolower f u = elim (Bool-cases (find_if tolower f.rules u)) [
  | inl h ↦ (
    λ _. inl (Some-map (λ r. (rule_match_iff tolower r u).0) (find_if-Some tolower f.rules u h)),
    λ _. rw h,
  )
  | inr h ↦ (
    λ m. inr (rw h at m),
    λ c. rw h (elim c [
      | inl s ↦ cc (Some-find_if tolower u (Some-map (λ r. (rule_match_iff tolower r u).1) s))
      | inr e ↦ e
    ]),
  )
]
