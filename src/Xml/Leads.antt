-- ===== src/Xml/Leads.antt =====
-- main/xml.cc: which object of a file a path of names means, and which field of it a name.
use d4x.Prelude.{
  ◌⊎◌, true, false, Option, none, some, List, [], ◌∷◌, ◌++◌, map, same_text, same_text→eq,
  same_text_refl, Bool-cases, Bytes, All, ◌≡◌, refl, sym, ap, ◌∙◌, inl, inr,
}
use d4x.TextFile.{equal_uncase, lower}
use d4x.Xml.{Field, Object, object, Objects, nil, cons}
use d4x.Xml.Names.{attr_loop, get_attr, attr_value, obj_value, first_named, inside, walk}

-- The same letters, in any case.
abbrev pub Same : Bytes → Bytes → Type 0
Same a b = map lower a ≡ map lower b

equal_uncase-map : (a b : Bytes) → equal_uncase a b ≡ same_text (map lower a) (map lower b)
unfolding equal_uncase
equal_uncase-map [] [] = refl
equal_uncase-map [] (d ∷ b) = refl
equal_uncase-map (c ∷ a) [] = refl
equal_uncase-map (c ∷ a) (d ∷ b) = rw (equal_uncase-map a b) refl

equal_uncase→Same : (a b : Bytes) → equal_uncase a b ≡ true → Same a b
equal_uncase→Same a b h = same_text→eq (map lower a) (map lower b) (sym (equal_uncase-map a b) ∙ h)

Same→equal_uncase : (a b : Bytes) → Same a b → equal_uncase a b ≡ true
Same→equal_uncase a b h =
    equal_uncase-map a b ∙ ap (λ x. same_text x (map lower b)) h ∙ same_text_refl (map lower b)

differs : (a b : Bytes) → equal_uncase a b ≡ false → ¬ Same a b
differs a b h s = cc (Same→equal_uncase a b s)

-- The first object with the name.
pub data First (name : Bytes) : Objects → Object → Type 0 where
  here :
      {n : Bytes} {v : Option Bytes} {fields : List Field} {objects rest : Objects}
      → Same name n
      → First name (cons (object n v fields objects) rest) (object n v fields objects)
  later :
      {n : Bytes} {v : Option Bytes} {fields : List Field} {objects rest : Objects} {o : Object}
      → ¬ Same name n
      → First name rest o
      → First name (cons (object n v fields objects) rest) o

-- The object to which the names lead: the first one of each among the objects of the one before.
pub data Leads : Bytes → List Bytes → Objects → Object → Type 0 where
  ends : {name : Bytes} {q : Objects} {o : Object} → First name q o → Leads name [] q o
  goes :
      {name next : Bytes} {names : List Bytes} {q : Objects} {n : Bytes} {v : Option Bytes}
      {fields : List Field} {objects : Objects} {o : Object}
      → First name q (object n v fields objects)
      → Leads next names objects o
      → Leads name (next ∷ names) q o

first_named-First :
    (q : Objects) (name : Bytes) (o : Object) → first_named q name ≡ some o → First name q o
unfolding first_named
first_named-First nil name o h = cc
first_named-First (cons (object n v fields objects) rest) name o h =
    elim (Bool-cases (equal_uncase name n)) [
      | inl e ↦
          let found : object n v fields objects ≡ o = cc in
          rw (← found) (here (equal_uncase→Same name n e))
      | inr e ↦ later (differs name n e) (first_named-First rest name o (rw e at h))
    ]

First→first_named :
    (name : Bytes) (q : Objects) (o : Object) → First name q o → first_named q name ≡ some o
unfolding first_named
First→first_named name _ _ (here s) = rw (Same→equal_uncase name _ s) refl
First→first_named name _ o (later {n = n} d f) = elim (Bool-cases (equal_uncase name n)) [
  | inl e ↦ absurd (d (equal_uncase→Same name n e))
  | inr e ↦ rw e (First→first_named name _ o f)
]

-- Behind a name there is an object, if there is a result.
inside_lem :
    (look : Objects → Option Object) (found : Option Object) (o : Object)
    → inside look found ≡ some o
    → (n : Bytes) × (v : Option Bytes) × (fields : List Field) × (objects : Objects) × (found
        ≡ some (object n v fields objects))
      × (look objects ≡ some o)
unfolding inside
inside_lem look none o h = cc
inside_lem look (some (object n v fields objects)) o h = (n, v, fields, objects, refl, h)

walk-Leads :
    (name : Bytes) (names : List Bytes) (q : Objects) (o : Object)
    → walk name names q ≡ some o
    → Leads name names q o
unfolding walk
walk-Leads name [] q o h = ends (first_named-First q name o h)
walk-Leads name (next ∷ names) q o h =
    let (n, v, fields, objects, found, on) =
      inside_lem (walk next names) (first_named q name) o h in
    goes (first_named-First q name (object n v fields objects) found)
      (walk-Leads next names objects o on)

Leads→walk :
    (name : Bytes) (names : List Bytes) (q : Objects) (o : Object)
    → Leads name names q o
    → walk name names q ≡ some o
unfolding walk inside
Leads→walk name _ q o (ends f) = First→first_named name q o f
Leads→walk name _ q o (goes {next = next} {names = names} {objects = objects} f l) =
    rw (First→first_named name q _ f, Leads→walk next names objects o l) refl

-- The value of the first field with the name, or NULL if there is none.
unfoldable pub FieldValue : Bytes → List Field → Option Bytes → Type 0
FieldValue name fields none = All (λ f. ¬ Same name f.name) fields
FieldValue name fields (some v) =
    (before : List Field) × (f : Field) × (rest : List Field) × (fields ≡ before ++ f ∷ rest)
    × All (λ g. ¬ Same name g.name) before
    × Same name f.name
    × (v ≡ f.value)

-- What a lookup of a path and a field gives: the value of the object to which the names lead and
-- that of its field, or twice NULL if they lead to none.
unfoldable pub Looked : Bytes → List Bytes → Objects → Bytes → Option Bytes → Option Bytes → Type 0
Looked name names q attr value field =
    ((n : Bytes) × (fields : List Field) × (objects : Objects) × Leads name names q
        (object n value fields objects)
      × FieldValue attr fields field)
    ⊎ (((o : Object) → ¬ Leads name names q o) × (value ≡ none) × (field ≡ none))

FieldValue-cons :
    (name : Bytes) (f : Field) (fields : List Field) (w : Option Bytes)
    → ¬ Same name f.name
    → FieldValue name fields w
    → FieldValue name (f ∷ fields) w
unfolding FieldValue
FieldValue-cons name f fields none d h = (d, h)
FieldValue-cons name f fields (some v) d (before, g, rest, e, ds, s, q) =
    (f ∷ before, g, rest, ap (λ l. f ∷ l) e, (d, ds), s, q)

attr_loop-FieldValue :
    (name : Bytes) (fields : List Field)
    → FieldValue name fields (elim (attr_loop name fields) [ none ↦ none | some f ↦ some f.value ])
unfolding attr_loop FieldValue
attr_loop-FieldValue name [] = tt
attr_loop-FieldValue name (f ∷ fields) = elim (Bool-cases (equal_uncase name f.name)) [
  | inl e ↦ rw e ([], f, fields, refl, tt, equal_uncase→Same name f.name e, refl)
  | inr e ↦ rw e (
      FieldValue-cons name f fields
        (elim (attr_loop name fields) [ none ↦ none | some g ↦ some g.value ])
        (differs name f.name e) (attr_loop-FieldValue name fields))
]

-- An object that is found has its value and those of its fields.
pub walk-Looked :
    (q : Objects) (name : Bytes) (names : List Bytes) (attr : Bytes) (found : Option Object)
    → walk name names q ≡ found
    → Looked name names q attr (obj_value found) (attr_value attr found)
unfolding Looked obj_value attr_value get_attr
walk-Looked q name names attr none h =
    inr ((λ o l. absurd (cc (h, Leads→walk name names q o l))), refl, refl)
walk-Looked q name names attr (some (object n v fields objects)) h = inl (
  n,
  fields,
  objects,
  walk-Leads name names q (object n v fields objects) h,
  attr_loop-FieldValue attr fields,
)
