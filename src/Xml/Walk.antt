-- ===== src/Xml/Walk.antt =====
-- What a path finds in the objects of an XML file.
use d4x.Prelude.{
  ◌≢◌, Option, some, List, [], ◌∷◌, ◌++◌, if◌then◌else◌, Bool-cases, Bytes, All, All-append, ◌≡◌,
  refl, sym, ◌∙◌, inl, inr, arith,
}
use d4x.TextFile.{equal_uncase}
use d4x.Xml.{Field, object, Objects, nil, cons}
use d4x.Xml.Leads.{Looked, walk-Looked}
use d4x.Xml.Names.{
  up_to, behind, found, find_in, d4x_xml_find_obj, value_at, d4x_xml_find_obj_value, first_named,
  inside, walk, joined, Without, up_to-whole, behind-whole, up_to-append, behind-append,
}

find_in-cons :
    (n : Bytes) (v : Option Bytes) (fields : List Field) (objects rest : Objects)
    (path name : Bytes)
    → up_to b' ' path ≡ name
    → find_in (cons (object n v fields objects) rest) path ≡ (
        if equal_uncase name n
        then found (find_in objects) (object n v fields objects) (behind b' ' path)
        else find_in rest path)
unfolding find_in
find_in-cons n v fields objects rest path name e = rw e refl

first_named-cons :
    (n : Bytes) (v : Option Bytes) (fields : List Field) (objects rest : Objects) (name : Bytes)
    → first_named (cons (object n v fields objects) rest) name
      ≡ (if equal_uncase name n then some (object n v fields objects) else first_named rest name)
unfolding first_named
first_named-cons n v fields objects rest name = refl

joined-up_to :
    (name : Bytes) (names : List Bytes) → Without b' ' name → up_to b' ' (joined name names) ≡ name
unfolding joined
joined-up_to name [] h = up_to-whole b' ' name h
joined-up_to name (next ∷ names) h = up_to-append b' ' name (joined next names) h

-- Behind a name with a path.
joined-behind :
    (name next : Bytes) (names : List Bytes)
    → Without b' ' name
    → behind b' ' (joined name (next ∷ names)) ≡ some (joined next names)
unfolding joined
joined-behind name next names h = behind-append b' ' name (joined next names) h

-- A path of names without a space leads d4x_xml_find_obj from name to name: to the first object of
-- the first name in any case of its letters, from there to the first one of the next name among its
-- objects, and so on. An object behind the first one of a name is never looked into.
pub find_in-joined :
    (q : Objects) (name : Bytes) (names : List Bytes)
    → Without b' ' name
    → All (Without b' ') names
    → find_in q (joined name names) ≡ walk name names q
unfolding walk inside found joined
find_in-joined nil name [] h hs = unfold find_in first_named in refl
find_in-joined nil name (next ∷ names) h hs = unfold find_in first_named in refl
find_in-joined (cons (object n v fields objects) rest) name [] h hs =
    find_in-cons n v fields objects rest name name (up_to-whole b' ' name h)
    ∙ rw (behind-whole b' ' name h, find_in-joined rest name [] h hs)
        (sym (first_named-cons n v fields objects rest name))
find_in-joined (cons (object n v fields objects) rest) name (next ∷ names) h (i, hs) =
    find_in-cons n v fields objects rest (joined name (next ∷ names)) name
      (joined-up_to name (next ∷ names) h)
    ∙ rw
        (
          joined-behind name next names h,
          find_in-joined rest name (next ∷ names) h (i, hs),
          first_named-cons n v fields objects rest name,
          find_in-joined objects next names i hs,
        )
        (elim (Bool-cases (equal_uncase name n)) [ inl e ↦ rw e refl | inr e ↦ rw e refl ])

-- A name in a path.
unfoldable pub IsStep : Bytes → Type 0
unfolding Without
IsStep name = Without b' ' name × Without b'>' name

joined-Without :
    (name : Bytes) (names : List Bytes)
    → IsStep name
    → All IsStep names
    → Without b'>' (joined name names)
unfolding joined IsStep Without
joined-Without name [] h hs = h.1
joined-Without name (next ∷ names) h (i, hs) =
    All-append (λ d. d ≢ b'>') name (b' ' ∷ joined next names) h.1
      ((λ e. absurd (omega (e, arith))), joined-Without next names i hs)

steps-Without : (names : List Bytes) → All IsStep names → All (Without b' ') names
unfolding IsStep
steps-Without [] h = tt
steps-Without (name ∷ names) (h, hs) = (h.0, steps-Without names hs)

-- The names without a space and without `>` lead to the first object of the first name, from there to
-- the first one of the next name among its objects, and so on; names are the same in any case of
-- their letters. If they lead to an object, then the value at their path is its own, and the value at
-- the path with `>` and a name behind it is that of its first field with this name, or NULL if it has
-- none. If they lead to no object, then both are NULL.
pub d4x_xml_find_obj_value_lem :
    (q : Objects) (name : Bytes) (names : List Bytes) (attr : Bytes)
    → IsStep name
    → All IsStep names
    → Looked name names q attr
        (d4x_xml_find_obj_value (some q) (joined name names))
        (d4x_xml_find_obj_value (some q) (joined name names ++ (b'>' ∷ attr)))
unfolding d4x_xml_find_obj_value value_at d4x_xml_find_obj IsStep
d4x_xml_find_obj_value_lem q name names attr h hs =
    let path = joined name names in
    let free = joined-Without name names h hs in
    let leads = find_in-joined q name names h.0 (steps-Without names hs) in
    rw
      (
        behind-whole b'>' path free,
        behind-append b'>' path attr free,
        up_to-append b'>' path attr free,
        leads,
      )
      (walk-Looked q name names attr (walk name names q) refl)
