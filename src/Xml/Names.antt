-- ===== src/Xml/Names.antt =====
-- main/xml.cc: d4xXmlObject::get_attr and find_obj, d4x_xml_find_obj and d4x_xml_find_obj_value.
use d4x.Prelude.{
  ℕ, ◌≢◌, Option, none, some, List, [], ◌∷◌, ◌++◌, ◌==◌, if◌then◌else◌, Bytes, All, ◌≡◌, refl,
  arith,
}
use d4x.TextFile.{equal_uncase}
use d4x.Xml.{Field, Object, object, Objects, nil, cons}

-- The loop of d4xXmlObject::get_attr.
unfoldable pub attr_loop : Bytes → List Field → Option Field
unfolding equal_uncase
attr_loop name [] = none
attr_loop name (f ∷ fields) =
    let more = attr_loop name fields in if equal_uncase name f.name then some f else more

-- d4xXmlObject::get_attr
unfoldable pub get_attr : Object → Bytes → Option Field
unfolding attr_loop
get_attr (object n v fields objects) name = attr_loop name fields

-- `name.substr (0, name.find (c))`, where the whole string is taken if there is no such byte.
unfoldable pub up_to : ℕ → Bytes → Bytes
up_to c [] = []
up_to c (d ∷ name) = let more = d ∷ up_to c name in if d == c then [] else more

-- `name.substr (name.find (c) + 1)`, or `none` if there is no such byte.
unfoldable pub behind : ℕ → Bytes → Option Bytes
behind c [] = none
behind c (d ∷ name) = let more = behind c name in if d == c then some name else more

-- What d4x_xml_find_obj returns for an object whose name is the first word.
unfoldable pub found : (Bytes → Option Object) → Object → Option Bytes → Option Object
found inside obj none = some obj
found inside obj (some rest) = inside rest

-- d4x_xml_find_obj of a queue that is not NULL.
unfoldable pub find_in : Objects → Bytes → Option Object
unfolding found up_to behind equal_uncase
find_in nil name = none
find_in (cons (object n v fields objects) rest) name =
    let here = found (find_in objects) (object n v fields objects) (behind b' ' name) in
    let more = find_in rest name in if equal_uncase (up_to b' ' name) n then here else more

-- d4x_xml_find_obj
unfoldable pub d4x_xml_find_obj : Option Objects → Bytes → Option Object
unfolding find_in
d4x_xml_find_obj none name = none
d4x_xml_find_obj (some q) name = find_in q name

-- d4xXmlObject::find_obj
unfoldable pub find_obj : Object → Bytes → Option Object
unfolding d4x_xml_find_obj
find_obj (object n v fields objects) name = d4x_xml_find_obj (some objects) name

-- `obj?obj->get_attr (…):NULL`, and the value of the field.
unfoldable pub attr_value : Bytes → Option Object → Option Bytes
unfolding get_attr
attr_value name none = none
attr_value name (some obj) = elim (get_attr obj name) [ none ↦ none | some f ↦ some f.value ]

-- The value of the object, which may be NULL.
unfoldable pub obj_value : Option Object → Option Bytes
obj_value none = none
obj_value (some (object n v fields objects)) = v

-- Is there a `>` in the path?
unfoldable pub value_at : Option Objects → Bytes → Option Bytes → Option Bytes
unfolding d4x_xml_find_obj attr_value obj_value up_to
value_at q path none = obj_value (d4x_xml_find_obj q path)
value_at q path (some name) = attr_value name (d4x_xml_find_obj q (up_to b'>' path))

-- d4x_xml_find_obj_value
unfoldable pub d4x_xml_find_obj_value : Option Objects → Bytes → Option Bytes
unfolding value_at behind
d4x_xml_find_obj_value q path = value_at q path (behind b'>' path)

-- The first object of that name, in any case of its letters.
unfoldable pub first_named : Objects → Bytes → Option Object
unfolding equal_uncase
first_named nil name = none
first_named (cons (object n v fields objects) rest) name =
    let more = first_named rest name in
    if equal_uncase name n then some (object n v fields objects) else more

-- Among the objects of an object.
unfoldable pub inside : (Objects → Option Object) → Option Object → Option Object
inside look none = none
inside look (some (object n v fields objects)) = look objects

-- From name to name: the first object of each among the objects of the one before.
unfoldable pub walk : Bytes → List Bytes → Objects → Option Object
unfolding first_named inside
walk name [] q = first_named q name
walk name (next ∷ names) q = inside (walk next names) (first_named q name)

-- The names with a space between them.
unfoldable pub joined : Bytes → List Bytes → Bytes
joined name [] = name
joined name (next ∷ names) = name ++ (b' ' ∷ joined next names)

-- A string without the byte.
unfoldable pub Without : ℕ → Bytes → Type 0
Without c name = All (λ d. d ≢ c) name

pub up_to-whole : (c : ℕ) (name : Bytes) → Without c name → up_to c name ≡ name
unfolding up_to Without
up_to-whole c [] h = refl
up_to-whole c (d ∷ name) (h, hs) = ground (arith, up_to-whole c name hs)

pub behind-whole : (c : ℕ) (name : Bytes) → Without c name → behind c name ≡ none
unfolding behind Without
behind-whole c [] h = refl
behind-whole c (d ∷ name) (h, hs) = ground (arith, behind-whole c name hs)

pub up_to-append :
    (c : ℕ) (name rest : Bytes) → Without c name → up_to c (name ++ (c ∷ rest)) ≡ name
unfolding up_to Without
up_to-append c [] rest h = ground arith
up_to-append c (d ∷ name) rest (h, hs) = ground (arith, up_to-append c name rest hs)

pub behind-append :
    (c : ℕ) (name rest : Bytes) → Without c name → behind c (name ++ (c ∷ rest)) ≡ some rest
unfolding behind Without
behind-append c [] rest h = ground arith
behind-append c (d ∷ name) rest (h, hs) = ground (arith, behind-append c name rest hs)
