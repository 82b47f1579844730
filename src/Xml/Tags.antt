-- ===== src/Xml/Tags.antt =====
-- main/xml.cc: d4x_xml_read_fields, d4x_xml_read_obj_body, d4x_xml_read_tag and d4x_xml_parse_fd. The
-- loops have fuel; the readers of fields, bodies and files take the length of what is left of the
-- file. If a reader fails, what is left of the file does not matter, since no caller reads on.
use d4x.Prelude.{
  ℕ, zero, suc, Bool, false, ◌||◌, not, Option, none, some, List, [], ◌∷◌, ◌++◌, ◌==◌,
  if◌then◌else◌, Bytes, codes, length,
}
use d4x.Strings.{begin_string}
use d4x.Strings.Case.{string_ended}
use d4x.Strings.Replace.{xml_replace_entities}
use d4x.Xml.{
  Field, Object, object, Objects, nil, insert_object, is_space, skip_for, buffer, Grown, read_grow,
  read_value, skip_for_str,
}

-- The results of d4x_xml_read_fields: -1, 0 and 1, with the fields and what is left of the file.
pub data Fields : Type 0 where
  fields_fuel bad_fields : Fields
  open_tag closed_tag : List Field → Bytes → Fields

-- The results of d4x_xml_read_obj_body: -1, and 0 with the value and the objects.
pub data Body : Type 0 where
  body_fuel bad_body : Body
  body : Bytes → Objects → Bytes → Body

-- The results of d4x_xml_read_tag: NULL, or the object.
pub data Tag : Type 0 where
  tag_fuel no_tag : Tag
  tag : Object → Bytes → Tag

-- The results of d4x_xml_parse_fd: NULL, or the queue.
pub data Parsed : Type 0 where
  parse_fuel null : Parsed
  queue : Objects → Parsed

-- Behind a `/` among the fields.
unfoldable pub after_slash : List Field → Bytes → Fields
after_slash fields [] = bad_fields
after_slash fields (c ∷ s) = if c == b'>' then closed_tag fields s else bad_fields

-- `while(*b!='=')`
unfoldable pub find_equals : Bytes → Option Bytes
unfolding is_space
find_equals [] = none
find_equals (c ∷ s) =
    let more = find_equals s in if c == b'=' then some s else if is_space c then more else none

-- `while(isspace(*b))`, and the test for the quote.
unfoldable pub find_quote : Bytes → Option Bytes
unfolding is_space
find_quote [] = none
find_quote (c ∷ s) =
    let more = find_quote s in if is_space c then more else if c == b'"' then some s else none

-- d4x_xml_read_value behind the quote.
unfoldable pub quoted : Option Bytes → Option (Bytes × Bytes)
unfolding read_value buffer
quoted none = none
quoted (some s) = read_value false (buffer []) s

-- The value behind the `=`.
unfoldable pub assigned : Option Bytes → Option (Bytes × Bytes)
unfolding find_quote quoted
assigned none = none
assigned (some s) = quoted (find_quote s)

-- The value behind the name of a field.
unfoldable pub field_value : Grown → Option (Bytes × Bytes)
unfolding find_equals assigned
field_value g = assigned (if g.stop == b'=' then some g.rest else find_equals g.rest)

-- The field is put into the object, and the loop goes on.
unfoldable pub add_field :
    (List Field → Bytes → Fields) → List Field → Bytes → Option (Bytes × Bytes) → Fields
unfolding xml_replace_entities
add_field k fields name none = bad_fields
add_field k fields name (some (value, s)) =
    k (fields ++ record { name = name; value = xml_replace_entities value } ∷ []) s

-- Behind the first call of d4x_xml_read_grow.
unfoldable pub named_field : (List Field → Bytes → Fields) → List Field → Grown → Fields
unfolding field_value add_field
named_field k fields g =
    if g.stop == b'>'
    then open_tag fields g.rest
    else if g.stop == 0 || g.stop == b'<'
    then bad_fields
    else add_field k fields g.str (field_value g)

-- `fld->name.set (b)`: a zero byte is no part of the string.
unfoldable pub first_byte : ℕ → Bytes
first_byte c = if c == 0 then [] else c ∷ []

abbrev pub field_stops : Bytes
field_stops = b' ' ∷ 10 ∷ 9 ∷ 13 ∷ b'<' ∷ b'>' ∷ b'=' ∷ []

abbrev pub tag_stops : Bytes
tag_stops = b' ' ∷ 10 ∷ 9 ∷ 13 ∷ b'<' ∷ b'>' ∷ b'/' ∷ []

abbrev pub text_stops : Bytes
text_stops = b'<' ∷ b'>' ∷ []

-- d4x_xml_read_fields, with the fields that were read.
unfoldable pub read_fields : ℕ → List Field → Bytes → Fields
unfolding after_slash named_field first_byte is_space read_grow buffer
read_fields zero fields s = fields_fuel
read_fields (suc fuel) fields [] = bad_fields
read_fields (suc fuel) fields (c ∷ s) =
    let more = read_fields fuel fields s in
    if is_space c
    then more
    else if c == b'/'
    then after_slash fields s
    else if c == b'>'
    then open_tag fields s
    else named_field (read_fields fuel) fields (read_grow field_stops (buffer (first_byte c)) s)

-- `*(obj->name.get())=='/'`
unfoldable pub is_end : Bytes → Bool
is_end [] = false
is_end (c ∷ name) = c == b'/'

unfoldable pub name_of : Object → Bytes
name_of (object name value fields objects) = name

-- What the loop of d4x_xml_read_obj_body does with the result of d4x_xml_read_tag.
unfoldable pub add_child : (Bytes → Objects → Bytes → Body) → Bytes → Objects → Tag → Body
unfolding is_end name_of insert_object
add_child k value objects tag_fuel = body_fuel
add_child k value objects no_tag = bad_body
add_child k value objects (tag chld s) =
    if is_end (name_of chld) then body value objects s else k value (insert_object objects chld) s

-- Behind the call of d4x_xml_read_grow, where `read` is d4x_xml_read_tag.
unfoldable pub read_child :
    (Bytes → Objects → Bytes → Body) → (Bytes → Tag) → Objects → Grown → Body
unfolding add_child xml_replace_entities
read_child k read objects g =
    if g.stop == b'>' || g.stop == 0
    then bad_body
    else add_child k (xml_replace_entities g.str) objects (read g.rest)

-- The loop of d4x_xml_read_obj_body.
unfoldable pub read_obj_body : ℕ → (Bytes → Tag) → Bytes → Objects → Bytes → Body
unfolding read_child read_grow buffer
read_obj_body zero read value objects s = body_fuel
read_obj_body (suc fuel) read value objects s =
    read_child (read_obj_body fuel read) read objects (read_grow text_stops (buffer value) s)

-- The first loop of d4x_xml_read_tag: the byte that is no space, and what is left.
unfoldable pub skip_spaces : Bytes → Option (ℕ × Bytes)
unfolding is_space
skip_spaces [] = none
skip_spaces (c ∷ s) = let more = skip_spaces s in if is_space c then more else some (c, s)

-- `case '/'` behind the name of an object.
unfoldable pub empty_tag : Bytes → Bytes → Tag
empty_tag name [] = no_tag
empty_tag name (c ∷ s) = if c == b'>' then tag (object name none [] nil) s else no_tag

-- Behind the call of d4x_xml_read_obj_body.
unfoldable pub with_body : Bytes → List Field → Body → Tag
with_body name fields body_fuel = tag_fuel
with_body name fields bad_body = no_tag
with_body name fields (body value objects s) = tag (object name (some value) fields objects) s

-- The end of d4x_xml_read_tag.
unfoldable pub read_body : (Bytes → Tag) → Bytes → List Field → Bytes → Tag
unfolding is_end with_body read_obj_body
read_body read name fields s =
    if is_end name
    then tag (object name none fields nil) s
    else with_body name fields (read_obj_body (suc (length s)) read [] nil s)

-- The `switch` over the result of d4x_xml_read_fields.
unfoldable pub with_fields : (Bytes → Tag) → Bytes → Fields → Tag
unfolding read_body
with_fields read name fields_fuel = tag_fuel
with_fields read name bad_fields = no_tag
with_fields read name (closed_tag fields s) = tag (object name none fields nil) s
with_fields read name (open_tag fields s) = read_body read name fields s

-- Behind a comment the next tag is read.
unfoldable pub after_comment : (Bytes → Tag) → Option Bytes → Tag
after_comment read none = no_tag
after_comment read (some s) = read s

-- What is left of the file behind a comment.
unfoldable pub skip_comment : Grown → Bytes
unfolding string_ended skip_for_str
skip_comment g =
    if not (g.stop == b'>') || not (string_ended (codes "--") g.str)
    then skip_for_str (codes "-->") g.rest
    else g.rest

-- Behind the call of d4x_xml_read_grow.
unfoldable pub named_tag : (Bytes → Tag) → Grown → Tag
unfolding begin_string after_comment skip_comment skip_for empty_tag with_fields read_fields
    read_body
named_tag read g =
    if g.stop == b'<' || g.stop == 0
    then no_tag
    else if begin_string g.str (codes "!--")
    then after_comment read (skip_for (codes "<") (skip_comment g))
    else if g.stop == b'/'
    then empty_tag g.str g.rest
    else if not (g.stop == b'>')
    then with_fields read g.str (read_fields (suc (length g.rest)) [] g.rest)
    else read_body read g.str [] g.rest

-- Behind the first loop.
unfoldable pub start_tag : (Bytes → Tag) → Option (ℕ × Bytes) → Tag
unfolding named_tag read_grow buffer
start_tag read none = no_tag
start_tag read (some (c, s)) =
    if c == b'>' || c == 0 then no_tag else named_tag read (read_grow tag_stops (buffer (c ∷ [])) s)

-- d4x_xml_read_tag
unfoldable pub read_tag : ℕ → Bytes → Tag
unfolding start_tag skip_spaces
read_tag zero s = tag_fuel
read_tag (suc fuel) s = start_tag (read_tag fuel) (skip_spaces s)

-- The loop of d4x_xml_parse_fd with the result of d4x_xml_read_tag.
unfoldable pub add_tag : (Objects → Option Bytes → Parsed) → Objects → Tag → Parsed
unfolding skip_for insert_object
add_tag k rval tag_fuel = parse_fuel
add_tag k rval no_tag = queue rval
add_tag k rval (tag obj s) = k (insert_object rval obj) (skip_for (codes "<") s)

-- The loop of d4x_xml_parse_fd behind a call of d4x_xml_skip_for.
unfoldable pub parse_tags : ℕ → Objects → Option Bytes → Parsed
unfolding add_tag read_tag
parse_tags zero rval s = parse_fuel
parse_tags (suc fuel) rval none = queue rval
parse_tags (suc fuel) rval (some s) = add_tag (parse_tags fuel) rval (read_tag (suc (length s)) s)

-- The first call of d4x_xml_skip_for in d4x_xml_parse_fd.
unfoldable pub parse_from : Option Bytes → Parsed
unfolding parse_tags
parse_from none = null
parse_from (some s) = parse_tags (suc (length s)) nil (some s)

-- d4x_xml_parse_fd
unfoldable pub d4x_xml_parse_fd : Bytes → Parsed
unfolding parse_from skip_for
d4x_xml_parse_fd s = parse_from (skip_for (codes "<") s)
