-- ===== src/Xml/Enough.antt =====
-- The fuel of the readers of tags, bodies and files is enough.
use d4x.Prelude.{
  ℕ, zero, suc, ◌≤◌, ◌<◌, ◌||◌, not, Option, none, some, List, [], ◌∷◌, ◌==◌, if_intro, Bytes,
  codes, length, arith,
}
use d4x.Strings.Case.{string_ended}
use d4x.Strings.Replace.{xml_replace_entities}
use d4x.Xml.{Field, Objects, nil, insert_object, buffer, Grown, read_grow}
use d4x.Xml.Ends.{Left, read_grow-le, skip_for_str-le, FieldsWithin}
use d4x.Xml.Tags.{
  Fields, fields_fuel, bad_fields, open_tag, closed_tag, Body, body_fuel, bad_body, body, Tag,
  tag_fuel, no_tag, tag, text_stops, is_end, name_of, add_child, read_child, read_obj_body,
  empty_tag, with_body, read_body, with_fields, after_comment, skip_comment,
}

-- The fuel was enough, and less than so many bytes are left.
unfoldable BodyWithin : ℕ → Body → Type 0
BodyWithin n body_fuel = ⊥
BodyWithin n bad_body = Unit
BodyWithin n (body value objects s) = length s < n

unfoldable pub TagWithin : ℕ → Tag → Type 0
TagWithin n tag_fuel = ⊥
TagWithin n no_tag = Unit
TagWithin n (tag obj s) = length s < n

pub TagWithin-le : (m n : ℕ) (t : Tag) → TagWithin m t → m ≤ n → TagWithin n t
unfolding TagWithin
TagWithin-le m n tag_fuel h l = h
TagWithin-le m n no_tag h l = tt
TagWithin-le m n (tag obj s) h l = omega (h, l, arith)

BodyWithin-le : (m n : ℕ) (b : Body) → BodyWithin m b → m ≤ n → BodyWithin n b
unfolding BodyWithin
BodyWithin-le m n body_fuel h l = h
BodyWithin-le m n bad_body h l = tt
BodyWithin-le m n (body value objects s) h l = omega (h, l, arith)

-- A reader of tags whose fuel is enough for less than so many bytes.
unfoldable pub Reads : ℕ → (Bytes → Tag) → Type 0
unfolding TagWithin
Reads n read = (s : Bytes) → length s < n → TagWithin (length s) (read s)

Reads-le : (m n : ℕ) (read : Bytes → Tag) → Reads n read → m ≤ n → Reads m read
unfolding Reads
Reads-le m n read r l s h = r s (omega (h, l, arith))

module _ (n : ℕ) (k : Bytes → Objects → Bytes → Body)
    (ends : (v : Bytes) (os : Objects) (s : Bytes) → length s < n → BodyWithin n (k v os s)) where
  add_child-Within :
      (v : Bytes) (os : Objects) (t : Tag) → TagWithin n t → BodyWithin n (add_child k v os t)
  unfolding add_child TagWithin BodyWithin
  add_child-Within v os tag_fuel h = h
  add_child-Within v os no_tag h = tt
  add_child-Within v os (tag chld s) h =
      if_intro (BodyWithin n) (is_end (name_of chld)) (λ _. h)
        (λ _. ends v (insert_object os chld) s h)

  read_child-Within :
      (read : Bytes → Tag) (os : Objects) (g : Grown)
      → Reads (suc n) read
      → length g.rest ≤ n
      → BodyWithin n (read_child k read os g)
  unfolding read_child Reads BodyWithin
  read_child-Within read os g r h =
      if_intro (BodyWithin n) (g.stop == b'>' || g.stop == 0) (λ _. tt)
        (λ _.
          add_child-Within (xml_replace_entities g.str) os (read g.rest)
            (TagWithin-le (length g.rest) n (read g.rest) (r g.rest (omega (arith, h))) h))

read_obj_body-Within :
    (fuel : ℕ) (read : Bytes → Tag) (v : Bytes) (os : Objects) (s : Bytes)
    → Reads (suc (length s)) read
    → length s < fuel
    → BodyWithin (length s) (read_obj_body fuel read v os s)
unfolding read_obj_body
read_obj_body-Within zero read v os s r h = absurd (omega (arith, h))
read_obj_body-Within (suc fuel) read v os s r h =
    read_child-Within (length s) (read_obj_body fuel read)
      (λ v' os' t l.
        BodyWithin-le (length t) (length s) (read_obj_body fuel read v' os' t)
          (read_obj_body-Within fuel read v' os' t
            (Reads-le (suc (length t)) (suc (length s)) read r (omega (arith, l)))
            (omega (arith, l, h)))
          (omega (arith, l)))
      read os (read_grow text_stops (buffer v) s) r (read_grow-le text_stops (buffer v) s)

with_body-Within :
    (n : ℕ) (name : Bytes) (fields : List Field) (b : Body)
    → BodyWithin n b
    → TagWithin n (with_body name fields b)
unfolding with_body BodyWithin TagWithin
with_body-Within n name fields body_fuel h = h
with_body-Within n name fields bad_body h = tt
with_body-Within n name fields (body v os s) h = h

pub empty_tag-Within : (name s : Bytes) → TagWithin (suc (length s)) (empty_tag name s)
unfolding empty_tag TagWithin
empty_tag-Within name [] = tt
empty_tag-Within name (c ∷ s) =
    if_intro (TagWithin (suc (suc (length s)))) (c == b'>') (λ _. omega arith) (λ _. tt)

module _ (n : ℕ) (read : Bytes → Tag) (reads : Reads n read) where
  pub read_body-Within :
      (name : Bytes) (fields : List Field) (s : Bytes)
      → length s < n
      → TagWithin n (read_body read name fields s)
  unfolding read_body TagWithin
  read_body-Within name fields s h =
      if_intro (TagWithin n) (is_end name) (λ _. h)
        (λ _.
          let b = read_obj_body (suc (length s)) read [] nil s in
          with_body-Within n name fields b (
            BodyWithin-le (length s) n b
              (read_obj_body-Within (suc (length s)) read [] nil s
                (Reads-le (suc (length s)) n read reads (omega (arith, h))) (omega arith))
              (omega (arith, h))))

  pub with_fields-Within :
      (name : Bytes) (r : Fields) → FieldsWithin n r → TagWithin n (with_fields read name r)
  unfolding with_fields TagWithin
  with_fields-Within name fields_fuel h = h
  with_fields-Within name bad_fields h = tt
  with_fields-Within name (open_tag fields s) h = read_body-Within name fields s h
  with_fields-Within name (closed_tag fields s) h = h

  pub after_comment-Within : (o : Option Bytes) → Left n o → TagWithin n (after_comment read o)
  unfolding after_comment TagWithin Reads
  after_comment-Within none h = tt
  after_comment-Within (some s) h =
      TagWithin-le (length s) n (read s) (reads s h) (omega (arith, h))

pub skip_comment-le : (g : Grown) → length (skip_comment g) ≤ length g.rest
unfolding skip_comment
skip_comment-le g =
    if_intro (λ (r : Bytes). length r ≤ length g.rest)
      (not (g.stop == b'>') || not (string_ended (codes "--") g.str))
      (λ _. skip_for_str-le (codes "-->") g.rest) (λ _. omega arith)
