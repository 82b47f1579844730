-- ===== src/Xml/Total.antt =====
-- d4x_xml_parse_fd comes to an end.
use d4x.Prelude.{
  ℕ, zero, suc, ◌≤◌, ◌<◌, ◌||◌, not, Option, none, some, [], ◌∷◌, ◌==◌, if_intro, Bytes, codes,
  length, arith,
}
use d4x.Strings.{begin_string}
use d4x.Xml.{Objects, nil, insert_object, is_space, skip_for, buffer, Grown, read_grow}
use d4x.Xml.Ends.{Left, Left-le, skip_for-Left, read_grow-le, FieldsWithin-le, read_fields-Within}
use d4x.Xml.Tags.{
  Tag, tag_fuel, no_tag, tag, Parsed, parse_fuel, null, queue, tag_stops, read_fields, skip_spaces,
  empty_tag, skip_comment, named_tag, start_tag, read_tag, add_tag, parse_tags, parse_from,
  d4x_xml_parse_fd,
}
use d4x.Xml.Enough.{
  TagWithin, TagWithin-le, Reads, empty_tag-Within, read_body-Within, with_fields-Within,
  after_comment-Within, skip_comment-le,
}

named_tag-Within :
    (n : ℕ) (read : Bytes → Tag) (g : Grown)
    → Reads n read
    → length g.rest < n
    → TagWithin n (named_tag read g)
unfolding named_tag TagWithin
named_tag-Within n read g r h =
    let rest = skip_comment g in
    let fields = read_fields (suc (length g.rest)) [] g.rest in
    if_intro (TagWithin n) (g.stop == b'<' || g.stop == 0) (λ _. tt)
      (λ _.
        if_intro (TagWithin n) (begin_string g.str (codes "!--"))
          (λ _. after_comment-Within n read r (skip_for (codes "<") rest) (
            Left-le (length rest) n (skip_for (codes "<") rest) (skip_for-Left (codes "<") rest)
              (omega (arith, h, skip_comment-le g))))
          (λ _.
            if_intro (TagWithin n) (g.stop == b'/')
              (λ _.
                TagWithin-le (suc (length g.rest)) n (empty_tag g.str g.rest)
                  (empty_tag-Within g.str g.rest) (omega (arith, h)))
              (λ _.
                if_intro (TagWithin n) (not (g.stop == b'>'))
                  (λ _. with_fields-Within n read r g.str fields (
                    FieldsWithin-le (length g.rest) n fields
                      (read_fields-Within (suc (length g.rest)) [] g.rest (omega arith))
                      (omega (arith, h))))
                  (λ _. read_body-Within n read r g.str [] g.rest h))))

abbrev LeftBehind : ℕ → Option (ℕ × Bytes) → Type 0
LeftBehind n none = Unit
LeftBehind n (some (c, s)) = length s < n

LeftBehind-le : (m n : ℕ) (o : Option (ℕ × Bytes)) → LeftBehind m o → m ≤ n → LeftBehind n o
LeftBehind-le m n none h l = tt
LeftBehind-le m n (some (c, s)) h l = omega (h, l, arith)

skip_spaces-LeftBehind : (s : Bytes) → LeftBehind (length s) (skip_spaces s)
unfolding skip_spaces
skip_spaces-LeftBehind [] = tt
skip_spaces-LeftBehind (c ∷ s) =
    if_intro (LeftBehind (suc (length s))) (is_space c)
      (λ _.
        LeftBehind-le (length s) (suc (length s)) (skip_spaces s) (skip_spaces-LeftBehind s)
          (omega arith))
      (λ _. omega arith)

start_tag-Within :
    (n : ℕ) (read : Bytes → Tag) (o : Option (ℕ × Bytes))
    → Reads n read
    → LeftBehind n o
    → TagWithin n (start_tag read o)
unfolding start_tag TagWithin
start_tag-Within n read none r h = tt
start_tag-Within n read (some (c, s)) r h =
    if_intro (TagWithin n) (c == b'>' || c == 0) (λ _. tt)
      (λ _.
        named_tag-Within n read (read_grow tag_stops (buffer (c ∷ [])) s) r
          (omega (arith, h, read_grow-le tag_stops (buffer (c ∷ [])) s)))

-- The reader of a tag ends with fuel for more than the bytes of the file, and what it leaves of the
-- file behind a tag is shorter than the file.
pub read_tag-Within :
    (fuel : ℕ) (s : Bytes) → length s < fuel → TagWithin (length s) (read_tag fuel s)
unfolding read_tag Reads
read_tag-Within zero s h = absurd (omega (arith, h))
read_tag-Within (suc fuel) s h =
    let reads : Reads (length s) (read_tag fuel) =
      λ t l. read_tag-Within fuel t (omega (arith, h, l)) in
    start_tag-Within (length s) (read_tag fuel) (skip_spaces s) reads (skip_spaces-LeftBehind s)

-- Not out of fuel.
unfoldable pub IsRead : Parsed → Type 0
IsRead parse_fuel = ⊥
IsRead null = Unit
IsRead (queue q) = Unit

add_tag-IsRead :
    (n : ℕ) (k : Objects → Option Bytes → Parsed) (rval : Objects) (t : Tag)
    → ((q : Objects) (o : Option Bytes) → 0 < n → Left n o → IsRead (k q o))
    → TagWithin n t
    → IsRead (add_tag k rval t)
unfolding add_tag TagWithin IsRead
add_tag-IsRead n k rval tag_fuel ends h = h
add_tag-IsRead n k rval no_tag ends h = tt
add_tag-IsRead n k rval (tag obj s) ends h =
    ends (insert_object rval obj) (skip_for (codes "<") s) (omega (arith, h)) (
      Left-le (length s) n (skip_for (codes "<") s) (skip_for-Left (codes "<") s)
        (omega (arith, h)))

parse_tags-IsRead :
    (fuel : ℕ) (rval : Objects) (o : Option Bytes)
    → 0 < fuel
    → Left fuel o
    → IsRead (parse_tags fuel rval o)
unfolding parse_tags IsRead
parse_tags-IsRead zero rval o p h = absurd (omega (arith, p))
parse_tags-IsRead (suc fuel) rval none p h = tt
parse_tags-IsRead (suc fuel) rval (some s) p h =
    add_tag-IsRead (length s) (parse_tags fuel) rval (read_tag (suc (length s)) s)
      (λ q o some_left l.
        parse_tags-IsRead fuel q o (omega (arith, some_left, h))
          (Left-le (length s) fuel o l (omega (arith, h))))
      (read_tag-Within (suc (length s)) s (omega arith))

parse_from-IsRead : (o : Option Bytes) → IsRead (parse_from o)
unfolding parse_from IsRead
parse_from-IsRead none = tt
parse_from-IsRead (some s) =
    parse_tags-IsRead (suc (length s)) nil (some s) (omega arith) (omega arith)

-- Whatever the bytes of a file are, the reader comes to an end with the fuel that it is given: its
-- result is NULL or a queue of objects.
pub d4x_xml_parse_fd-IsRead : (s : Bytes) → IsRead (d4x_xml_parse_fd s)
unfolding d4x_xml_parse_fd
d4x_xml_parse_fd-IsRead s = parse_from-IsRead (skip_for (codes "<") s)
