-- ===== src/Xml/Ends.antt =====
-- The fuel of the XML reader is enough, since each of its loops reads on.
use d4x.Prelude.{
  ℕ, zero, suc, ◌≤◌, ◌<◌, Bool, true, false, ◌||◌, Option, none, some, List, [], ◌∷◌, ◌++◌, ◌==◌,
  ltb, if◌then◌else◌, if_intro, Bytes, length, take, drop, arith,
}
use d4x.Strings.Case.{equal}
use d4x.Strings.Replace.{xml_replace_entities}
use d4x.Xml.{
  Field, is_space, index, skip_for, Buffer, buffer, put, Grown, grown, read_grow, read_value,
  unescape, slide, skip_for_str,
}
use d4x.Xml.Tags.{
  Fields, fields_fuel, bad_fields, open_tag, closed_tag, after_slash, find_equals, find_quote,
  quoted, assigned, field_value, add_field, named_field, first_byte, field_stops, read_fields,
}

-- Is less than so many bytes of the file left behind the result?
abbrev pub Left : ℕ → Option Bytes → Type 0
Left n none = Unit
Left n (some s) = length s < n

abbrev LeftValue : ℕ → Option (Bytes × Bytes) → Type 0
LeftValue n none = Unit
LeftValue n (some (v, s)) = length s < n

pub Left-le : (m n : ℕ) (o : Option Bytes) → Left m o → m ≤ n → Left n o
Left-le m n none l h = tt
Left-le m n (some s) l h = omega (l, h, arith)

pub skip_for-Left : (b s : Bytes) → Left (length s) (skip_for b s)
unfolding skip_for
skip_for-Left b [] = tt
skip_for-Left b (c ∷ s) =
    if_intro (Left (suc (length s))) (index b c) (λ _. omega arith)
      (λ _. Left-le (length s) (suc (length s)) (skip_for b s) (skip_for-Left b s) (omega arith))

pub read_grow-le :
    (stops : Bytes) (b : Buffer) (s : Bytes) → length (read_grow stops b s).rest ≤ length s
unfolding read_grow grown
read_grow-le stops b [] = omega arith
read_grow-le stops b (c ∷ s) =
    if_intro (λ (g : Grown). length g.rest ≤ suc (length s)) (index stops c) (λ _. omega arith)
      (λ _. omega (arith, read_grow-le stops (put c b) s))

LeftValue-le : (m n : ℕ) (o : Option (Bytes × Bytes)) → LeftValue m o → m ≤ n → LeftValue n o
LeftValue-le m n none l h = tt
LeftValue-le m n (some (v, s)) l h = omega (l, h, arith)

-- What is left behind a value that was read further on.
one_more :
    (e : Bool) (b : Buffer) (s : Bytes)
    → LeftValue (length s) (read_value e b s)
    → LeftValue (suc (length s)) (read_value e b s)
one_more e b s h = LeftValue-le (length s) (suc (length s)) (read_value e b s) h (omega arith)

read_value-Left : (e : Bool) (b : Buffer) (s : Bytes) → LeftValue (length s) (read_value e b s)
unfolding read_value
read_value-Left e b [] = tt
read_value-Left true b (c ∷ s) =
    if_intro (LeftValue (suc (length s))) (ltb c b' ') (λ _. tt)
      (λ _. one_more false (put (unescape c) b) s (read_value-Left false (put (unescape c) b) s))
read_value-Left false b (c ∷ s) =
    if_intro (LeftValue (suc (length s))) (ltb c b' ') (λ _. tt)
      (λ _.
        if_intro (LeftValue (suc (length s))) (c == b'\\')
          (λ _. one_more true b s (read_value-Left true b s))
          (λ _.
            if_intro (LeftValue (suc (length s))) (c == b'"') (λ _. omega arith)
              (λ _. one_more false (put c b) s (read_value-Left false (put c b) s))))

slide-le : (str buf s : Bytes) → length (slide str buf s) ≤ length s
unfolding slide
slide-le str buf [] = omega arith
slide-le str buf (c ∷ s) =
    let more = slide str (drop 1 buf ++ c ∷ []) s in
    let shorter : length more ≤ suc (length s) =
      omega (arith, slide-le str (drop 1 buf ++ c ∷ []) s) in
    if_intro (λ r. length r ≤ suc (length s)) (equal str buf) {x = c ∷ s} (λ _. omega arith)
      (λ _. shorter)

length-drop_le : (k : ℕ) (s : Bytes) → length (drop k s) ≤ length s
length-drop_le zero s = omega arith
length-drop_le (suc k) [] = omega arith
length-drop_le (suc k) (c ∷ s) = omega (arith, length-drop_le k s)

pub skip_for_str-le : (str s : Bytes) → length (skip_for_str str s) ≤ length s
unfolding skip_for_str
skip_for_str-le str s =
    let behind = slide str (take (length str) s) (drop (length str) s) in
    let shorter : length behind ≤ length s = omega (
      arith,
      slide-le str (take (length str) s) (drop (length str) s),
      length-drop_le (length str) s,
    ) in
    if_intro (λ r. length r ≤ length s) (ltb (length s) (length str)) {x = []} (λ _. omega arith)
      (λ _. shorter)

find_equals-Left : (s : Bytes) → Left (length s) (find_equals s)
unfolding find_equals
find_equals-Left [] = tt
find_equals-Left (c ∷ s) =
    if_intro (Left (suc (length s))) (c == b'=') (λ _. omega arith)
      (λ _.
        if_intro (Left (suc (length s))) (is_space c)
          (λ _.
            Left-le (length s) (suc (length s)) (find_equals s) (find_equals-Left s) (omega arith))
          (λ _. tt))

find_quote-Left : (s : Bytes) → Left (length s) (find_quote s)
unfolding find_quote
find_quote-Left [] = tt
find_quote-Left (c ∷ s) =
    if_intro (Left (suc (length s))) (is_space c)
      (λ _. Left-le (length s) (suc (length s)) (find_quote s) (find_quote-Left s) (omega arith))
      (λ _. if_intro (Left (suc (length s))) (c == b'"') (λ _. omega arith) (λ _. tt))

quoted-Left : (n : ℕ) (o : Option Bytes) → Left n o → LeftValue n (quoted o)
unfolding quoted
quoted-Left n none h = tt
quoted-Left n (some s) h =
    LeftValue-le (length s) n (read_value false (buffer []) s) (read_value-Left false (buffer []) s)
      (omega (arith, h))

assigned-Left : (n : ℕ) (o : Option Bytes) → Left n o → LeftValue n (assigned o)
unfolding assigned
assigned-Left n none h = tt
assigned-Left n (some s) h =
    quoted-Left n (find_quote s)
      (Left-le (length s) n (find_quote s) (find_quote-Left s) (omega (arith, h)))

field_value-Left : (g : Grown) → LeftValue (suc (length g.rest)) (field_value g)
unfolding field_value
field_value-Left g =
    assigned-Left (suc (length g.rest)) (if g.stop == b'=' then some g.rest else find_equals g.rest)
      (if_intro (Left (suc (length g.rest))) (g.stop == b'=') (λ _. omega arith)
        (λ _.
          Left-le (length g.rest) (suc (length g.rest)) (find_equals g.rest)
            (find_equals-Left g.rest) (omega arith)))

-- The fuel was enough, and less than so many bytes are left.
abbrev pub FieldsWithin : ℕ → Fields → Type 0
FieldsWithin n fields_fuel = ⊥
FieldsWithin n bad_fields = Unit
FieldsWithin n (open_tag fields s) = length s < n
FieldsWithin n (closed_tag fields s) = length s < n

pub FieldsWithin-le : (m n : ℕ) (r : Fields) → FieldsWithin m r → m ≤ n → FieldsWithin n r
FieldsWithin-le m n fields_fuel h l = h
FieldsWithin-le m n bad_fields h l = tt
FieldsWithin-le m n (open_tag fields s) h l = omega (h, l, arith)
FieldsWithin-le m n (closed_tag fields s) h l = omega (h, l, arith)

after_slash-Within :
    (fields : List Field) (s : Bytes) → FieldsWithin (suc (length s)) (after_slash fields s)
unfolding after_slash
after_slash-Within fields [] = tt
after_slash-Within fields (c ∷ s) =
    if_intro (FieldsWithin (suc (suc (length s)))) (c == b'>') (λ _. omega arith) (λ _. tt)

module _ (n : ℕ) (k : List Field → Bytes → Fields)
    (ends : (fields : List Field) (s : Bytes) → length s < n → FieldsWithin n (k fields s)) where
  add_field-Within :
      (fields : List Field) (name : Bytes) (o : Option (Bytes × Bytes))
      → LeftValue n o
      → FieldsWithin n (add_field k fields name o)
  unfolding add_field
  add_field-Within fields name none h = tt
  add_field-Within fields name (some (value, s)) h =
      ends (fields ++ record { name = name; value = xml_replace_entities value } ∷ []) s h

  named_field-Within :
      (fields : List Field) (g : Grown)
      → length g.rest < n
      → FieldsWithin n (named_field k fields g)
  unfolding named_field
  named_field-Within fields g h =
      if_intro (FieldsWithin n) (g.stop == b'>') (λ _. h)
        (λ _.
          if_intro (FieldsWithin n) (g.stop == 0 || g.stop == b'<') (λ _. tt)
            (λ _. add_field-Within fields g.str (field_value g) (
              LeftValue-le (suc (length g.rest)) n (field_value g) (field_value-Left g)
                (omega (arith, h)))))

pub read_fields-Within :
    (fuel : ℕ) (fields : List Field) (s : Bytes)
    → length s < fuel
    → FieldsWithin (length s) (read_fields fuel fields s)
unfolding read_fields
read_fields-Within zero fields s h = absurd (omega (arith, h))
read_fields-Within (suc fuel) fields [] h = tt
read_fields-Within (suc fuel) fields (c ∷ s) h =
    let n = suc (length s) in
    let ends : (fs : List Field) (t : Bytes)
        → length t < n
        → FieldsWithin n (read_fields fuel fs t) =
      λ fs t l.
        FieldsWithin-le (length t) n (read_fields fuel fs t)
          (read_fields-Within fuel fs t (omega (arith, l, h))) (omega (arith, l)) in
    if_intro (FieldsWithin n) (is_space c) (λ _. ends fields s (omega arith))
      (λ _.
        if_intro (FieldsWithin n) (c == b'/') (λ _. after_slash-Within fields s)
          (λ _.
            if_intro (FieldsWithin n) (c == b'>') (λ _. omega arith)
              (λ _.
                named_field-Within n (read_fields fuel) ends fields
                  (read_grow field_stops (buffer (first_byte c)) s)
                  (omega (arith, read_grow-le field_stops (buffer (first_byte c)) s)))))
