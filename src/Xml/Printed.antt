-- ===== src/Xml/Printed.antt =====
-- main/xml.cc: d4xXmlField::print, d4xXmlObject::print and print_rec, and d4x_xml_out. Each of them
-- is the text that it prints in front of what is printed next; `null_text` is what printf prints for
-- the value NULL.
use d4x.Prelude.{
  ℕ, zero, suc, ◌+◌, ◌≤◌, ◌<◌, ◌≡◌, refl, Option, none, some, List, [], ◌∷◌, ◌++◌, Bytes, length,
  length-append, arith,
}
use d4x.Xml.{Field, Object, object, Objects, nil, cons}

-- `for (i=0;i<depth;i++) printf(" ")`
unfoldable pub spaces : ℕ → Bytes
spaces zero = []
spaces (suc depth) = b' ' ∷ spaces depth

-- d4xXmlField::print
unfoldable pub print_field : Field → Bytes → Bytes
print_field f next = f.name ++ (b'=' ∷ b'"' ∷ (f.value ++ (b'"' ∷ next)))

-- The loop over the fields.
unfoldable pub print_fields : List Field → Bytes → Bytes
unfolding print_field
print_fields [] next = next
print_fields (f ∷ fields) next = b' ' ∷ print_field f (print_fields fields next)

unfoldable pub shown : Bytes → Option Bytes → Bytes
shown null_text none = null_text
shown null_text (some value) = value

-- d4xXmlObject::print
unfoldable pub print : Bytes → Object → Bytes → Bytes
unfolding print_fields shown
print null_text (object name value fields objects) next =
    b'<'
    ∷ (name
        ++ print_fields fields (b'>' ∷ 10 ∷ (shown null_text value ++ (b'<' ∷ b'/' ∷ b'>' ∷ next))))

-- d4xXmlObject::print_rec, and its loop over the objects.
unfoldable mutual
  unfolding spaces print_fields shown

  pub print_rec : Bytes → ℕ → Object → Bytes → Bytes
  print_rec null_text depth (object name value fields objects) next =
      spaces depth
      ++ (b'<'
          ∷ (name
              ++ print_fields fields (
                  b'>'
                  ∷ 10
                  ∷ print_objects null_text (suc depth) objects (
                      shown null_text value
                      ++ (10 ∷ (spaces depth ++ (b'<' ∷ b'/' ∷ b'>' ∷ 10 ∷ next)))))))

  pub print_objects : Bytes → ℕ → Objects → Bytes → Bytes
  print_objects null_text depth nil next = next
  print_objects null_text depth (cons obj rest) next =
      print_rec null_text depth obj (print_objects null_text depth rest next)

-- d4x_xml_out
unfoldable pub d4x_xml_out : Bytes → Objects → Bytes
unfolding print_rec
d4x_xml_out null_text q = print_objects null_text 0 q []

-- The text of an object behind its `<`.
unfoldable pub tag_text : Bytes → ℕ → Object → Bytes → Bytes
unfolding print_rec
tag_text null_text depth (object name value fields objects) next =
    name
    ++ print_fields fields (
        b'>'
        ∷ 10
        ∷ print_objects null_text (suc depth) objects
            (shown null_text value ++ (10 ∷ (spaces depth ++ (b'<' ∷ b'/' ∷ b'>' ∷ next)))))

-- The calls of the reader of tags that an object takes, and a list with its end.
unfoldable mutual
  pub size : Object → ℕ
  size (object name value fields objects) = suc (size_all objects)

  pub size_all : Objects → ℕ
  size_all nil = 1
  size_all (cons obj rest) = size obj + size_all rest

pub size-pos : (o : Object) → 0 < size o
unfolding size
size-pos (object n v fs os) = omega arith

print_fields-length :
    (fields : List Field) (next : Bytes) → length next ≤ length (print_fields fields next)
unfolding print_fields print_field
print_fields-length [] next = omega arith
print_fields-length (f ∷ fields) next = omega (
  arith,
  length-append f.name (b'=' ∷ b'"' ∷ (f.value ++ (b'"' ∷ print_fields fields next))),
  length-append f.value (b'"' ∷ print_fields fields next),
  print_fields-length fields next,
)

mutual
  unfolding print_rec size

  size-print_rec :
      (null_text : Bytes) (d : ℕ) (o : Object) (next : Bytes)
      → size o + length next ≤ length (print_rec null_text d o next)
  size-print_rec null_text d (object n v fs os) next =
      let close = b'<' ∷ b'/' ∷ b'>' ∷ 10 ∷ next in
      let last = shown null_text v ++ (10 ∷ (spaces d ++ close)) in
      let inner = b'>' ∷ 10 ∷ print_objects null_text (suc d) os last in
      omega (
        arith,
        length-append (spaces d) (b'<' ∷ (n ++ print_fields fs inner)),
        length-append n (print_fields fs inner),
        print_fields-length fs inner,
        size_all-print_objects null_text (suc d) os last,
        length-append (shown null_text v) (10 ∷ (spaces d ++ close)),
        length-append (spaces d) close,
      )

  pub size_all-print_objects :
      (null_text : Bytes) (d : ℕ) (os : Objects) (next : Bytes)
      → size_all os + length next ≤ suc (length (print_objects null_text d os next))
  size_all-print_objects null_text d nil next = omega arith
  size_all-print_objects null_text d (cons o os) next = omega (
    arith,
    size-print_rec null_text d o (print_objects null_text d os next),
    size_all-print_objects null_text d os next,
  )

-- What is printed of an object is, behind the spaces, `<`, its text and the end of the line.
pub print_rec-tag_text :
    (null_text : Bytes) (d : ℕ) (o : Object) (next : Bytes)
    → print_rec null_text d o next ≡ spaces d ++ (b'<' ∷ tag_text null_text d o (10 ∷ next))
unfolding print_rec tag_text
print_rec-tag_text null_text d (object n v fs os) next = refl

pub size-tag_text :
    (null_text : Bytes) (d : ℕ) (o : Object) (next : Bytes)
    → size o + length next ≤ suc (length (tag_text null_text d o next))
unfolding tag_text size
size-tag_text null_text d (object n v fs os) next =
    let last = shown null_text v ++ (10 ∷ (spaces d ++ (b'<' ∷ b'/' ∷ b'>' ∷ next))) in
    let close = b'<' ∷ b'/' ∷ b'>' ∷ next in
    let inner = b'>' ∷ 10 ∷ print_objects null_text (suc d) os last in
    omega (
      arith,
      length-append n (print_fields fs inner),
      print_fields-length fs inner,
      size_all-print_objects null_text (suc d) os last,
      length-append (shown null_text v) (10 ∷ (spaces d ++ close)),
      length-append (spaces d) close,
    )
