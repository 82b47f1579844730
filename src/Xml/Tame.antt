-- ===== src/Xml/Tame.antt =====
-- The objects that can be printed and read again, and what the parts of the reader make of the parts
-- of what is printed.
use d4x.Prelude.{
  ℕ, zero, suc, ◌≢◌, false, Option, none, some, List, [], ◌∷◌, ◌++◌, Bytes, codes, length, All,
  All-append, ◌≡◌, refl, ap, ◌∙◌, append-nil, arith,
}
use d4x.Strings.{begin_string, equal_first, equal_first_by, same_first}
use d4x.Strings.Replace.{xml_replace_entities_none}
use d4x.Xml.{
  Field, Object, object, Objects, nil, cons, insert_object, is_space, index, buffer, held, grown,
  read_grow,
}
use d4x.Xml.Printed.{spaces, print_fields, print_field, shown}
use d4x.Xml.Tags.{
  Tag, tag, is_end, add_child, read_child, read_obj_body, skip_spaces, read_body, with_fields,
  named_tag, start_tag, read_tag, tag_stops, text_stops, read_fields,
}
use d4x.Xml.Texts.{
  Free, IsName, IsPrintable, read_grow-Free, read_fields-print_field, print_field-double,
}

-- A byte of the text of an object that stands for itself.
unfoldable pub IsText : ℕ → Type 0
IsText c = (index text_stops c ≡ false) × (c ≢ b'&')

unfoldable pub HasText : Option Bytes → Type 0
unfolding IsText
HasText none = ⊥
HasText (some text) = All IsText text

-- An object that is not NULL in its value, whose names can be read, and whose values have no byte
-- that the reader or the replacement of entities takes for something else.
unfoldable mutual
  unfolding IsName IsPrintable HasText

  pub IsTame : Object → Type 0
  IsTame (object name value fields objects) =
      IsName tag_stops name
      × (begin_string name (codes "!--") ≡ false)
      × HasText value
      × All IsPrintable fields
      × AllTame objects

  pub AllTame : Objects → Type 0
  AllTame nil = Unit
  AllTame (cons obj rest) = IsTame obj × AllTame rest

-- The white space in front of and between the objects that are printed in an object.
unfoldable pub gaps : ℕ → Objects → Bytes
unfolding spaces
gaps depth nil = []
gaps depth (cons obj rest) = spaces depth ++ (10 ∷ gaps depth rest)

-- The objects that are read for those that were printed: the value has in front the white space that
-- is around the objects in it, and behind the end of its line and the spaces in front of `</>`.
unfoldable mutual
  unfolding gaps spaces

  pub reread : Bytes → ℕ → Object → Object
  reread null_text depth (object name value fields objects) =
      object name
        (some (10 ∷ (gaps (suc depth) objects ++ (shown null_text value ++ (10 ∷ spaces depth)))))
        fields (reread_all null_text (suc depth) objects)

  pub reread_all : Bytes → ℕ → Objects → Objects
  reread_all null_text depth nil = nil
  reread_all null_text depth (cons obj rest) =
      cons (reread null_text depth obj) (reread_all null_text depth rest)

-- insert_object of one after the other.
unfoldable pub insert_all : Objects → Objects → Objects
insert_all os nil = os
insert_all os (cons obj rest) = insert_all (insert_object os obj) rest

insert_all-cons :
    (a : Object) (os rest : Objects) → insert_all (cons a os) rest ≡ cons a (insert_all os rest)
unfolding insert_all insert_object
insert_all-cons a os nil = refl
insert_all-cons a os (cons obj rest) = insert_all-cons a (insert_object os obj) rest

pub insert_all-nil : (os : Objects) → insert_all nil os ≡ os
unfolding insert_all insert_object
insert_all-nil nil = refl
insert_all-nil (cons obj rest) = insert_all-cons obj nil rest ∙ ap (cons obj) (insert_all-nil rest)

unfoldable pub NoEntity : Bytes → Type 0
NoEntity text = All (λ c. c ≢ b'&') text

pub IsText-Free : (text : Bytes) → All IsText text → Free text_stops text × NoEntity text
unfolding IsText Free NoEntity
IsText-Free [] h = (tt, tt)
IsText-Free (c ∷ text) ((h, k), hs) =
    let (free, none_there) = IsText-Free text hs in ((h, free), (k, none_there))

spaces-IsText : (d : ℕ) → All IsText (spaces d)
unfolding spaces IsText index
spaces-IsText zero = tt
spaces-IsText (suc d) = ((refl, λ e. absurd (omega (e, arith))), spaces-IsText d)

pub line-IsText : (d : ℕ) → All IsText (10 ∷ spaces d)
unfolding IsText index
line-IsText d = ((refl, λ e. absurd (omega (e, arith))), spaces-IsText d)

-- A text in an object, up to the next `<`.
pub read_obj_body-text :
    (m : ℕ) (read : Bytes → Tag) (w text : Bytes) (acc : Objects) (s : Bytes)
    → All IsText text
    → NoEntity w
    → read_obj_body (suc m) read w acc (text ++ (b'<' ∷ s))
      ≡ add_child (read_obj_body m read) (w ++ text) acc (read s)
unfolding read_obj_body read_child buffer held grown NoEntity
read_obj_body-text m read w text acc s h k =
    let (free, none_there) = IsText-Free text h in
    rw
      (
        read_grow-Free text_stops (buffer w) text b'<' s free (unfold index in refl),
        append-nil w,
        xml_replace_entities_none (w ++ text) (All-append (λ c. c ≢ b'&') w text k none_there),
      )
      refl

-- `</>` behind its `<`.
pub read_tag-end :
    (f : ℕ) (next : Bytes)
    → read_tag (suc f) (b'/' ∷ b'>' ∷ next) ≡ tag (object (b'/' ∷ []) none [] nil) next
unfolding read_tag skip_spaces is_space start_tag named_tag read_grow index buffer held grown
    begin_string equal_first equal_first_by same_first read_body is_end
read_tag-end f next = refl

pub is_end-IsName : (stops name : Bytes) → IsName stops name → is_end name ≡ false
unfolding IsName is_end
is_end-IsName stops [] h = absurd h
is_end-IsName stops (c ∷ name) h = ground (arith, h.1)

pub read_tag-name :
    (f c : ℕ) (s : Bytes)
    → is_space c ≡ false
    → c ≢ b'>'
    → c ≢ 0
    → read_tag (suc f) (c ∷ s) ≡ named_tag (read_tag f) (read_grow tag_stops (buffer (c ∷ [])) s)
unfolding read_tag skip_spaces start_tag
read_tag-name f c s h i j = ground arith

named_tag-close :
    (read : Bytes → Tag) (name s : Bytes)
    → begin_string name (codes "!--") ≡ false
    → named_tag read (grown name b'>' s) ≡ read_body read name [] s
unfolding named_tag grown
named_tag-close read name s b = rw b refl

named_tag-space :
    (read : Bytes → Tag) (name s : Bytes)
    → begin_string name (codes "!--") ≡ false
    → named_tag read (grown name b' ' s) ≡ with_fields read name (read_fields (suc (length s)) [] s)
unfolding named_tag grown
named_tag-space read name s b = rw b refl

pub named_tag-fields :
    (read : Bytes → Tag) (c : ℕ) (text : Bytes) (fields : List Field) (inner : Bytes)
    → begin_string (c ∷ text) (codes "!--") ≡ false
    → Free tag_stops text
    → All IsPrintable fields
    → named_tag read
        (read_grow tag_stops (buffer (c ∷ [])) (text ++ print_fields fields (b'>' ∷ inner)))
      ≡ read_body read (c ∷ text) fields inner
unfolding print_fields with_fields held buffer index
named_tag-fields read c text [] inner b free h =
    ap (named_tag read) (read_grow-Free tag_stops (buffer (c ∷ [])) text b'>' inner free refl)
    ∙ named_tag-close read (c ∷ text) inner b
named_tag-fields read c text (f ∷ fields) inner b free (h, hs) =
    let behind = print_field f (print_fields fields (b'>' ∷ inner)) in
    ap (named_tag read) (read_grow-Free tag_stops (buffer (c ∷ [])) text b' ' behind free refl)
    ∙ named_tag-space read (c ∷ text) behind b
    ∙ ap (with_fields read (c ∷ text)) (
        read_fields-print_field (suc (length behind)) f fields inner h hs
          (print_field-double f fields inner))
