-- ===== src/Xml/RoundTrip.antt =====
-- What d4x_xml_parse_fd reads of the file that d4x_xml_out prints.
use d4x.Prelude.{
  ℕ, zero, suc, ◌≤◌, some, [], ◌∷◌, ◌++◌, Bytes, codes, length, ◌≡◌, refl, ap, ◌∙◌, arith,
}
use d4x.Xml.{Object, Objects, nil, cons, insert_object, index, skip_for}
use d4x.Xml.Printed.{
  spaces, print_rec, print_objects, print_rec-tag_text, d4x_xml_out, tag_text, size_all,
  size-tag_text, size-pos, size_all-print_objects,
}
use d4x.Xml.Tags.{queue, add_tag, parse_tags, parse_from, d4x_xml_parse_fd}
use d4x.Xml.Tame.{AllTame, IsTame, reread, reread_all, insert_all, insert_all-nil}
use d4x.Xml.Reread.{read_tag-tag_text}

-- The first `<` behind spaces.
skip_for-spaces : (d : ℕ) (s : Bytes) → skip_for (codes "<") (spaces d ++ (b'<' ∷ s)) ≡ some s
unfolding skip_for index spaces
skip_for-spaces zero s = refl
skip_for-spaces (suc d) s = skip_for-spaces d s

skip_for-line : (s : Bytes) → skip_for (codes "<") (10 ∷ s) ≡ skip_for (codes "<") s
unfolding skip_for index
skip_for-line s = refl

module _ (null_text : Bytes) where
  skip_for-print_rec :
      (o : Object) (next : Bytes)
      → skip_for (codes "<") (print_rec null_text 0 o next)
        ≡ some (tag_text null_text 0 o (10 ∷ next))
  skip_for-print_rec o next =
      ap (skip_for (codes "<")) (print_rec-tag_text null_text 0 o next)
      ∙ skip_for-spaces 0 (tag_text null_text 0 o (10 ∷ next))

  parse_tags-tag_text :
      (fuel : ℕ) (acc : Objects) (o : Object) (next : Bytes)
      → IsTame o
      → parse_tags (suc fuel) acc (some (tag_text null_text 0 o (10 ∷ next)))
        ≡ parse_tags fuel (insert_object acc (reread null_text 0 o)) (skip_for (codes "<") next)
  unfolding parse_tags add_tag
  parse_tags-tag_text fuel acc o next h =
      let s = tag_text null_text 0 o (10 ∷ next) in
      ap (add_tag (parse_tags fuel) acc) (
        read_tag-tag_text null_text o (suc (length s)) 0 (10 ∷ next) h
          (omega (arith, size-tag_text null_text 0 o (10 ∷ next))))
      ∙ ap (parse_tags fuel (insert_object acc (reread null_text 0 o))) (skip_for-line next)

  parse_tags-print_objects :
      (os : Objects) (fuel : ℕ) (acc : Objects)
      → AllTame os
      → size_all os ≤ fuel
      → parse_tags fuel acc (skip_for (codes "<") (print_objects null_text 0 os []))
        ≡ queue (insert_all acc (reread_all null_text 0 os))
  unfolding AllTame size_all print_objects parse_tags insert_all reread_all skip_for
  parse_tags-print_objects nil zero acc h l = absurd (omega (arith, l))
  parse_tags-print_objects nil (suc fuel) acc h l = refl
  parse_tags-print_objects (cons o os) zero acc h l = absurd (omega (arith, l, size-pos o))
  parse_tags-print_objects (cons o os) (suc fuel) acc (h, hs) l =
      let others = print_objects null_text 0 os [] in
      ap (parse_tags (suc fuel) acc) (skip_for-print_rec o others)
      ∙ parse_tags-tag_text fuel acc o others h
      ∙ parse_tags-print_objects os fuel (insert_object acc (reread null_text 0 o)) hs
          (omega (arith, l, size-pos o))

  -- A queue of at least one object, in which every object has names that the reader takes as names,
  -- values without the bytes that it takes for something else, and no NULL for a value, is read from
  -- what is printed of it with all its objects, names and fields, in their order. The values of the
  -- objects have got the white space that is printed around them.
  pub d4x_xml_parse_fd-d4x_xml_out :
      (o : Object) (os : Objects)
      → AllTame (cons o os)
      → d4x_xml_parse_fd (d4x_xml_out null_text (cons o os))
        ≡ queue (reread_all null_text 0 (cons o os))
  unfolding d4x_xml_parse_fd d4x_xml_out print_objects parse_from AllTame reread_all insert_all
  d4x_xml_parse_fd-d4x_xml_out o os (h, hs) =
      let others = print_objects null_text 0 os [] in
      let s = tag_text null_text 0 o (10 ∷ others) in
      let first = reread null_text 0 o in
      ap parse_from (skip_for-print_rec o others)
      ∙ parse_tags-tag_text (length s) nil o others h
      ∙ parse_tags-print_objects os (length s) (insert_object nil first) hs (
          omega (
            arith,
            size-tag_text null_text 0 o (10 ∷ others),
            size-pos o,
            size_all-print_objects null_text 0 os [],
          ))
      ∙ ap queue (insert_all-nil (cons first (reread_all null_text 0 os)))
