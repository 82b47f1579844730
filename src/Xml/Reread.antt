-- ===== src/Xml/Reread.antt =====
-- What the reader makes of a printed object.
use d4x.Prelude.{
  ℕ, zero, suc, ◌≤◌, ◌≢◌, false, none, some, List, [], ◌∷◌, ◌++◌, Bytes, length, All, All-append,
  ◌≡◌, refl, sym, ap, ◌∙◌, append_assoc, arith,
}
use d4x.Xml.{Field, Object, object, Objects, nil, cons, insert_object, index}
use d4x.Xml.Printed.{
  spaces, print_fields, print_rec, print_objects, print_rec-tag_text, tag_text, size, size_all,
  size-pos, size_all-print_objects,
}
use d4x.Xml.Tags.{
  Tag, tag, body, is_end, name_of, add_child, read_obj_body, with_body, read_body, read_tag,
  tag_stops,
}
use d4x.Xml.Tame.{
  IsText, IsTame, AllTame, gaps, reread, reread_all, insert_all, insert_all-nil, NoEntity,
  IsText-Free, line-IsText, read_obj_body-text, read_tag-end, is_end-IsName, read_tag-name,
  named_tag-fields,
}

module _ (null_text : Bytes) where
  -- The file behind the objects of an object.
  abbrev ending : Bytes → ℕ → Bytes → Bytes
  ending v e next = v ++ (10 ∷ (spaces e ++ (b'<' ∷ b'/' ∷ b'>' ∷ next)))

  abbrev last_text : Bytes → ℕ → Bytes
  last_text v e = 10 ∷ (v ++ (10 ∷ spaces e))

  ending-last_text :
      (v : Bytes) (e : ℕ) (next : Bytes)
      → 10 ∷ ending v e next ≡ last_text v e ++ (b'<' ∷ b'/' ∷ b'>' ∷ next)
  ending-last_text v e next =
      ap (λ r. 10 ∷ r) (sym (append_assoc v (10 ∷ spaces e) (b'<' ∷ b'/' ∷ b'>' ∷ next)))

  read_last :
      (f m : ℕ) (w v : Bytes) (acc : Objects) (e : ℕ) (next : Bytes)
      → All IsText v
      → NoEntity w
      → read_obj_body (suc m) (read_tag (suc f)) w acc (10 ∷ ending v e next)
        ≡ body (w ++ last_text v e) acc next
  unfolding add_child is_end name_of IsText index
  read_last f m w v acc e next h k =
      let text : All IsText (last_text v e) = (
        (refl, λ c. absurd (omega (c, arith))),
        All-append IsText v (10 ∷ spaces e) h (line-IsText e),
      ) in
      ap (read_obj_body (suc m) (read_tag (suc f)) w acc) (ending-last_text v e next)
      ∙ read_obj_body-text m (read_tag (suc f)) w (last_text v e) acc (b'/' ∷ b'>' ∷ next) text k
      ∙ rw (read_tag-end f next) refl

  -- One object in an object.
  read_one :
      (f m : ℕ) (w : Bytes) (acc : Objects) (d : ℕ) (o : Object) (next : Bytes)
      → NoEntity w
      → is_end (name_of (reread null_text d o)) ≡ false
      → read_tag f (tag_text null_text d o (10 ∷ next)) ≡ tag (reread null_text d o) (10 ∷ next)
      → read_obj_body (suc m) (read_tag f) w acc (10 ∷ print_rec null_text d o next)
        ≡ read_obj_body m
            (read_tag f)
            (w ++ (10 ∷ spaces d))
            (insert_object acc (reread null_text d o))
            (10 ∷ next)
  unfolding add_child
  read_one f m w acc d o next k end r =
      ap (λ s. read_obj_body (suc m) (read_tag f) w acc (10 ∷ s))
        (print_rec-tag_text null_text d o next)
      ∙ read_obj_body-text m (read_tag f) w (10 ∷ spaces d) acc (tag_text null_text d o (10 ∷ next))
          (line-IsText d) k
      ∙ rw (r, end) refl

  reread-not_end : (d : ℕ) (o : Object) → IsTame o → is_end (name_of (reread null_text d o)) ≡ false
  unfolding reread name_of IsTame
  reread-not_end d (object n v fs os) h = is_end-IsName tag_stops n (h.0)

  first_not_end : (c : ℕ) (n : Bytes) → c ≢ b'/' → is_end (c ∷ n) ≡ false
  unfolding is_end
  first_not_end c n h = ground arith

  read_body-open :
      (read : Bytes → Tag) (name : Bytes) (fields : List Field) (s : Bytes)
      → is_end name ≡ false
      → read_body read name fields s
        ≡ with_body name fields (read_obj_body (suc (length s)) read [] nil s)
  unfolding read_body
  read_body-open read name fields s h = rw h refl

  with_body-nil :
      (name : Bytes) (fields : List Field) (v : Bytes) (os : Objects) (next : Bytes)
      → with_body name fields (body v (insert_all nil os) next)
        ≡ tag (object name (some v) fields os) next
  unfolding with_body
  with_body-nil name fields v os next = rw (insert_all-nil os) refl

  longer : (w : Bytes) (d : ℕ) → NoEntity w → NoEntity (w ++ (10 ∷ spaces d))
  unfolding NoEntity
  longer w d k =
      All-append (λ c. c ≢ b'&') w (10 ∷ spaces d) k (IsText-Free (10 ∷ spaces d) (line-IsText d)).1

  gather :
      (w : Bytes) (d : ℕ) (g x : Bytes)
      → (w ++ (10 ∷ spaces d)) ++ (10 ∷ (g ++ x)) ≡ w ++ (10 ∷ ((spaces d ++ (10 ∷ g)) ++ x))
  gather w d g x =
      append_assoc w (10 ∷ spaces d) (10 ∷ (g ++ x))
      ∙ ap (λ r. w ++ (10 ∷ r)) (sym (append_assoc (spaces d) (10 ∷ g) x))

  mutual
    unfolding IsTame size reread gaps print_rec tag_text insert_all NoEntity

    pub read_tag-tag_text :
        (o : Object) (f d : ℕ) (next : Bytes)
        → IsTame o
        → size o ≤ f
        → read_tag f (tag_text null_text d o next) ≡ tag (reread null_text d o) next
    read_tag-tag_text (object n v fs os) zero d next h l = absurd (omega (arith, l))
    read_tag-tag_text (object n none fs os) (suc f) d next (a, b, t, p, kids) l = absurd t
    read_tag-tag_text (object [] (some v) fs os) (suc f) d next (a, b, t, p, kids) l = absurd a
    read_tag-tag_text (object (c ∷ n) (some v) fs os) (suc f) d next
          ((s, i, j, k, free), b, t, p, kids) l =
        let inner = 10 ∷ print_objects null_text (suc d) os (ending v d next) in
        let slash : is_end (c ∷ n) ≡ false = first_not_end c n i in
        let read_inside =
          read_obj_body-print_objects os f (suc (length inner)) (suc d) d [] v nil next kids t tt
            (omega (arith, l))
            (omega (arith, size_all-print_objects null_text (suc d) os (ending v d next))) in
        read_tag-name f c (n ++ print_fields fs (b'>' ∷ inner)) s j k
        ∙ named_tag-fields (read_tag f) c n fs inner b free p
        ∙ read_body-open (read_tag f) (c ∷ n) fs inner slash
        ∙ ap (with_body (c ∷ n) fs) read_inside
        ∙ with_body-nil (c ∷ n) fs (10 ∷ (gaps (suc d) os ++ (v ++ (10 ∷ spaces d))))
            (reread_all null_text (suc d) os) next

    read_obj_body-print_objects :
        (os : Objects) (f m d e : ℕ) (w v : Bytes) (acc : Objects) (next : Bytes)
        → AllTame os
        → All IsText v
        → NoEntity w
        → size_all os ≤ f
        → size_all os ≤ m
        → read_obj_body m (read_tag f) w acc (10 ∷ print_objects null_text d os (ending v e next))
          ≡ body
              (w ++ (10 ∷ (gaps d os ++ (v ++ (10 ∷ spaces e)))))
              (insert_all acc (reread_all null_text d os))
              next
    read_obj_body-print_objects nil (suc f) (suc m) d e w v acc next h t k lf lm =
        read_last f m w v acc e next t k
    read_obj_body-print_objects nil zero m d e w v acc next h t k lf lm = absurd (omega (arith, lf))
    read_obj_body-print_objects nil (suc f) zero d e w v acc next h t k lf lm =
        absurd (omega (arith, lm))
    read_obj_body-print_objects (cons o os) f zero d e w v acc next (ho, hos) t k lf lm =
        absurd (omega (arith, lm, size-pos o))
    read_obj_body-print_objects (cons o os) f (suc m) d e w v acc next (ho, hos) t k lf lm =
        let others = print_objects null_text d os (ending v e next) in
        read_one f m w acc d o others k (reread-not_end d o ho)
          (read_tag-tag_text o f d (10 ∷ others) ho (omega (arith, lf)))
        ∙ read_obj_body-print_objects os f m d e (w ++ (10 ∷ spaces d)) v
            (insert_object acc (reread null_text d o)) next hos t (longer w d k) (omega (arith, lf))
            (omega (arith, lm, size-pos o))
        ∙ ap
            (λ r.
              body r
                (insert_all (insert_object acc (reread null_text d o)) (reread_all null_text d os))
                next)
            (gather w d (gaps d os) (v ++ (10 ∷ spaces e)))
