-- ===== src/Xml/Texts.antt =====
-- What the readers of names, values and fields make of a text in which they find nothing to stop at
-- but its end.
use d4x.Prelude.{
  ℕ, zero, suc, ◌+◌, ◌*◌, ◌≤◌, ◌<◌, ◌≢◌, true, false, leb, if_intro, some, List, [], ◌∷◌, ◌++◌,
  Bytes, length, length-append, All, ◌≡◌, refl, sym, ap, ◌∙◌, append-nil, append_assoc, arith,
}
use d4x.Strings.Replace.{xml_replace_entities_none}
use d4x.Xml.{Field, is_space, index, Buffer, buffer, held, put, grown, read_grow, read_value}
use d4x.Xml.Printed.{print_field, print_fields}
use d4x.Xml.Tags.{
  open_tag, named_field, add_field, field_value, assigned, quoted, find_quote, first_byte,
  field_stops, read_fields,
}

pub held-put : (c : ℕ) (b : Buffer) → held (put c b) ≡ held b ++ c ∷ []
unfolding held put buffer
held-put c b =
    let more : Buffer = record b { buf = b.buf ++ c ∷ [] } in
    if_intro (λ (x : Buffer). held x ≡ held b ++ c ∷ []) (leb 100 (length more.buf))
      (λ _. rw (append-nil (held more)) (sym (append_assoc b.str b.buf (c ∷ []))))
      (λ _. sym (append_assoc b.str b.buf (c ∷ [])))

-- No byte is one of those.
unfoldable pub Free : Bytes → Bytes → Type 0
Free stops text = All (λ c. index stops c ≡ false) text

-- d4x_xml_read_grow reads a text without its stop characters up to the first of them.
pub read_grow-Free :
    (stops : Bytes) (b : Buffer) (text : Bytes) (c : ℕ) (s : Bytes)
    → Free stops text
    → index stops c ≡ true
    → read_grow stops b (text ++ (c ∷ s)) ≡ grown (held b ++ text) c s
unfolding read_grow Free
read_grow-Free stops b [] c s h k = rw (k, append-nil (held b)) refl
read_grow-Free stops b (d ∷ text) c s (h, hs) k =
    rw
      (
        h,
        read_grow-Free stops (put d b) text c s hs k,
        held-put d b,
        append_assoc (held b) (d ∷ []) text,
      )
      refl

-- A byte of a value that stands for itself.
unfoldable pub IsPlain : ℕ → Type 0
IsPlain c = (b' ' ≤ c) × (c ≢ b'\\') × (c ≢ b'"') × (c ≢ b'&')

read_value-plain :
    (b : Buffer) (c : ℕ) (s : Bytes)
    → IsPlain c
    → read_value false b (c ∷ s) ≡ read_value false (put c b) s
unfolding read_value IsPlain
read_value-plain b c s h = ground arith

-- d4x_xml_read_value reads plain bytes up to the quote.
pub read_value-IsPlain :
    (b : Buffer) (text s : Bytes)
    → All IsPlain text
    → read_value false b (text ++ (b'"' ∷ s)) ≡ some (held b ++ text, s)
unfolding read_value
read_value-IsPlain b [] s h = rw (append-nil (held b)) refl
read_value-IsPlain b (c ∷ text) s (h, hs) =
    read_value-plain b c (text ++ (b'"' ∷ s)) h
    ∙ rw (read_value-IsPlain (put c b) text s hs, held-put c b, append_assoc (held b) (c ∷ []) text)
        refl

-- A name that the readers take as one: what it begins with is no space, no `/`, no `>` and no zero
-- byte, and none of the bytes behind is one to stop at.
unfoldable pub IsName : Bytes → Bytes → Type 0
unfolding Free
IsName stops [] = ⊥
IsName stops (c ∷ text) = (is_space c ≡ false) × (c ≢ b'/') × (c ≢ b'>') × (c ≢ 0) × Free stops text

-- A field that is read as it is printed.
unfoldable pub IsPrintable : Field → Type 0
unfolding IsName
IsPrintable f = IsName field_stops f.name × All IsPlain f.value

IsPlain-no_entity : (text : Bytes) → All IsPlain text → All (λ c. c ≢ b'&') text
unfolding IsPlain
IsPlain-no_entity [] h = tt
IsPlain-no_entity (c ∷ text) (h, hs) = (h.3, IsPlain-no_entity text hs)

read_fields-name :
    (fuel : ℕ) (acc : List Field) (c : ℕ) (s : Bytes)
    → is_space c ≡ false
    → c ≢ b'/'
    → c ≢ b'>'
    → c ≢ 0
    → read_fields (suc fuel) acc (c ∷ s)
      ≡ named_field (read_fields fuel) acc (read_grow field_stops (buffer (c ∷ [])) s)
unfolding read_fields first_byte
read_fields-name fuel acc c s h i j k = ground arith

read_fields-value :
    (fuel : ℕ) (acc : List Field) (name value next : Bytes)
    → All IsPlain value
    → named_field (read_fields fuel) acc (grown name b'=' (b'"' ∷ (value ++ (b'"' ∷ next))))
      ≡ read_fields fuel (acc ++ (record { name = name; value = value } ∷ [])) next
unfolding named_field grown field_value assigned find_quote quoted is_space add_field buffer held
read_fields-value fuel acc name value next h =
    rw
      (
        read_value-IsPlain (buffer []) value next h,
        xml_replace_entities_none value (IsPlain-no_entity value h),
      )
      refl

read_fields-named :
    (fuel : ℕ) (acc : List Field) (name value next : Bytes)
    → IsName field_stops name
    → All IsPlain value
    → read_fields (suc fuel) acc (name ++ (b'=' ∷ b'"' ∷ (value ++ (b'"' ∷ next))))
      ≡ read_fields fuel (acc ++ (record { name = name; value = value } ∷ [])) next
unfolding IsName
read_fields-named fuel acc [] value next h v = absurd h
read_fields-named fuel acc (c ∷ text) value next (s, i, j, k, free) v =
    let behind = b'"' ∷ (value ++ (b'"' ∷ next)) in
    read_fields-name fuel acc c (text ++ (b'=' ∷ behind)) s i j k
    ∙ ap (named_field (read_fields fuel) acc)
        (read_grow-Free field_stops (buffer (c ∷ [])) text b'=' behind free (unfold index in refl))
    ∙ unfold held buffer in read_fields-value fuel acc (c ∷ text) value next v

read_fields-space :
    (fuel : ℕ) (acc : List Field) (s : Bytes)
    → read_fields (suc fuel) acc (b' ' ∷ s) ≡ read_fields fuel acc s
unfolding read_fields is_space
read_fields-space fuel acc s = refl

read_fields-close :
    (fuel : ℕ) (acc : List Field) (s : Bytes)
    → read_fields (suc fuel) acc (b'>' ∷ s) ≡ open_tag acc s
unfolding read_fields is_space
read_fields-close fuel acc s = refl

-- Printed fields are read as they are, up to the `>` behind them.
read_fields-print_fields :
    (fuel : ℕ) (acc fields : List Field) (next : Bytes)
    → All IsPrintable fields
    → 2 * length fields < fuel
    → read_fields fuel acc (print_fields fields (b'>' ∷ next)) ≡ open_tag (acc ++ fields) next
unfolding print_fields IsPrintable print_field
read_fields-print_fields zero acc fields next h l = absurd (omega (arith, l))
read_fields-print_fields (suc fuel) acc [] next h l =
    rw (append-nil acc) (read_fields-close fuel acc next)
read_fields-print_fields (suc zero) acc (f ∷ fields) next h l = absurd (omega (arith, l))
read_fields-print_fields (suc (suc fuel)) acc (f ∷ fields) next ((n, v), hs) l =
    let others = print_fields fields (b'>' ∷ next) in
    read_fields-space (suc fuel) acc (print_field f others)
    ∙ read_fields-named fuel acc f.name f.value others n v
    ∙ read_fields-print_fields fuel (acc ++ (f ∷ [])) fields next hs (omega (arith, l))
    ∙ rw (append_assoc acc (f ∷ []) fields) refl

-- The printed fields of an object are read as they are, from the first one up to the `>` behind
-- them.
pub read_fields-print_field :
    (fuel : ℕ) (f : Field) (fields : List Field) (next : Bytes)
    → IsPrintable f
    → All IsPrintable fields
    → 2 * length fields + 1 < fuel
    → read_fields fuel [] (print_field f (print_fields fields (b'>' ∷ next)))
      ≡ open_tag (f ∷ fields) next
unfolding print_field IsPrintable
read_fields-print_field zero f fields next p h l = absurd (omega (arith, l))
read_fields-print_field (suc fuel) f fields next (n, v) h l =
    read_fields-named fuel [] f.name f.value (print_fields fields (b'>' ∷ next)) n v
    ∙ read_fields-print_fields fuel (f ∷ []) fields next h (omega (arith, l))

-- There is enough of a file for each of the fields printed.
print_fields-double :
    (fields : List Field) (next : Bytes)
    → 2 * length fields + length next ≤ length (print_fields fields next)
unfolding print_fields print_field
print_fields-double [] next = omega arith
print_fields-double (f ∷ fields) next = omega (
  arith,
  length-append f.name (b'=' ∷ b'"' ∷ (f.value ++ (b'"' ∷ print_fields fields next))),
  length-append f.value (b'"' ∷ print_fields fields next),
  print_fields-double fields next,
)

pub print_field-double :
    (f : Field) (fields : List Field) (next : Bytes)
    → 2 * length fields + 1 < suc (length (print_field f (print_fields fields (b'>' ∷ next))))
unfolding print_field
print_field-double f fields next =
    let others = print_fields fields (b'>' ∷ next) in
    omega (
      arith,
      length-append f.name (b'=' ∷ b'"' ∷ (f.value ++ (b'"' ∷ others))),
      length-append f.value (b'"' ∷ others),
      print_fields-double fields (b'>' ∷ next),
    )
