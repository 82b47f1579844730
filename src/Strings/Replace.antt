-- ===== src/Strings/Replace.antt =====
-- main/locstr.cc: str_replace, and xml_replace_entities of main/xml.cc, which calls it.
use d4x.Prelude.{
  ℕ, zero, suc, ◌-◌, ◌≢◌, Bool, true, false, ◌&&◌, [], ◌∷◌, ◌++◌, ◌==◌, if◌then◌else◌, Bytes, codes,
  length, All, ◌≡◌, refl, arith,
}

-- Does strstr find the string at the beginning?
unfoldable pub found_here : Bytes → Bytes → Bool
found_here [] str = true
found_here (d ∷ place) [] = false
found_here (d ∷ place) (c ∷ str) = (c == d) && found_here place str

-- The loop of str_replace from the place `cur` on, where `skip` bytes belong to what was found last.
-- The string to look for is not empty.
unfoldable pub replace_from : ℕ → Bytes → Bytes → Bytes → Bytes
unfolding found_here
replace_from skip place what [] = []
replace_from (suc skip) place what (c ∷ str) = replace_from skip place what str
replace_from zero place what (c ∷ str) =
    let found = what ++ replace_from (length place - 1) place what str in
    let kept = c ∷ replace_from zero place what str in
    if found_here place (c ∷ str) then found else kept

-- str_replace
unfoldable pub str_replace : Bytes → Bytes → Bytes → Bytes
unfolding replace_from
str_replace str place what = replace_from zero place what str

-- xml_replace_entities
unfoldable pub xml_replace_entities : Bytes → Bytes
unfolding str_replace
xml_replace_entities a =
    let tmp = str_replace a (codes "&lt;") (codes "<") in str_replace tmp (codes "&gt;") (codes ">")

-- A string without the first byte of what is looked for stays as it is.
str_replace_none :
    (d : ℕ) (place what str : Bytes)
    → All (λ c. c ≢ d) str
    → replace_from zero (d ∷ place) what str ≡ str
unfolding replace_from found_here
str_replace_none d place what [] h = refl
str_replace_none d place what (c ∷ str) (h, hs) =
    ground (arith, str_replace_none d place what str hs)

-- A string without `&` stays as it is.
pub xml_replace_entities_none : (a : Bytes) → All (λ c. c ≢ b'&') a → xml_replace_entities a ≡ a
unfolding xml_replace_entities str_replace
xml_replace_entities_none a h =
    rw (str_replace_none b'&' (codes "lt;") (codes "<") a h)
      (str_replace_none b'&' (codes "gt;") (codes ">") a h)
