-- ===== src/Xml/Tests.antt =====
-- Runs of the XML reader, and the theorems about it at concrete files.
use d4x.Prelude.{◌≡◌, refl, none, some, [], ◌∷◌, ◌++◌, codes, arith}
use d4x.Strings.{begin_string}
use d4x.Xml.{object, Objects, nil, cons, is_space, index}
use d4x.Xml.Names.{Without, joined, d4x_xml_find_obj_value}
use d4x.Xml.Printed.{d4x_xml_out}
use d4x.Xml.RoundTrip.{d4x_xml_parse_fd-d4x_xml_out}
use d4x.Xml.Tags.{queue, d4x_xml_parse_fd}
use d4x.Xml.Tame.{AllTame, IsText, HasText, reread_all}
use d4x.Xml.Texts.{IsName, Free, IsPlain, IsPrintable}
use d4x.Xml.Total.{IsRead, d4x_xml_parse_fd-IsRead}
use d4x.Xml.Leads.{Looked}
use d4x.Xml.Walk.{IsStep, d4x_xml_find_obj_value_lem}

-- The text behind a comment in an object is lost.
comment_drops :
    d4x_xml_parse_fd (codes "<a> t<!-- c --> u</a>")
    ≡ queue (cons (object (codes "a") (some (codes " t")) [] nil) nil)
unfolding d4x_xml_parse_fd
comment_drops = refl

-- The name in an end tag is not compared.
any_end :
    d4x_xml_parse_fd (codes "<a></b>") ≡ queue (cons (object (codes "a") (some []) [] nil) nil)
unfolding d4x_xml_parse_fd
any_end = refl

-- An end tag behind the objects is an object itself.
end_is_object :
    d4x_xml_parse_fd (codes "<a/></b>")
    ≡ queue (cons (object (codes "a") none [] nil) (cons (object (codes "/b") none [] nil) nil))
unfolding d4x_xml_parse_fd
end_is_object = refl

-- A file with an object that is not closed is read as if the object were not there.
not_closed : d4x_xml_parse_fd (codes "<a><b></b>") ≡ queue nil
unfolding d4x_xml_parse_fd
not_closed = refl

abbrev theme : Objects
theme =
    cons
      (object (codes "th") (some (codes "pl"))
        (record { name = codes "fi"; value = codes "a." } ∷ [])
        (cons (object (codes "qu") (some (codes "run")) [] nil) nil))
      nil

theme-AllTame : AllTame theme
unfolding AllTame begin_string IsName Free IsPlain IsPrintable IsText HasText is_space index
theme-AllTame = grind arith

d4x_xml_parse_fd-d4x_xml_out_example :
    d4x_xml_parse_fd (d4x_xml_out (codes "(null)") theme)
    ≡ queue (reread_all (codes "(null)") 0 theme)
d4x_xml_parse_fd-d4x_xml_out_example =
    d4x_xml_parse_fd-d4x_xml_out (codes "(null)")
      (object (codes "th") (some (codes "pl"))
        (record { name = codes "fi"; value = codes "a." } ∷ [])
        (cons (object (codes "qu") (some (codes "run")) [] nil) nil))
      nil theme-AllTame

steps : IsStep (codes "th") × IsStep (codes "qu")
unfolding IsStep Without
steps = grind arith

d4x_xml_find_obj_value_lem_example :
    Looked
      (codes "th")
      (codes "qu" ∷ [])
      theme
      (codes "x")
      (d4x_xml_find_obj_value (some theme) (joined (codes "th") (codes "qu" ∷ [])))
      (d4x_xml_find_obj_value
        (some theme)
        (joined (codes "th") (codes "qu" ∷ []) ++ (b'>' ∷ codes "x")))
d4x_xml_find_obj_value_lem_example =
    d4x_xml_find_obj_value_lem theme (codes "th") (codes "qu" ∷ []) (codes "x") (steps.0)
      (steps.1, tt)

d4x_xml_parse_fd-IsRead_example : IsRead (d4x_xml_parse_fd (codes "<a><"))
d4x_xml_parse_fd-IsRead_example = d4x_xml_parse_fd-IsRead (codes "<a><")
