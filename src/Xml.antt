-- ===== src/Xml.antt =====
-- main/xml.cc: the reader of XML files, its byte level. A file is the bytes that are still to be
-- read; a string is its bytes in front of the terminating zero.
pub mod Tags
pub mod Ends
pub mod Enough
pub mod Total
pub mod Printed
pub mod Texts
pub mod Tame
pub mod Reread
pub mod RoundTrip
pub mod Names
pub mod Leads
pub mod Walk
mod Tests
use d4x.Prelude.{
  ℕ, zero, suc, ◌+◌, Bool, true, false, ◌&&◌, ◌||◌, Option, none, some, List, [], ◌∷◌, ◌++◌, ◌==◌,
  leb, ltb, if◌then◌else◌, Bytes, codes, length, take, drop,
}
use d4x.Strings.Case.{equal}

-- d4xXmlField: `name` and `value`.
pub record Field : Type 0 where
  pub name : Bytes
  pub value : Bytes

-- d4xXmlObject: `name`, `value` or NULL, `fields` and `objects`. A queue of objects is the list of
-- them from its first node on; it has no limit.
mutual
  pub data Object : Type 0 where
    object : Bytes → Option Bytes → List Field → Objects → Object

  pub data Objects : Type 0 where
    nil : Objects
    cons : Object → Objects → Objects

-- tQueue::insert
unfoldable pub insert_object : Objects → Object → Objects
insert_object nil o = cons o nil
insert_object (cons first rest) o = cons first (insert_object rest o)

-- isspace of the C locale.
unfoldable pub is_space : ℕ → Bool
is_space c = (leb 9 c && leb c 13) || (c == 32)

-- index: the terminating zero belongs to the string.
unfoldable pub index : Bytes → ℕ → Bool
index [] c = c == 0
index (d ∷ b) c = (c == d) || index b c

-- d4x_xml_skip_for: `none` is its result 1, else what is left of the file.
unfoldable pub skip_for : Bytes → Bytes → Option Bytes
unfolding index
skip_for b [] = none
skip_for b (c ∷ s) = let more = skip_for b s in if index b c then some s else more

-- The string that is read, and the bytes in the buffer of 100 that are not yet added to it.
pub record Buffer : Type 0 where
  pub str : Bytes
  pub buf : Bytes

unfoldable pub buffer : Bytes → Buffer
buffer str = record { str = str; buf = [] }

-- sum_strings of the string and the buffer.
unfoldable pub held : Buffer → Bytes
held b = b.str ++ b.buf

-- `cur++`, and what is done if the buffer is full.
unfoldable pub put : ℕ → Buffer → Buffer
unfolding held buffer
put c b =
    let more = record b { buf = b.buf ++ c ∷ [] } in
    if leb 100 (length more.buf) then buffer (held more) else more

-- What d4x_xml_read_grow leaves: the string, the byte `b` and what is left of the file.
pub record Grown : Type 0 where
  pub str : Bytes
  pub stop : ℕ
  pub rest : Bytes

unfoldable pub grown : Bytes → ℕ → Bytes → Grown
grown str stop rest = record { str = str; stop = stop; rest = rest }

-- d4x_xml_read_grow: at the end of the file, what is in the buffer is lost.
unfoldable pub read_grow : Bytes → Buffer → Bytes → Grown
unfolding index held put grown
read_grow stopchars b [] = grown b.str 0 []
read_grow stopchars b (c ∷ s) =
    let more = read_grow stopchars (put c b) s in
    if index stopchars c then grown (held b) c s else more

-- The inner `switch` of d4x_xml_read_value.
unfoldable pub unescape : ℕ → ℕ
unescape c = if c == b'n' then 10 else if c == b'b' then 8 else if c == b't' then 9 else c

-- The loop of d4x_xml_read_value; the flag is that a backslash was read. `none` is the result -1,
-- else the value and what is left of the file.
unfoldable pub read_value : Bool → Buffer → Bytes → Option (Bytes × Bytes)
unfolding unescape held put
read_value escaped b [] = none
read_value true b (c ∷ s) =
    let more = read_value false (put (unescape c) b) s in if ltb c b' ' then none else more
read_value false b (c ∷ s) =
    let after_backslash = read_value true b s in
    let more = read_value false (put c b) s in
    if ltb c b' '
    then none
    else if c == b'\\'
    then after_backslash
    else if c == b'"'
    then some (held b, s)
    else more

-- The loop of d4x_xml_skip_for_str, with the last bytes read in `buf`.
unfoldable pub slide : Bytes → Bytes → Bytes → Bytes
unfolding equal
slide str buf [] = []
slide str buf (c ∷ s) =
    let more = slide str (drop 1 buf ++ c ∷ []) s in if equal str buf then c ∷ s else more

-- d4x_xml_skip_for_str: what is left of the file.
unfoldable pub skip_for_str : Bytes → Bytes → Bytes
unfolding slide
skip_for_str str s =
    if ltb (length s) (length str)
    then []
    else slide str (take (length str) s) (drop (length str) s)
