-- ===== src/Schedule/Ends.antt =====
-- A text that is the name of the last row of the table ends the load of its action.
use d4x.Prelude.{ℕ, suc, true, none, some, List, ◌∷◌, ◌≡◌, refl, Bytes, codes}
use d4x.TextFile.{line, no_line, equal_uncase, lower}
use d4x.TextFile.Lines.{fits, put}
use d4x.Schedule.{
  save_list, Entry, Formats, common_fields, extra_fields, table_of_fields, with_text, ended,
}
use d4x.Schedule.Files.{parsed, sv_parse_file, go_on, try_field, try_fields, again, load_entry}
use d4x.Schedule.Lines.{f_rstr-put}

module _ {Url Download : Type 0} (fmt : Formats Url Download) where
  try_fields-end :
      (e : Entry Url Download) (s : Bytes) (ls : List Bytes) (rest : Bytes)
      → fits 4047 s ≡ true
      → equal_uncase s (codes "end.") ≡ true
      → try_fields fmt
          (table_of_fields {Url = Url} {Download = Download} (save_list none))
          (codes "path")
          e
          (put (s ∷ ls) rest)
        ≡ ended (record e { task = with_text s e.task }) (put ls rest)
  unfolding try_fields try_field go_on table_of_fields extra_fields common_fields equal_uncase lower
      sv_parse_file parsed line
  try_fields-end e s ls rest h k = rw (f_rstr-put s ls rest h, k) refl

  -- An action that saves the list to a file whose path is `end.`, in any case of its letters, is
  -- complete for load as soon as the path was read: the lines of the times and of the retries behind
  -- it are left in the file, and the action keeps those that `new` gave it.
  pub load_entry-end_path :
      (fuel : ℕ) (e : Entry Url Download) (s : Bytes) (ls : List Bytes) (rest : Bytes)
      → fits 4047 s ≡ true
      → equal_uncase s (codes "end.") ≡ true
      → load_entry fmt
          (suc fuel)
          (table_of_fields {Url = Url} {Download = Download} (save_list none))
          (record e { task = save_list none })
          (put (codes "path" ∷ s ∷ ls) rest)
        ≡ ended (record e { task = save_list (some s) }) (put ls rest)
  unfolding load_entry line no_line again fits with_text
  load_entry-end_path fuel e s ls rest h k =
      rw
        (
          f_rstr-put (codes "path") (s ∷ ls) rest refl,
          try_fields-end (record e { task = save_list none }) s ls rest h k,
        )
        refl
