-- ===== src/Schedule/Loaded.antt =====
-- The lines of each kind of action, and the load of a whole action.
use d4x.Prelude.{
  ℕ, suc, ◌^◌, ◌<◌, Bool, true, false, none, some, List, [], ◌∷◌, ◌++◌, ◌≡◌, refl, Bytes, codes, ap,
  ◌∙◌,
}
use d4x.Decimal.{print_number}
use d4x.Decimal.RoundTrip.{print_number-Numeral, scan_number-print_number}
use d4x.TextFile.{line, equal_uncase, lower}
use d4x.TextFile.Lines.{fits, put, put-append}
use d4x.Schedule.{
  Task, set_speed, popup_window, exit, del_completed, del_failed, run_download, pause_download,
  delete_download, del_if_completed, add_download, save_list, execute, Entry, Formats, url_field,
  text_field, end_field, stored, task_type, header, common_fields, extra_fields, table_of_fields,
  with_url, with_speed, with_text, download_of, ended, going,
}
use d4x.Schedule.Files.{
  parsed, sv_parse_file, go_on, try_field, try_fields, load_entry, pick, headers, new_task,
  new_tasks,
}
use d4x.Schedule.Lines.{
  is_value-Numeral, value≢name, is_name, fits-print_number, common_lines, f_rstr-put,
}
use d4x.Schedule.RoundTrip.{InRange, load_entry-going, load_entry-common}

abbrev pub four_more : ℕ → ℕ
four_more n = suc (suc (suc (suc n)))

module _ {Url Download : Type 0} (fmt : Formats Url Download) where
  -- What is required of the class of downloads: a download writes the line `Download:` and lines of
  -- its own; from the lines of one that is kept, whatever stands behind them, a download is read, and
  -- no line more. It may differ from the one that was saved.
  pub record Reads : Type 0 where
    pub kept : Download → Bool
    pub body : Download → List Bytes
    pub again : Download → Download
    pub save :
        (d : Download) (file : Bytes)
        → fmt.save_download d file ≡ file ++ put (codes "Download:" ∷ body d) []
    pub load :
        (d : Download) (rest : Bytes)
        → kept d ≡ true
        → fmt.load_download none (put (body d) rest)
          ≡ record { ok = true; download = again d; rest = rest }

  -- An address that was printed and read again.
  abbrev pub reprinted : Url → Url
  reprinted u = fmt.text_url (fmt.url_text u)

  -- The action, but its URL printed and read again, or its download saved and loaded.
  unfoldable pub reread : Reads → Task Url Download → Task Url Download
  reread ok (run_download u) = run_download (reprinted u)
  reread ok (pause_download u) = pause_download (reprinted u)
  reread ok (delete_download u) = delete_download (reprinted u)
  reread ok (del_if_completed u) = del_if_completed (reprinted u)
  reread ok (add_download (some d)) = add_download (some (ok.again d))
  reread ok t = t

  abbrev pub reread_entry : Reads → Entry Url Download → Entry Url Download
  reread_entry ok e = record e { task = reread ok e.task }

  -- A text that a load gets back: it fits in the buffer, and is not the name of the last row.
  unfoldable pub IsText : Bytes → Type 0
  IsText s = (fits 4047 s ≡ true) × (equal_uncase s (codes "end.") ≡ false)

  -- What must hold of an action's own fields.
  unfoldable pub Storable : Reads → Task Url Download → Type 0
  unfolding IsText
  Storable ok (set_speed n) = n < 2 ^ 64
  Storable ok (run_download u) = IsText (fmt.url_text u)
  Storable ok (pause_download u) = IsText (fmt.url_text u)
  Storable ok (delete_download u) = IsText (fmt.url_text u)
  Storable ok (del_if_completed u) = IsText (fmt.url_text u)
  Storable ok (add_download (some d)) = ok.kept d ≡ true
  Storable ok (save_list (some p)) = IsText p
  Storable ok (execute (some c)) = IsText c
  Storable ok t = Unit

  -- The new action in which the fields are loaded.
  unfoldable pub blank : Task Url Download → Task Url Download
  blank (set_speed n) = set_speed fmt.garbage
  blank popup_window = popup_window
  blank exit = exit
  blank del_completed = del_completed
  blank del_failed = del_failed
  blank (run_download u) = run_download fmt.new_url
  blank (pause_download u) = pause_download fmt.new_url
  blank (delete_download u) = delete_download fmt.new_url
  blank (del_if_completed u) = del_if_completed fmt.new_url
  blank (add_download d) = add_download none
  blank (save_list p) = save_list none
  blank (execute c) = execute none

  -- The lines between the header and those of d4xSchedAction::save.
  unfoldable pub task_lines : Reads → Task Url Download → List Bytes
  task_lines ok (set_speed n) = codes "speed" ∷ print_number n ∷ []
  task_lines ok (run_download u) = codes "URL:" ∷ fmt.url_text u ∷ []
  task_lines ok (pause_download u) = codes "URL:" ∷ fmt.url_text u ∷ []
  task_lines ok (delete_download u) = codes "URL:" ∷ fmt.url_text u ∷ []
  task_lines ok (del_if_completed u) = codes "URL:" ∷ fmt.url_text u ∷ []
  task_lines ok (add_download (some d)) = codes "Download:" ∷ ok.body d
  task_lines ok (save_list (some p)) = codes "path" ∷ p ∷ []
  task_lines ok (execute (some c)) = codes "command" ∷ c ∷ []
  task_lines ok t = []

  try_url :
      (e : Entry Url Download) (s : Bytes) (ls : List Bytes) (rest : Bytes)
      → IsText s
      → try_fields fmt
          (common_fields ++ (codes "URL:", url_field) ∷ (codes "end.", end_field) ∷ [])
          (codes "URL:")
          e
          (put (s ∷ ls) rest)
        ≡ going (record e { task = with_url (fmt.text_url s) e.task }) (put ls rest)
  unfolding try_fields try_field go_on common_fields equal_uncase lower sv_parse_file parsed line
      IsText
  try_url e s ls rest (h, k) = rw (f_rstr-put s ls rest h, k) refl

  try_text :
      (e : Entry Url Download) (s : Bytes) (ls : List Bytes) (rest : Bytes)
      → IsText s
      → try_fields fmt
          (common_fields ++ (codes "path", text_field) ∷ (codes "end.", end_field) ∷ [])
          (codes "path")
          e
          (put (s ∷ ls) rest)
        ≡ going (record e { task = with_text s e.task }) (put ls rest)
  unfolding try_fields try_field go_on common_fields equal_uncase lower sv_parse_file parsed line
      IsText
  try_text e s ls rest (h, k) = rw (f_rstr-put s ls rest h, k) refl

  try_command :
      (e : Entry Url Download) (s : Bytes) (ls : List Bytes) (rest : Bytes)
      → IsText s
      → try_fields fmt
          (common_fields ++ (codes "command", text_field) ∷ (codes "end.", end_field) ∷ [])
          (codes "command")
          e
          (put (s ∷ ls) rest)
        ≡ going (record e { task = with_text s e.task }) (put ls rest)
  unfolding try_fields try_field go_on common_fields equal_uncase lower sv_parse_file parsed line
      IsText
  try_command e s ls rest (h, k) = rw (f_rstr-put s ls rest h, k) refl

  try_speed :
      (e : Entry Url Download) (n m : ℕ) (ls : List Bytes) (rest : Bytes)
      → n < 2 ^ 64
      → try_fields fmt
          (table_of_fields {Url = Url} {Download = Download} (set_speed m))
          (codes "speed")
          (record e { task = set_speed m })
          (put (print_number n ∷ ls) rest)
        ≡ going (record e { task = set_speed n }) (put ls rest)
  unfolding try_fields try_field go_on table_of_fields extra_fields common_fields equal_uncase lower
      sv_parse_file parsed line stored with_speed is_name
  try_speed e n m ls rest h =
      rw
        (
          f_rstr-put (print_number n) ls rest (fits-print_number n h),
          scan_number-print_number n,
          value≢name (print_number n) (codes "end.")
              (is_value-Numeral (print_number n) (print_number-Numeral n)) refl,
        )
        refl

  try_download :
      (e : Entry Url Download) (d : Download) (file rest : Bytes)
      → fmt.load_download none file ≡ record { ok = true; download = d; rest = rest }
      → try_fields fmt
          (table_of_fields {Url = Url} {Download = Download} (add_download none))
          (codes "Download:")
          (record e { task = add_download none })
          file
        ≡ going (record e { task = add_download (some d) }) rest
  unfolding try_fields try_field go_on table_of_fields extra_fields common_fields equal_uncase lower
      sv_parse_file parsed download_of
  try_download e d file rest h = rw h refl

  -- The rounds of load in front of the common lines: one, or none.
  load_entry-task :
      (ok : Reads) (fuel : ℕ) (t : Task Url Download) (e : Entry Url Download) (ms : List Bytes)
      (rest : Bytes)
      → Storable ok t
      → (k : ℕ) × (load_entry fmt
            (suc (four_more fuel))
            (table_of_fields (blank t))
            (record e { task = blank t })
            (put (task_lines ok t ++ ms) rest)
          ≡ load_entry fmt
              (four_more k)
              (table_of_fields (reread ok t))
              (record e { task = reread ok t })
              (put ms rest))
  unfolding reread Storable blank task_lines table_of_fields extra_fields with_url with_text fits
      put
  load_entry-task ok fuel (set_speed n) e ms rest h = (
    fuel,
    load_entry-going fmt (four_more fuel) (set_speed n) (record e { task = set_speed fmt.garbage })
        (record e { task = set_speed n }) (codes "speed") (print_number n ∷ ms) ms rest refl
        (try_speed e n fmt.garbage ms rest h),
  )
  load_entry-task ok fuel popup_window e ms rest h = (suc fuel, refl)
  load_entry-task ok fuel exit e ms rest h = (suc fuel, refl)
  load_entry-task ok fuel del_completed e ms rest h = (suc fuel, refl)
  load_entry-task ok fuel del_failed e ms rest h = (suc fuel, refl)
  load_entry-task ok fuel (run_download u) e ms rest h = (
    fuel,
    load_entry-going fmt (four_more fuel) (run_download (reprinted u))
        (record e { task = run_download fmt.new_url })
        (record e { task = run_download (reprinted u) }) (codes "URL:") (fmt.url_text u ∷ ms) ms
        rest refl
        (try_url (record e { task = run_download fmt.new_url }) (fmt.url_text u) ms rest h),
  )
  load_entry-task ok fuel (pause_download u) e ms rest h = (
    fuel,
    load_entry-going fmt (four_more fuel) (pause_download (reprinted u))
        (record e { task = pause_download fmt.new_url })
        (record e { task = pause_download (reprinted u) }) (codes "URL:") (fmt.url_text u ∷ ms) ms
        rest refl
        (try_url (record e { task = pause_download fmt.new_url }) (fmt.url_text u) ms rest h),
  )
  load_entry-task ok fuel (delete_download u) e ms rest h = (
    fuel,
    load_entry-going fmt (four_more fuel) (delete_download (reprinted u))
        (record e { task = delete_download fmt.new_url })
        (record e { task = delete_download (reprinted u) }) (codes "URL:") (fmt.url_text u ∷ ms) ms
        rest refl
        (try_url (record e { task = delete_download fmt.new_url }) (fmt.url_text u) ms rest h),
  )
  load_entry-task ok fuel (del_if_completed u) e ms rest h = (
    fuel,
    load_entry-going fmt (four_more fuel) (del_if_completed (reprinted u))
        (record e { task = del_if_completed fmt.new_url })
        (record e { task = del_if_completed (reprinted u) }) (codes "URL:") (fmt.url_text u ∷ ms) ms
        rest refl
        (try_url (record e { task = del_if_completed fmt.new_url }) (fmt.url_text u) ms rest h),
  )
  load_entry-task ok fuel (add_download none) e ms rest h = (suc fuel, refl)
  load_entry-task ok fuel (add_download (some d)) e ms rest h = (
    fuel,
    load_entry-going fmt (four_more fuel) (add_download (some (ok.again d)))
        (record e { task = add_download none })
        (record e { task = add_download (some (ok.again d)) }) (codes "Download:") (ok.body d ++ ms)
        ms rest refl
        (try_download e (ok.again d) (put (ok.body d ++ ms) rest) (put ms rest) (
          ap (fmt.load_download none) (put-append (ok.body d) ms rest)
          ∙ ok.load d (put ms rest) h)),
  )
  load_entry-task ok fuel (save_list none) e ms rest h = (suc fuel, refl)
  load_entry-task ok fuel (save_list (some p)) e ms rest h = (
    fuel,
    load_entry-going fmt (four_more fuel) (save_list (some p)) (record e { task = save_list none })
        (record e { task = save_list (some p) }) (codes "path") (p ∷ ms) ms rest refl
        (try_text (record e { task = save_list none }) p ms rest h),
  )
  load_entry-task ok fuel (execute none) e ms rest h = (suc fuel, refl)
  load_entry-task ok fuel (execute (some c)) e ms rest h = (
    fuel,
    load_entry-going fmt (four_more fuel) (execute (some c)) (record e { task = execute none })
        (record e { task = execute (some c) }) (codes "command") (c ∷ ms) ms rest refl
        (try_command (record e { task = execute none }) c ms rest h),
  )

  -- The load of what stands behind the header.
  pub load_entry-lines :
      (ok : Reads) (fuel : ℕ) (e e' : Entry Url Download) (rest : Bytes)
      → InRange e
      → Storable ok e.task
      → load_entry fmt
          (suc (four_more fuel))
          (table_of_fields (blank e.task))
          (record e' { task = blank e.task })
          (put (task_lines ok e.task ++ common_lines e) rest)
        ≡ ended (reread_entry ok e) rest
  unfolding common_lines InRange
  load_entry-lines ok fuel e e' rest r h =
      let (k, p) = load_entry-task ok fuel e.task e' (common_lines e) rest h in
      p ∙ load_entry-common fmt k (reread_entry ok e) e' rest r

  -- The scheduler's load takes the first line that the save of an action writes for the kind of that
  -- action: it makes a new action with the same type ().
  pub pick-header :
      (t : Task Url Download)
      → (pick fmt headers 0 (header t) none ≡ some (blank t)) × (task_type (blank t) ≡ task_type t)
  unfolding pick headers header blank equal_uncase lower new_task new_tasks task_type
  pick-header (set_speed n) = (refl, refl)
  pick-header popup_window = (refl, refl)
  pick-header exit = (refl, refl)
  pick-header del_completed = (refl, refl)
  pick-header del_failed = (refl, refl)
  pick-header (run_download u) = (refl, refl)
  pick-header (pause_download u) = (refl, refl)
  pick-header (delete_download u) = (refl, refl)
  pick-header (del_if_completed u) = (refl, refl)
  pick-header (add_download d) = (refl, refl)
  pick-header (save_list p) = (refl, refl)
  pick-header (execute c) = (refl, refl)
