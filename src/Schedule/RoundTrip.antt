-- ===== src/Schedule/RoundTrip.antt =====
-- An action that was saved is loaded again.
use d4x.Prelude.{ℕ, suc, ◌^◌, ◌<◌, true, List, [], ◌∷◌, ◌++◌, ◌≡◌, refl, Bytes, codes, All, ◌∙◌}
use d4x.Decimal.{print_number}
use d4x.Decimal.RoundTrip.{print_number-Numeral, scan_number-print_number}
use d4x.TextFile.{line, no_line, equal_uncase, lower}
use d4x.TextFile.Lines.{fits, put}
use d4x.Scheduler.{Retries}
use d4x.Schedule.{
  Task, set_speed, popup_window, exit, del_completed, del_failed, run_download, pause_download,
  delete_download, del_if_completed, add_download, save_list, execute, Entry, Formats,
  print_retries, start_field, period_field, retries_field, end_field, stored, common_fields,
  extra_fields, table_of_fields, ended, going,
}
use d4x.Schedule.Files.{parsed, sv_parse_file, try_field, try_fields, again, load_entry}
use d4x.Schedule.Lines.{
  is_name, is_value-Numeral, is_value-print_retries, scan_retries-print_retries, fits-print_number,
  try_fields-hit, common_lines, f_rstr-put,
}

-- Times of 64 bits, and retries whose text fits.
unfoldable pub InRange : {Url Download : Type 0} → Entry Url Download → Type 0
InRange e =
    (e.start_time < 2 ^ 64) × (e.period < 2 ^ 64) × (fits 4047 (print_retries e.retries) ≡ true)

module _ {Url Download : Type 0} (fmt : Formats Url Download) where
  extra_fields-names :
      (t : Task Url Download)
      → All (λ row. is_name row.0 ≡ true) (extra_fields t ++ (codes "end.", end_field) ∷ [])
  unfolding extra_fields is_name lower
  extra_fields-names (set_speed n) = (refl, (refl, tt))
  extra_fields-names popup_window = (refl, tt)
  extra_fields-names exit = (refl, tt)
  extra_fields-names del_completed = (refl, tt)
  extra_fields-names del_failed = (refl, tt)
  extra_fields-names (run_download u) = (refl, (refl, tt))
  extra_fields-names (pause_download u) = (refl, (refl, tt))
  extra_fields-names (delete_download u) = (refl, (refl, tt))
  extra_fields-names (del_if_completed u) = (refl, (refl, tt))
  extra_fields-names (add_download d) = (refl, (refl, tt))
  extra_fields-names (save_list p) = (refl, (refl, tt))
  extra_fields-names (execute c) = (refl, (refl, tt))

  try_start :
      (t : Task Url Download) (e : Entry Url Download) (n : ℕ) (ls : List Bytes) (rest : Bytes)
      → n < 2 ^ 64
      → try_fields fmt (table_of_fields t) (codes "start_time") e (put (print_number n ∷ ls) rest)
        ≡ going (record e { start_time = n }) (put ls rest)
  unfolding table_of_fields common_fields equal_uncase lower sv_parse_file parsed line stored
      try_field is_name
  try_start t e n ls rest h =
      try_fields-hit fmt (codes "start_time") start_field
        ((codes "period", period_field) ∷ (codes "retries", retries_field) ∷ extra_fields t
          ++ (codes "end.", end_field) ∷ [])
        e (put (print_number n ∷ ls) rest) (print_number n) (record e { start_time = n })
        (put ls rest) refl (λ k. refl)
        (rw
          (f_rstr-put (print_number n) ls rest (fits-print_number n h), scan_number-print_number n)
          refl)
        (is_value-Numeral (print_number n) (print_number-Numeral n))
        (refl, (refl, extra_fields-names t))

  try_period :
      (t : Task Url Download) (e : Entry Url Download) (n : ℕ) (ls : List Bytes) (rest : Bytes)
      → n < 2 ^ 64
      → try_fields fmt (table_of_fields t) (codes "period") e (put (print_number n ∷ ls) rest)
        ≡ going (record e { period = n }) (put ls rest)
  unfolding table_of_fields common_fields equal_uncase lower sv_parse_file parsed line stored
      try_field is_name try_fields
  try_period t e n ls rest h =
      try_fields-hit fmt (codes "period") period_field
        ((codes "retries", retries_field) ∷ extra_fields t ++ (codes "end.", end_field) ∷ []) e
        (put (print_number n ∷ ls) rest) (print_number n) (record e { period = n }) (put ls rest)
        refl (λ k. refl)
        (rw
          (f_rstr-put (print_number n) ls rest (fits-print_number n h), scan_number-print_number n)
          refl)
        (is_value-Numeral (print_number n) (print_number-Numeral n)) (refl, extra_fields-names t)

  try_retries :
      (t : Task Url Download) (e : Entry Url Download) (r : Retries) (ls : List Bytes)
      (rest : Bytes)
      → fits 4047 (print_retries r) ≡ true
      → try_fields fmt (table_of_fields t) (codes "retries") e (put (print_retries r ∷ ls) rest)
        ≡ going (record e { retries = r }) (put ls rest)
  unfolding table_of_fields common_fields equal_uncase lower sv_parse_file parsed line stored
      try_field is_name try_fields
  try_retries t e r ls rest h =
      try_fields-hit fmt (codes "retries") retries_field
        (extra_fields t ++ (codes "end.", end_field) ∷ []) e (put (print_retries r ∷ ls) rest)
        (print_retries r) (record e { retries = r }) (put ls rest) refl (λ k. refl)
        (rw (f_rstr-put (print_retries r) ls rest h, scan_retries-print_retries r) refl)
        (is_value-print_retries r) (extra_fields-names t)

  try_end :
      (t : Task Url Download) (e : Entry Url Download) (file : Bytes)
      → try_fields fmt (table_of_fields t) (codes "end.") e file ≡ ended e file
  unfolding table_of_fields common_fields equal_uncase lower try_field try_fields extra_fields
  try_end (set_speed n) e file = refl
  try_end popup_window e file = refl
  try_end exit e file = refl
  try_end del_completed e file = refl
  try_end del_failed e file = refl
  try_end (run_download u) e file = refl
  try_end (pause_download u) e file = refl
  try_end (delete_download u) e file = refl
  try_end (del_if_completed u) e file = refl
  try_end (add_download d) e file = refl
  try_end (save_list p) e file = refl
  try_end (execute c) e file = refl

  -- A round of load that does not end it.
  pub load_entry-going :
      (fuel : ℕ) (t : Task Url Download) (e e' : Entry Url Download) (s : Bytes)
      (ls ms : List Bytes) (rest : Bytes)
      → fits 4047 s ≡ true
      → try_fields fmt (table_of_fields t) s e (put ls rest) ≡ going e' (put ms rest)
      → load_entry fmt (suc fuel) (table_of_fields t) e (put (s ∷ ls) rest)
        ≡ load_entry fmt fuel (table_of_fields t) e' (put ms rest)
  unfolding load_entry line again no_line
  load_entry-going fuel t e e' s ls ms rest h p = rw (f_rstr-put s ls rest h, p) refl

  load_entry-end :
      (fuel : ℕ) (t : Task Url Download) (e : Entry Url Download) (rest : Bytes)
      → load_entry fmt (suc fuel) (table_of_fields t) e (put (codes "end." ∷ []) rest)
        ≡ ended e rest
  unfolding load_entry line fits put again no_line
  load_entry-end fuel t e rest = rw (f_rstr-put (codes "end.") [] rest refl, try_end t e rest) refl

  pub load_entry-common :
      (fuel : ℕ) (e e' : Entry Url Download) (rest : Bytes)
      → InRange e
      → load_entry fmt
          (suc (suc (suc (suc fuel))))
          (table_of_fields e.task)
          (record e' { task = e.task })
          (put (common_lines e) rest)
        ≡ ended e rest
  unfolding common_lines InRange fits
  load_entry-common fuel e e' rest (a, b, c) =
      load_entry-going (suc (suc (suc fuel))) e.task (record e' { task = e.task })
        (record e' { task = e.task; start_time = e.start_time }) (codes "start_time") _ _ rest refl
        (try_start e.task (record e' { task = e.task }) e.start_time _ rest a)
      ∙ load_entry-going (suc (suc fuel)) e.task
          (record e' { task = e.task; start_time = e.start_time })
          (record e' { task = e.task; start_time = e.start_time; period = e.period })
          (codes "period") _ _ rest refl
          (try_period e.task (record e' { task = e.task; start_time = e.start_time }) e.period _
            rest b)
      ∙ load_entry-going (suc fuel) e.task
          (record e' { task = e.task; start_time = e.start_time; period = e.period }) e
          (codes "retries") _ (codes "end." ∷ []) rest refl
          (try_retries e.task
            (record e' { task = e.task; start_time = e.start_time; period = e.period }) e.retries _
            rest c)
      ∙ load_entry-end fuel e.task e rest
