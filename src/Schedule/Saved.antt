-- ===== src/Schedule/Saved.antt =====
-- What save writes, and the round trip of the whole file.
use d4x.Prelude.{
  ℕ, zero, suc, ◌<◌, true, Option, none, some, List, [], ◌∷◌, ◌++◌, ◌≡◌, refl, Bytes, codes, map,
  length, All, sym, ap, append-nil, arith,
}
use d4x.TextFile.{
  line, max_len, f_rstr, no_line, ◌then◌, f_wstr_lf, write_named_string, write_named_integer,
  read_line,
}
use d4x.TextFile.Lines.{
  fits, put, put-append, Appends, Writes, Writes-then, f_wstr_lf-Writes, write_named_integer-Writes,
}
use d4x.Schedule.{
  Task, set_speed, popup_window, exit, del_completed, del_failed, run_download, pause_download,
  delete_download, del_if_completed, add_download, save_list, execute, Entry, Formats,
  print_retries, header, stored,
}
use d4x.Schedule.Files.{
  ignored, save_common, save_url, save_task, save_entry, save_entries, load_actions, after_pick,
  after_entry, prepend, new_entry,
}
use d4x.Schedule.Lines.{common_lines, f_rstr-put}
use d4x.Schedule.RoundTrip.{InRange}
use d4x.Schedule.Loaded.{
  Reads, Storable, task_lines, four_more, reread_entry, load_entry-lines, pick-header,
}

module _ {Url Download : Type 0} (fmt : Formats Url Download)
    (sys_write : Bytes → Bytes → Option Bytes) (ok : Reads fmt) (appends : Appends sys_write) where
  -- The lines of a saved action.
  unfoldable pub entry_lines : Entry Url Download → List Bytes
  entry_lines e = header e.task ∷ task_lines fmt ok e.task ++ common_lines e

  unfoldable pub all_lines : List (Entry Url Download) → List Bytes
  all_lines [] = []
  all_lines (e ∷ es) = entry_lines e ++ all_lines es

  write_named_string-Writes :
      (name s : Bytes) → Writes (write_named_string sys_write name (some s)) (name ∷ s ∷ [])
  unfolding write_named_string
  write_named_string-Writes name s =
      Writes-then (f_wstr_lf sys_write name) (f_wstr_lf sys_write s) (name ∷ []) (s ∷ [])
        (f_wstr_lf-Writes sys_write appends name) (f_wstr_lf-Writes sys_write appends s)

  save_common-Writes :
      (e : Entry Url Download) → Writes (save_common fmt sys_write e) (common_lines e)
  unfolding save_common common_lines
  save_common-Writes e =
      Writes-then _ (f_wstr_lf sys_write (codes "end.")) _ (codes "end." ∷ [])
        (Writes-then _
          (write_named_string sys_write (codes "retries") (some (print_retries e.retries))) _
          (codes "retries" ∷ print_retries e.retries ∷ [])
          (Writes-then (write_named_integer sys_write (codes "start_time") e.start_time)
            (write_named_integer sys_write (codes "period") e.period) _ _
            (write_named_integer-Writes sys_write appends (codes "start_time") e.start_time)
            (write_named_integer-Writes sys_write appends (codes "period") e.period))
          (write_named_string-Writes (codes "retries") (print_retries e.retries)))
        (f_wstr_lf-Writes sys_write appends (codes "end."))

  some-Writes : Writes some []
  unfolding Writes put
  some-Writes file = ap some (sym (append-nil file))

  ignored-Writes :
      (w : Bytes → Option Bytes) (ls : List Bytes)
      → Writes w ls
      → Writes (λ file. some (ignored w file)) ls
  unfolding Writes ignored stored
  ignored-Writes w ls p file = rw (p file) refl

  save_url-Writes :
      (u : Url) → Writes (save_url fmt sys_write u) (codes "URL:" ∷ fmt.url_text u ∷ [])
  unfolding save_url ◌then◌
  save_url-Writes u =
      Writes-then (λ file. some (ignored (f_wstr_lf sys_write (codes "URL:")) file))
        (λ file. some (ignored (f_wstr_lf sys_write (fmt.url_text u)) file)) (codes "URL:" ∷ [])
        (fmt.url_text u ∷ [])
        (ignored-Writes _ _ (f_wstr_lf-Writes sys_write appends (codes "URL:")))
        (ignored-Writes _ _ (f_wstr_lf-Writes sys_write appends (fmt.url_text u)))

  save_download-Writes :
      (d : Download)
      → Writes (λ file. some (fmt.save_download d file)) (codes "Download:" ∷ ok.body d)
  unfolding Writes
  save_download-Writes d file = ap some (ok.save d file)

  save_nothing-Writes :
      (name : Bytes)
      → Writes (λ file. some (ignored (write_named_string sys_write name none) file)) []
  unfolding write_named_string ignored
  save_nothing-Writes name = some-Writes

  save_task-Writes :
      (t : Task Url Download) → Writes (save_task fmt sys_write t) (task_lines fmt ok t)
  unfolding save_task task_lines
  save_task-Writes (set_speed n) = write_named_integer-Writes sys_write appends (codes "speed") n
  save_task-Writes popup_window = some-Writes
  save_task-Writes exit = some-Writes
  save_task-Writes del_completed = some-Writes
  save_task-Writes del_failed = some-Writes
  save_task-Writes (run_download u) = save_url-Writes u
  save_task-Writes (pause_download u) = save_url-Writes u
  save_task-Writes (delete_download u) = save_url-Writes u
  save_task-Writes (del_if_completed u) = save_url-Writes u
  save_task-Writes (add_download none) = some-Writes
  save_task-Writes (add_download (some d)) = save_download-Writes d
  save_task-Writes (save_list none) = save_nothing-Writes (codes "path")
  save_task-Writes (save_list (some p)) =
      ignored-Writes _ _ (write_named_string-Writes (codes "path") p)
  save_task-Writes (execute none) = save_nothing-Writes (codes "command")
  save_task-Writes (execute (some c)) =
      ignored-Writes _ _ (write_named_string-Writes (codes "command") c)

  save_entry-Writes : (e : Entry Url Download) → Writes (save_entry fmt sys_write e) (entry_lines e)
  unfolding save_entry entry_lines
  save_entry-Writes e =
      Writes-then _ (save_common fmt sys_write e) (header e.task ∷ task_lines fmt ok e.task)
        (common_lines e)
        (Writes-then (f_wstr_lf sys_write (header e.task)) (save_task fmt sys_write e.task)
          (header e.task ∷ []) (task_lines fmt ok e.task)
          (f_wstr_lf-Writes sys_write appends (header e.task)) (save_task-Writes e.task))
        (save_common-Writes e)

  -- d4xScheduler::save writes the lines of the actions, one action behind the other.
  pub save_entries-Writes :
      (es : List (Entry Url Download)) → Writes (save_entries fmt sys_write es) (all_lines es)
  unfolding save_entries all_lines
  save_entries-Writes [] = some-Writes
  save_entries-Writes (e ∷ es) =
      Writes-then (save_entry fmt sys_write e) (save_entries fmt sys_write es) (entry_lines e)
        (all_lines es) (save_entry-Writes e) (save_entries-Writes es)

  header-fits : (t : Task Url Download) → fits 4047 (header t) ≡ true
  unfolding header fits
  header-fits (set_speed n) = refl
  header-fits popup_window = refl
  header-fits exit = refl
  header-fits del_completed = refl
  header-fits del_failed = refl
  header-fits (run_download u) = refl
  header-fits (pause_download u) = refl
  header-fits (delete_download u) = refl
  header-fits (del_if_completed u) = refl
  header-fits (add_download d) = refl
  header-fits (save_list p) = refl
  header-fits (execute c) = refl

  f_rstr-nil : f_rstr max_len [] ≡ line [] 0 []
  unfolding f_rstr read_line line
  f_rstr-nil = refl

  load_entries-lines :
      (rounds fuel : ℕ) (es : List (Entry Url Download))
      → All InRange es
      → All (λ e. Storable fmt ok e.task) es
      → length es < rounds
      → load_actions fmt rounds (suc (four_more fuel)) (put (all_lines es) [])
        ≡ some (map (reread_entry fmt ok) es)
  unfolding load_actions line no_line after_pick after_entry prepend new_entry all_lines entry_lines
      put
  load_entries-lines zero fuel es r h lt = absurd (omega arith)
  load_entries-lines (suc rounds) fuel [] r h lt = rw f_rstr-nil refl
  load_entries-lines (suc rounds) fuel (e ∷ es) (r, rs) (h, hs) lt =
      rw
        (
          put-append (entry_lines e) (all_lines es) [],
          f_rstr-put (header e.task) (task_lines fmt ok e.task ++ common_lines e)
              (put (all_lines es) []) (header-fits e.task),
          (pick-header fmt e.task).0,
          load_entry-lines fmt ok fuel e (new_entry fmt e.task) (put (all_lines es) []) r h,
          load_entries-lines rounds fuel es rs hs (omega arith),
        )
        refl

  -- The save of the scheduler's actions reaches its end. With one round for each action and one for
  -- the end of the file, and five rounds or more for each action, the load of what was written gives
  -- add_action the same actions in the same order: all their fields are those that were saved, but
  -- that a URL is the one that is read from its own text, and a download the one that is read from its
  -- own lines. It is required that the device takes what is written, that the times and a speed have
  -- 64 bits, that the texts of the URLs, the path and the command fit in the buffer and are not the
  -- word `end.`, that a download writes lines of its own, and that from those of the downloads that
  -- are saved here, whatever stands behind them, a download is read, and no line more.
  pub load_actions-save_entries :
      (rounds fuel : ℕ) (es : List (Entry Url Download))
      → All InRange es
      → All (λ e. Storable fmt ok e.task) es
      → length es < rounds
      → (file : Bytes) × (save_entries fmt sys_write es [] ≡ some file)
        × (load_actions fmt rounds (suc (four_more fuel)) file
            ≡ some (map (reread_entry fmt ok) es))
  unfolding Writes
  load_actions-save_entries rounds fuel es r h lt =
      (put (all_lines es) [], save_entries-Writes es [], load_entries-lines rounds fuel es r h lt)
