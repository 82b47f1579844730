-- ===== src/Schedule/Tests.antt =====
-- The theorems on the saved actions at a scheduler with three of them. The URLs are the addresses of
-- main/addr.cc here, and a download is its address alone, between the lines that dlist.cc writes.
use d4x.Prelude.{
  suc, true, false, map, Option, none, some, List, [], ◌∷◌, ◌++◌, ◌≡◌, refl, Bytes, codes, arith,
}
use d4x.TextFile.{max_len, f_rstr, line, equal_uncase, lower}
use d4x.TextFile.Lines.{fits, put, Appends}
use d4x.Hex.{hexed_string, unhexed_string}
use d4x.Strings.{begin_string}
use d4x.Addresses.{Url, print_url, proto_http}
use d4x.Addresses.Reading.{read_url}
use d4x.Decimal.{print_number, digits, scan_digits}
use d4x.Scheduler.{unlimited, left}
use d4x.Schedule.{set_speed, run_download, add_download, Entry, Formats, print_retries}
use d4x.Schedule.Files.{save_entries, load_actions}
use d4x.Schedule.Lines.{f_rstr-put}
use d4x.Schedule.RoundTrip.{InRange}
use d4x.Schedule.Loaded.{Reads, IsText, Storable, four_more, reread_entry}
use d4x.Schedule.Saved.{load_actions-save_entries}

abbrev file_write : Bytes → Bytes → Option Bytes
file_write file s = some (file ++ s)

file_write-Appends : Appends file_write
unfolding Appends
file_write-Appends file s = refl

-- An address that cannot be printed or read does not occur here.
abbrev nowhere : Url
nowhere = record {
  host = [];
  path = [];
  file = [];
  params = [];
  user = [];
  pass = [];
  tag = [];
  proto = proto_http;
  port = 80;
  mask = false;
}

abbrev page : Url
page = record nowhere { host = codes "d4x.net"; path = codes "/doc"; file = codes "faq" }

abbrev text_of : Url → Bytes
text_of u = elim (print_url 9 u) [ none ↦ [] | some text ↦ text ]

abbrev url_of : Bytes → Url
url_of s = elim (read_url (scan_digits 0) 9 s) [ none ↦ nowhere | some u ↦ u ]

abbrev address_lines : Url → List Bytes
address_lines d = codes "URL:" ∷ text_of d ∷ codes "EndDownload:" ∷ []

abbrev formats : Formats Url Url
formats = record {
  url_text = text_of;
  text_url = url_of;
  new_url = nowhere;
  save_download = λ d file. file ++ put (codes "Download:" ∷ address_lines d) [];
  load_download = λ old file.
      let address = f_rstr max_len (f_rstr max_len file).rest in
      record {
        ok = true;
        download = url_of address.text;
        rest = (f_rstr max_len address.rest).rest;
      };
  garbage = 77;
}

formats-Reads : Reads formats
unfolding fits line put
formats-Reads = record {
  kept = λ d. fits 4047 (text_of d);
  body = address_lines;
  again = λ d. url_of (text_of d);
  save = λ d file. refl;
  load = λ d rest k.
      rw
        (
          f_rstr-put (codes "URL:") (text_of d ∷ codes "EndDownload:" ∷ []) rest refl,
          f_rstr-put (text_of d) (codes "EndDownload:" ∷ []) rest k,
          f_rstr-put (codes "EndDownload:") [] rest refl,
        )
        refl;
}

page_text : text_of page ≡ codes "http://d4x.net/doc/faq"
unfolding print_url hexed_string
page_text = refl

-- The address that is loaded has a slash more.
slash_more : url_of (text_of page) ≡ record page { path = codes "//doc" }
unfolding print_url hexed_string read_url unhexed_string begin_string
slash_more = refl

page-IsText : IsText formats (text_of page)
unfolding IsText fits equal_uncase lower
page-IsText = rw page_text (refl, refl)

abbrev entries : List (Entry Url Url)
entries =
    record { start_time = 100; period = 60; retries = unlimited; task = run_download page }
    ∷ record { start_time = 250; period = 0; retries = left 3; task = set_speed 2 }
    ∷ record { start_time = 300; period = 5; retries = left 0; task = add_download (some page) }
    ∷ []

load_actions-save_entries_example :
    (file : Bytes) × (save_entries formats file_write entries [] ≡ some file)
    × (load_actions formats 4 (suc (four_more 0)) file
        ≡ some (map (reread_entry formats formats-Reads) entries))
unfolding InRange Storable IsText print_retries print_number digits fits formats-Reads
load_actions-save_entries_example =
    load_actions-save_entries formats file_write formats-Reads file_write-Appends 4 0 entries
      (
        (omega arith, omega arith, refl),
        ((omega arith, omega arith, refl), ((omega arith, omega arith, refl), tt)),
      )
      (page-IsText, (omega arith, (page-IsText.0, tt))) (omega arith)
