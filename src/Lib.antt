-- ===== src/Lib.antt =====
-- Downloader for X (d4x): a download manager that fetches files over HTTP and FTP in several
-- parts at a time. This library models the parts of main/ whose behaviour does not come from
-- the GUI toolkit, the network or the operating system.
--
-- The parts, and how they work together. While a file is downloaded in parts, the program keeps
-- in a segmentator the zones of it that are there already, and saves them behind the file, so
-- that an interrupted download can go on with the holes. Downloads, cookies and speed meters
-- are found by trees of one class, the sort tree. Addresses pass filters, which are lists of
-- rules with masks. The main loop keeps the downloads of a queue in lists by what they do -
-- wait, run, stop, have failed, are complete - and moves them as the user commands and as their
-- threads end; other threads leave it lists of the downloads to draw again and of those that
-- have ended. The scheduler starts actions at their times and keeps them in a text file.
-- Passwords go to servers in Base64, and file names are escaped with hexadecimal digits.
--
-- - Downloads.antt, main/dqueue.cc and main/dlist.cc: the lists of a queue.
--   Downloads/Rules.antt, main/face/passface.cc: the rules that limit how many downloads run
--   from a site. Downloads/Moves.antt, Downloads/Events.antt and Downloads/Lists.antt,
--   main/main.cc: tMain, by download, by event and by list. Downloads/Reach.antt makes the
--   operations the steps of a relation; its siblings Owned, Steps, Ends and Commands prove what
--   all steps keep, Limit, Starts, Ruled, Counter, Whole and Rerun what single ones do.
-- - MainLoop.antt, main/main.cc: main_circle_nano1 and main_circle_nano2, which join the lists
--   of Update.antt with the operations of Downloads/Events.antt.
-- - Paths.antt, main/path.cc: d4x::Path with its normalize; Paths/Loop.antt is about the end of
--   its loop, Paths/Tame.antt about the paths that it leaves alone. Addresses.antt and
--   Addresses/Reading.antt, main/addr.cc: d4x::URL, its output and its input.
--   Addresses/Find.antt, Addresses/Slashes.antt, Addresses/Saved.antt and
--   Addresses/Printed.antt lead to what becomes of an address that is read and printed;
--   Addresses/Compare.antt is about equality and the protocols.
-- - Update.antt, main/dqueue.cc: d4xDUpdate, whose two lists are fields of the downloads.
--   Update/Chain.antt and Update/Removal.antt are about neighbours in a list,
--   Update/Redraw.antt and Update/Stopped.antt about the two lists.
-- - Segments.antt, main/segments.cc and main/segments.h: tSegmentator. The chain from FIRST
--   along `next` is a list of segments; `total` and the counter of the autosave are fields; the
--   file is the list of its segments. Offsets are of 64 bits and wrap around. Its children
--   prove the order of the chain (Canonical), what it covers (Cover), the whole operations
--   (State), the holes (Holes) and the file (Store).
-- - SortTree.antt, main/sort.cc and main/sort.h: tAbstractSortTree, generic over the objects
--   and their `cmp`, which the record IsOrder describes; tSortNode is its instance.
-- - Mask.antt, main/locstr.cc: check_mask, check_mask2 and check_mask2_uncase, against the
--   language of a mask as an inductive relation (Mask/Matches.antt).
-- - Filter.antt, main/filter.cc and main/filter.h: rules, filters, and the filters with names.
-- - Base64.antt, main/base64.cc: the encoder, with a decoder in Base64/RoundTrip.antt to state
--   its round trip.
-- - Hex.antt, main/locstr.cc: hexed_string, unhexed_string, parse_percents and
--   unparse_percents.
-- - TextFile.antt, main/locstr.cc: reading and writing lines; Decimal.antt: the numbers in
--   them.
-- - Scheduler.antt, main/schedule.cc: the list of actions in the order of their times, with
--   add_action, del_action and clear_old.
-- - Schedule.antt and Schedule/Files.antt, main/schedule.cc and main/savedvar.cc: the kinds of
--   actions and their file, with load and save; the class of the URLs and that of the downloads
--   are parameters. Schedule/Lines.antt, Schedule/RoundTrip.antt, Schedule/Loaded.antt and
--   Schedule/Saved.antt prove the round trip.
-- - Queue.antt, main/queue.cc: tQueue, the linked queue with a limit that is behind the lists
--   of the program; Queue/Limit.antt is about its limit, Queue/Members.antt about its nodes.
-- - Queue/Sort.antt, main/queue.cc: tQueue::sort; Queue/Rank.antt and Queue/Sorted.antt are
--   about its end and its result.
-- - Xml.antt and Xml/Tags.antt, main/xml.cc: the reader of the XML files with the themes and
--   the key bindings, in its byte level and its tags; Xml/Printed.antt the printer,
--   Xml/Names.antt the search for objects by their names. Xml/Ends.antt, Xml/Enough.antt and
--   Xml/Total.antt are about the end of the reader, Xml/Texts.antt, Xml/Tame.antt,
--   Xml/Reread.antt and Xml/RoundTrip.antt about reading what was printed, Xml/Leads.antt and
--   Xml/Walk.antt about paths.
-- - Cookies.antt and Cookies/Files.antt, main/cookie.cc: the cookies as objects of the sort
--   tree (Cookies/Order.antt), the searches, and the file. Cookies/Passed.antt is about what
--   the searches pass, Cookies/Exact.antt about find_exact, Cookies/Once.antt about the tree
--   that a file gives, Cookies/Words.antt, Cookies/Saved.antt and Cookies/RoundTrip.antt about
--   saved cookies.
-- - Speed.antt, main/speed.cc: Speed and the rounds in which SpeedQueue shares the bandwidth,
--   over the integers of Prelude/Int.antt; Speed/Shares.antt and Speed/Bounds.antt are about
--   what a round gives out.
-- - Strings.antt, main/locstr.cc: equal, equal_first, begin_string, string_to_low,
--   string_ended, sum_strings, int_to_strin_len and str_replace.
-- - Prelude.antt: the names that all share, texts as lists of bytes, tests and words of 64
--   bits.
--
-- Conventions. A C string is the list of its bytes without the zero behind it. A pointer that
-- can be NULL is an Option. Objects of classes that are only linked are values in a list or
-- tree, and carry their address where the code compares addresses. Times are natural numbers,
-- since the program uses none below zero; the bytes of a speed limit are integers; `retries` is
-- a type of its own, with one value for all numbers below zero. The C library's atoi and its
-- tolower, where the locale matters, and the system's write are parameters.
--
-- Fuel. The loops over a file and the loop that puts off an action take a number of rounds,
-- with `none` when it does not suffice. For clear_old the theorem on its end says how many
-- rounds are enough; for the load of the schedule one round for each action and one for the
-- end, and five for the lines of an action, are enough. The loops of main.cc that take the
-- first download of a list until there is none take a number of rounds; for stop_all and
-- rerun_failed theorems say that the length of the list suffices. Path::normalize takes a
-- number of rounds too, and a theorem says that the length of the path decides whether it ends.
-- The XML reader gives the readers of tags, fields and bodies as many rounds as bytes are left
-- of the file, and one more; a theorem says that they are enough for every file. The loop of
-- tQueue::sort and the one that loads cookies take a number of rounds, and theorems say how
-- many are enough; find_exact takes the number of the nodes of its tree. All other loops run
-- along the list or the tree that they walk.
--
-- Not modelled: the windows (main/face), which are calls of GTK; sockets, protocols and
-- threads; the copy of GNU gettext (intl) and the translations; and, of the logic, what is
-- built on the queue of nodes, the configuration and the pages of HTML. Of the speed limits the
-- locks on which downloads wait are not modelled, nor the way from a queue to its downloads. Of
-- the cookies, reading one from the header of a server is not modelled, since it needs the
-- calendar of the C library, nor the search for the files of the browsers. Of the queues of
-- downloads, downloads in parts, redirects, alternates and queues within queues are not
-- modelled, nor what a rule does when it is edited. Of the segmentator truncate is not
-- modelled, of the queue of nodes the moves of Curent, and of the scheduler run.
pub mod Addresses
pub mod Base64
pub mod Cookies
pub mod Decimal
pub mod Downloads
pub mod Filter
pub mod Hex
pub mod MainLoop
pub mod Mask
pub mod Paths
pub mod Prelude
pub mod Queue
pub mod Schedule
pub mod Scheduler
pub mod Segments
pub mod SortTree
pub mod Speed
pub mod Strings
pub mod TextFile
pub mod Update
pub mod Xml
