-- ===== src/Lib.antt =====
-- A model of the core of browserhistory, a tool that reads, analyzes and exports a browser's
-- history.
--
-- The program is a set of C modules under c/ that a command line (c/brave_history.c) calls. Seven
-- of them are modelled, each by a folder:
--   * Session: c/session_tracker.c and c/session_tracker.h, the session analyzer. It consumes tab
--     events, which session_parse_events reads from bytes, and keeps sessions of tabs.
--   * Url: c/url_parser.c and c/url_parser.h, the URL parser, whose results the categorizers and the
--     domain statistics use.
--   * Trie: c/domain_trie.c and c/domain_trie.h, the domain trie, which the statistics of domains use.
--   * Search: c/search_engine.c and c/search_engine.h, the query language and the ranked search over
--     the entries of a history.
--   * Csv: c/csv_import.c, c/csv_import.h and c/export_csv.c, which read and write a history as CSV.
--   * Config: c/config_parser.c and c/config_parser.h, the configuration of the program.
-- History is the entry of c/history_db.h that Search, Csv and the session analyzer work on. Prelude
-- holds what they share: tests on numbers, lists over the native numbers, integers, C strings;
-- Strings is what they call of the C library on strings.
--
-- Session/Tab is a tab with its navigation history: tab_create, tab_navigate, tab_go_back and
-- tab_go_forward. `nav_history` lists the `nav_count` live entries of the C array. Session/Store is
-- a session: session_create, session_find_tab (find_tab), session_add_tab, session_close_tab and
-- compute_state_transition. Session/Tracker is session_tracker_process_event (process_event), cut
-- along its stages: event_time, need_new_session, start_session, dispatch with a function for each
-- case of the switch, and settle. The array `sessions` of the C struct is `finished` followed by
-- the current session. Session/Wire is session_parse_events. Session/Analyze is
-- session_tracker_analyze, which feeds the entries of c/history_db.h to the tracker, and
-- session_tracker_compute_stats.
--
-- Url/Chars and Url/Percent are the character classes, url_percent_decode and url_percent_encode;
-- Url/Utf8 is url_validate_utf8; Url/Host is parse_ipv4 and detect_ipv6_bracket; Url/Parse is
-- extract_scheme, parse_authority and url_parse; Url/Segments is normalize_path_segments,
-- remove_duplicate_slashes and decode_unreserved_percent; Url/Normalize is url_normalize; Url/Query
-- is url_parse_query_params; Url/Domain is url_extract_domain; Url/Print is url_reconstruct.
--
-- Trie is trie_insert, trie_lookup, trie_aggregate and trie_unique_count, with a node and the list
-- of its children in one mutual block; Trie/TopK is trie_top_k. The in-place loop of trie_insert is
-- insert_path, which rebuilds the path. The counts that propagate_subtree_counts stores are
-- computed where they are read. How many nodes can still be allocated is an argument.
-- Trie/Serialize is trie_serialize and trie_deserialize, on the list of the buffer's bytes;
-- Trie/Compact is trie_compact.
--
-- Search/Substring is search_strcasestr; Search/Query is parse_token and search_parse_query;
-- Search/Matching is search_regex_match, passes_filters and term_matches; Search/Score is
-- search_compute_score, with single precision numbers counted in units of 2 ^ -28 and rounded after
-- each sum; Search/Execute is search_execute, cut into the loop over the terms (evaluate_from), the
-- loop over the entries (collect) and the insertion sort (sort_hits).
--
-- Csv/Row is csv_parse_row; Csv/Delimiter is csv_skip_bom and csv_detect_delimiter; Csv/Date is
-- csv_detect_date_format and csv_parse_date; Csv/Columns is match_column_name, detect_columns and
-- detect_has_header; Csv/Encoding is latin1_to_utf8 and fix_field_encoding; Csv/Import is
-- ensure_capacity and import_csv_buffer; Csv/Write is csv_write_field and export_csv_stream, as the
-- bytes they write.
--
-- Config/Expand is config_expand_env; Config/Value is detect_type, parse_bool and the coercion of an
-- entry; Config/Text is the line buffer with its continuations, quotes and comments; Config/Lookup is
-- find_entry and the getters; Config/Parse is parse_buffer_internal and config_parse_buffer, where
-- an included file is read by the parser with one level less of fuel; Config/Schema is
-- config_validate, which returns the message it stores, and config_apply_defaults.
--
-- How the code is read. A char array is the list of its bytes before the NUL; strncpy into a
-- field is copy_into. Which allocations succeed is an argument, the record Alloc, that the
-- theorems quantify over. Times are microseconds; `int` and `long long` have no bound, so that
-- overflow of counters and times is not covered, but for the negation in session_parse_events,
-- which wraps around. A difference of two times is compared without the subtraction.
-- `duration_minutes`, a float, is kept as `duration_seconds`, 60 times as much. The counters
-- that session_tracker_compute_stats fills are a record of their own, Stats, in which totals
-- stand for the averages. qsort is a parameter, and so are the regular expressions of POSIX, the
-- time of day, and gmtime with strftime, getenv, the contents of included files, and the
-- conversions of floats in the configuration. The regular expressions are those of the builds
-- that are not for Windows. Counts of URLs and visits are not negative. ctype is that of the C
-- locale. url_parse is modelled for a text with no NUL of which `len` is the length. In
-- url_reconstruct the buffer is its text, the offset of the write pointer, and whether a write
-- has gone past the end. In search_execute a write behind the array `hits` ends the model's run.
--
-- Loops are recursion on the text or the list they run over. Some have fuel: url_validate_utf8
-- the number of bytes, of which each round takes at least one; the printed number ten digits, as
-- many as an `int` has; session_parse_events the number of slots, which bounds the loop of the
-- code itself; search_parse_query and the rows of import_csv_buffer the length of the text,
-- which is shown to be enough; deserialize_node the nineteen levels that the code itself allows;
-- parse_buffer_internal nine levels of inclusion, which are shown to be enough.
--
-- Not modelled: allocation itself and the destructors; the opening and reading of files, as in
-- import_csv, export_csv and config_parse; what is printed to the terminal; the other C
-- modules, among them the importer of bookmarks, the categorizers and the writers of JSON,
-- Markdown, HTML and PDF; SQLite in c/vendor; the fuzzers, the scripts and the extension.
pub mod Prelude
pub mod Config
pub mod Csv
pub mod History
pub mod Search
pub mod Session
pub mod Strings
pub mod Trie
pub mod Url
