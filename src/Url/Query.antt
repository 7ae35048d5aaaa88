-- ===== src/Url/Query.antt =====
-- c/url_parser.c, url_parse_query_params.
use browserhistory.Prelude.{ℕ, true, not, map, ◌==◌, if◌then◌else◌, length, take, drop}
use browserhistory.Prelude.Text.{Bytes, copy_into, is_nonempty, span}
use browserhistory.Url.Parse.{ParsedUrl, QueryParam}
use browserhistory.Url.Percent.{url_percent_decode}
use browserhistory.Url.Segments.{tokens}

abbrev pub key_size : ℕ
key_size = 256

abbrev pub value_size : ℕ
value_size = 512

abbrev pub max_params : ℕ
max_params = 64

-- The decoder's result is not looked at: after an error the field holds what it left.
abbrev field : ℕ → Bytes → Bytes
field size s = (url_percent_decode (copy_into size s) true).0

unfoldable pub parse_pair : Bytes → QueryParam
parse_pair pair =
    let (key, rest) = span (λ c. not (c == b'=')) pair in
    record { key = field key_size key; value = field value_size (drop 1 rest) }

-- The count returned is the length of the new `params`; with no query nothing is changed.
unfoldable pub url_parse_query_params : ParsedUrl → ParsedUrl × ℕ
url_parse_query_params url =
    let params = map parse_pair (take max_params (tokens b'&' (copy_into 4096 url.query))) in
    if is_nonempty url.query then (record url { params = params }, length params) else (url, 0)
