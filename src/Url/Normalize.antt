-- ===== src/Url/Normalize.antt =====
-- c/url_parser.c, url_normalize.
use browserhistory.Prelude.{Bool, ◌&&◌, ◌||◌, [], ◌∷◌, if◌then◌else◌}
use browserhistory.Prelude.Int.{ℤ, minus_one, is_nat}
use browserhistory.Prelude.Text.{Bytes, codes, is_nonempty, str_eq}
use browserhistory.Url.Parse.{ParsedUrl, lowercase}
use browserhistory.Url.Segments.{
  remove_duplicate_slashes, normalize_path_segments, decode_unreserved_percent,
}

abbrev pub http : Bytes
http = codes "http"

abbrev pub https : Bytes
https = codes "https"

abbrev pub ftp : Bytes
ftp = codes "ftp"

unfoldable pub is_default_port : Bytes → ℤ → Bool
is_default_port scheme port =
    str_eq scheme http && is_nat port 80
    || str_eq scheme https && is_nat port 443
    || str_eq scheme ftp && is_nat port 21

unfoldable pub normalized_path : ParsedUrl → Bytes
normalized_path url =
    if is_nonempty url.path
    then decode_unreserved_percent (normalize_path_segments (remove_duplicate_slashes url.path))
    else if is_nonempty url.host
    then b'/' ∷ []
    else []

unfoldable pub url_normalize : ParsedUrl → ParsedUrl
url_normalize url = record url {
  scheme = lowercase url.scheme;
  host = lowercase url.host;
  port = if is_default_port (lowercase url.scheme) url.port then minus_one else url.port;
  path = normalized_path url;
  query = decode_unreserved_percent url.query;
}
