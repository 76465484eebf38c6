-- ===== src/Store/Address.antt =====
-- `_parse_redis_url` of scgrep/redis_store.py.
use scgrep.Prelude.{ℤ, pos, none, some, [], ◌∷◌, ◌==◌, if◌then◌else◌, is_empty}
use scgrep.Text.{Text, codes, contains}
use scgrep.Result.{Result, ok, err}
use scgrep.Libs.{Libs, Url, absent, invalid, given}
use scgrep.Util.{Fault, value_error}
use scgrep.Fetch.Integer.{parse_int}

-- url.partition(":"), without the separator
partition : Text → Text × Text
partition [] = ([], [])
partition (x ∷ text) =
    let (before, after) = partition text in if x == b':' then ([], text) else (x ∷ before, after)

-- `host or "redis"`
abbrev host_or : Text → Text
host_or host = if is_empty host then codes "redis" else host

-- A full URL, once it is parsed.
url_address : Url → Result Fault (Text × ℤ)
url_address url =
    let host : Text = elim url.hostname [ none ↦ codes "redis" | some h ↦ host_or h ] in
    elim url.port [
      | absent ↦ ok (host, pos 6379)
      | invalid ↦ err value_error
      | given n ↦ ok (host, if n == 0 then pos 6379 else pos n)
    ]

plain_address : Text × Text → Result Fault (Text × ℤ)
plain_address (host, port) =
    if is_empty port
    then ok (host_or host, pos 6379)
    else elim (parse_int port) [ none ↦ err value_error | some n ↦ ok (host_or host, n) ]

-- _parse_redis_url
unfoldable pub parse_redis_url : Libs → Text → Result Fault (Text × ℤ)
unfolding partition url_address plain_address
parse_redis_url libs url =
    if contains (codes "://") url
    then elim (libs.urlparse url) [ none ↦ err value_error | some parsed ↦ url_address parsed ]
    else plain_address (partition url)
