-- ===== src/Libs.antt =====
-- What the program calls outside this repository and inside the standard library's parsers, as
-- functions: paho's `topic_matches_sub`, `datetime.fromisoformat`, `urlparse`, `urljoin`,
-- `json.loads`, `str.lower` and the printing of JSON values. Nothing is assumed of them; `none` is the ValueError that they raise.
use scgrep.Prelude.{ℕ, ℤ, Bool, Option}
use scgrep.Text.{Text}
use scgrep.Json.{Json}

-- A parsed timestamp: its fields read as microseconds since 1970-01-01, and its offset from UTC,
-- `none` where the timestamp is naive.
pub record Moment : Type 0 where
  pub micros : ℤ
  pub utc_offset : Option ℤ

-- `parsed.port`: absent, a number from 0 to 65535, or an attribute whose reading raises ValueError.
pub data Port : Type 0 where
  absent invalid : Port
  given : ℕ → Port

pub record Url : Type 0 where
  pub scheme : Text
  pub hostname : Option Text
  pub port : Port
  pub username : Option Text
  pub password : Option Text

pub record Libs : Type 0 where
  pub topic_matches_sub : Text → Text → Bool
  pub fromisoformat : Text → Option Moment
  pub urlparse : Text → Option Url
  pub urljoin : Text → Text → Option Text
  -- str.lower
  pub lower : Text → Text
  pub json_loads : Text → Option Json
  -- strftime of an instant as a UTC time of whole seconds, `YYYY-MM-DDThh:mm:ssZ`
  pub strftime : ℤ → Text
  -- str(v) of a value that is not a string
  pub repr : Json → Text
