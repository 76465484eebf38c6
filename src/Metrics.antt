-- ===== src/Metrics.antt =====
-- scgrep/metrics.py: the series that a cycle writes, with their names and labels, and the application
-- that serves them. A counter refuses to be lowered, as prometheus_client documents (ValueError), which
-- stands as a fault here.
pub mod Published
use scgrep.Prelude.{
  ℕ, ◌+◌, ℤ, pos, pos_part, ltb_ℤ, Bool, true, false, ◌&&◌, Option, none, some, List, [], ◌∷◌, ◌++◌,
  if◌then◌else◌,
}
use scgrep.Text.{Text, codes, text_eq}
use scgrep.Result.{Result, ok, err, ◌>>=◌}
use scgrep.Util.{Fault, value_error}
use scgrep.Fetch.{Protocol, http, mqtt}
use scgrep.Cycle.{
  Labels, Gauge, test_aborted, response_invalid_format, fetch_delay, http_response_code,
  response_invalid_number_matched, Write, set_gauge, inc_received, inc_fetched,
}

abbrev metric_prefix : Text
metric_prefix = codes "wmo_wis2_scgrep_"

-- The names under which the gauges are declared.
unfoldable pub gauge_name : Gauge → Text
gauge_name test_aborted = metric_prefix ++ codes "test_aborted_flag"
gauge_name fetch_delay = metric_prefix ++ codes "fetch_delay_time"
gauge_name response_invalid_format = metric_prefix ++ codes "response_invalid_format_flag"
gauge_name response_invalid_number_matched =
    metric_prefix ++ codes "response_invalid_numberMatched_flag"
gauge_name http_response_code = metric_prefix ++ codes "http_response_code_value"

abbrev pub same_protocol : Protocol → Protocol → Bool
same_protocol http http = true
same_protocol mqtt mqtt = true
same_protocol _ _ = false

abbrev pub same_labels : Labels → Labels → Bool
same_labels a b =
    text_eq a.report_by b.report_by
    && text_eq a.centre_id b.centre_id
    && text_eq a.topic b.topic
    && same_protocol a.protocol b.protocol

-- The values of the series: messages_received by report_by and topic, messages_fetched by the four
-- labels, and the gauges by name and labels, which have no value until they are set.
pub record Metrics : Type 0 where
  pub messages_received : Text → Text → ℕ
  pub messages_fetched : Labels → ℕ
  pub gauge : Text → Labels → Option ℤ

-- What prometheus_client documents of inc and set: inc adds, and raises ValueError for a negative
-- number; set replaces the value.
pub apply_write : Write → Metrics → Result Fault Metrics
apply_write (inc_received report_by topic n) m = ok (record m {
  messages_received = λ r t.
      if text_eq report_by r && text_eq topic t
      then m.messages_received r t + n
      else m.messages_received r t;
})
apply_write (set_gauge g labels n) m = ok (record m {
  gauge = λ name l.
      if text_eq (gauge_name g) name && same_labels labels l then some n else m.gauge name l;
})
apply_write (inc_fetched labels n) m =
    if ltb_ℤ n (pos 0)
    then err value_error
    else ok (record m {
      messages_fetched = λ l.
          if same_labels labels l then m.messages_fetched l + pos_part n else m.messages_fetched l;
    })

-- The writes of a cycle, one after the other.
pub apply_writes : List Write → Metrics → Result Fault Metrics
apply_writes [] m = ok m
apply_writes (w ∷ writes) m = do next ← apply_write w m; apply_writes writes next

-- _build_app: the status and whether the metrics are served; a request without a path asks for `/`.
unfoldable pub app : Text → Option Text → Text × Bool
app endpoint path =
    let asked : Text = elim path [ none ↦ codes "/" | some p ↦ p ] in
    if text_eq asked endpoint then (codes "200 OK", true) else (codes "404 Not Found", false)
