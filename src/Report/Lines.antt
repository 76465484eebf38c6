-- ===== src/Report/Lines.antt =====
-- The lines of the log: as scgrep/mqtt_client.py, scgrep/replay_tester.py and scgrep/test_cycle.py
-- write them through the formatter of scgrep/main.py, and the patterns with which
-- scripts/replay_loss_report.py reads them.
use scgrep.Prelude.{ℕ, Bool, not, List, [], ◌∷◌, ◌++◌}
use scgrep.Text.{Text, codes, is_space}
use scgrep.Report.Pattern.{Piece, literal, run, choice}

-- `\S`
abbrev pub is_solid : ℕ → Bool
is_solid x = not (is_space x)

-- "%(asctime)s %(levelname)s [%(name)s] %(message)s" of an INFO record
abbrev pub log_line : Text → Text → Text → Text
log_line asctime name message = asctime ++ (codes " INFO [" ++ (name ++ (codes "] " ++ message)))

abbrev pub broker_message : Text → Text → Text → Text
broker_message topic msg_id time_value =
    codes "Global Broker message: topic="
    ++ (topic ++ (codes " id=" ++ (msg_id ++ (codes " time=" ++ time_value))))

abbrev pub replay_message : Text → Text → Text → Text → Text → Text
replay_message kind centre_id topic msg_id time_value =
    codes "Replay message ("
    ++ (kind
        ++ (codes "): centre_id="
            ++ (centre_id
                ++ (codes " topic="
                    ++ (topic ++ (codes " id=" ++ (msg_id ++ (codes " time=" ++ time_value))))))))

-- How a message was replayed.
pub data Kind : Type 0 where
  synchronous asynchronous : Kind

abbrev pub kind_text : Kind → Text
kind_text synchronous = codes "synchronous"
kind_text asynchronous = codes "asynchronous"

-- BASELINE_RE; its groups are the topic, the id and the time.
abbrev pub baseline_pattern : List Piece
baseline_pattern =
    literal (codes "Global Broker message: topic=")
    ∷ run is_solid
    ∷ literal (codes " id=")
    ∷ run is_solid
    ∷ literal (codes " time=")
    ∷ run is_solid
    ∷ []

-- REPLAY_RE; its groups are the kind, the centre (which the source leaves unnamed), the topic, the id
-- and the time.
abbrev pub replay_pattern : List Piece
replay_pattern =
    literal (codes "Replay message (")
    ∷ choice (codes "synchronous") (codes "asynchronous")
    ∷ literal (codes "): centre_id=")
    ∷ run is_solid
    ∷ literal (codes " topic=")
    ∷ run is_solid
    ∷ literal (codes " id=")
    ∷ run is_solid
    ∷ literal (codes " time=")
    ∷ run is_solid
    ∷ []
