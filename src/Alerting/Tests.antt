-- ===== src/Alerting/Tests.antt =====
-- A witness of the theorem on alerts.
use tdcs.Prelude.{◌≡◌, none, List, [], ◌∷◌, map, All, Bool, true, ◌==◌, if◌then◌else◌}
use tdcs.Prelude.Text.{codes, codes_eq}
use tdcs.Alerting.{Parsing, ChannelConfig, Channel, Alerter, Alert, channels_of, send_alert}
use tdcs.Alerting.Channels.{IsSafe, send_alert-IsSafe}

-- knows one URL
abbrev parsing : Parsing
parsing = record {
  urlparse = λ url.
      if url == codes "https://hooks.slack.com/x"
      then record { scheme = "https"; hostname = codes "hooks.slack.com" }
      else record { scheme = "http"; hostname = codes "localhost" };
  ip_packed = λ host. none;
}

abbrev configs : List ChannelConfig
configs =
    record { kind = "webhook"; webhook = codes "https://hooks.slack.com/x"; secret = [] }
    ∷ record { kind = "dingtalk"; webhook = codes "http://localhost/"; secret = [] }
    ∷ []

abbrev alert : Alert
alert = record { title = codes "t"; message = codes "m"; level = "error" }

abbrev fails : Channel → Bool
fails ch = true

send_alert-IsSafe_example :
    let a : Alerter = record {
      enabled = true;
      quality_score_min = 60;
      channels = channels_of parsing configs;
    } in
    (map (λ t. t.0) (send_alert fails alert a) ≡ (if true then channels_of parsing configs else []))
    × All (λ t. IsSafe parsing t.0) (send_alert fails alert a)
send_alert-IsSafe_example = send_alert-IsSafe parsing configs true 60 fails alert
