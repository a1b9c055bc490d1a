-- ===== src/Alerting.antt =====
-- `Alerter` and its channels, of src/monitoring/alerting.py. What `urlparse` and `ipaddress` read from
-- a text, and whether a request to a channel raises, come from outside.
pub mod Channels
mod Tests
use tdcs.Prelude.{
  ℕ, String, Option, none, some, List, [], ◌∷◌, ◌++◌, any, Bool, true, false, not, ◌&&◌, ◌||◌, ltb,
  ◌==◌, text_eq, if◌then◌else◌,
}
use tdcs.Prelude.Text.{Text, codes, codes_eq, leb_text}
use tdcs.Archive.FilePath.{basename}

-- what `urlparse` gives; `hostname or ''`
pub record Url : Type 0 where
  pub scheme : String
  pub hostname : Text

pub record Parsing : Type 0 where
  pub urlparse : Text → Url
  pub ip_packed : Text → Option (List ℕ)

-- _ALLOWED_WEBHOOK_DOMAINS
abbrev pub allowed_domains : List Text
allowed_domains =
    codes "qyapi.weixin.qq.com"
    ∷ codes "oapi.dingtalk.com"
    ∷ codes "hooks.slack.com"
    ∷ codes "discord.com/api/webhooks"
    ∷ []

-- `search`: `$` also stands before a newline at the end
unfoldable pub is_allowed : Text → Bool
is_allowed host = any (λ d. host == d || host == d ++ 10 ∷ []) allowed_domains

abbrev pub blocked_hosts : List Text
blocked_hosts =
    codes "127.0.0.1"
    ∷ codes "localhost"
    ∷ codes "0.0.0.0"
    ∷ codes "::1"
    ∷ codes "169.254.169.254"
    ∷ codes "metadata.google.internal"
    ∷ []

abbrev pub blocked_nets : List (List ℕ × List ℕ)
blocked_nets =
    (10 ∷ 0 ∷ 0 ∷ 0 ∷ [], 10 ∷ 255 ∷ 255 ∷ 255 ∷ [])
    ∷ (172 ∷ 16 ∷ 0 ∷ 0 ∷ [], 172 ∷ 31 ∷ 255 ∷ 255 ∷ [])
    ∷ (192 ∷ 168 ∷ 0 ∷ 0 ∷ [], 192 ∷ 168 ∷ 255 ∷ 255 ∷ [])
    ∷ []

-- bytes are compared as texts are
abbrev pub is_private : List ℕ → Bool
is_private ip = any (λ net. leb_text net.0 ip && leb_text ip net.1) blocked_nets

-- Whether the body of the `try` raises ValueError, which its handler passes over in both cases.
abbrev pub ip_check_raises : Option (List ℕ) → Bool
ip_check_raises none = true
ip_check_raises (some ip) = is_private ip

abbrev pub after_ip_check : Bool → Bool → Bool
after_ip_check raised rest = rest

-- `_validate_webhook_url`: it returns, or raises ValueError
unfoldable pub validate_webhook_url : Parsing → Text → Bool
unfolding is_allowed
validate_webhook_url parsing url =
    let parsed = parsing.urlparse url in
    if not (parsed.scheme == "https")
    then false
    else if any (λ h. h == parsed.hostname) blocked_hosts
    then false
    else after_ip_check (ip_check_raises (parsing.ip_packed parsed.hostname))
        (is_allowed parsed.hostname)

-- the fields of a channel of the configuration
pub record ChannelConfig : Type 0 where
  pub kind : String
  pub webhook : Text
  pub secret : Text

pub data Channel : Type 0 where
  webhook_channel : Text → Text → Bool → Channel
  dingtalk_channel : Text → Text → Channel

-- `_CHANNEL_TYPES.get(ch.type)` and the call of the class
abbrev pub make_channel : ChannelConfig → Option Channel
make_channel ch =
    if ch.kind == "webhook" || ch.kind == "wecom"
    then some (webhook_channel ch.webhook ch.secret (ch.kind == "wecom"))
    else if ch.kind == "dingtalk"
    then some (dingtalk_channel ch.webhook ch.secret)
    else none

-- the channel is appended, or its kind is unknown
abbrev pub append_made : Option Channel → List Channel → List Channel
append_made none rest = rest
append_made (some channel) rest = channel ∷ rest

-- `Alerter.__init__`
unfoldable pub channels_of : Parsing → List ChannelConfig → List Channel
unfolding validate_webhook_url
channels_of parsing [] = []
channels_of parsing (ch ∷ chs) =
    let rest = channels_of parsing chs in
    if validate_webhook_url parsing ch.webhook then append_made (make_channel ch) rest else rest

pub record Alerter : Type 0 where
  pub enabled : Bool
  pub quality_score_min : ℕ
  pub channels : List Channel

-- a message, with its level
pub record Alert : Type 0 where
  pub title : Text
  pub message : Text
  pub level : String

-- One attempt at a channel: the alert, and whether `send` raised.
abbrev pub Attempt : Type 0
Attempt = Channel × Alert × Bool

abbrev pub send_each : (Channel → Bool) → Alert → List Channel → List Attempt
send_each raises alert [] = []
send_each raises alert (ch ∷ chs) = (ch, alert, raises ch) ∷ send_each raises alert chs

-- `send_alert`; scores and thresholds are whole numbers here
unfoldable pub send_alert : (Channel → Bool) → Alert → Alerter → List Attempt
send_alert raises alert a = if a.enabled then send_each raises alert a.channels else []

-- `check_quality_alert`; `show` is the formatting of the two numbers
unfoldable pub check_quality_alert :
    (ℕ → Text) → (Channel → Bool) → Text → ℕ → Alerter → List Attempt
unfolding send_alert
check_quality_alert show raises task_id score a =
    if ltb score a.quality_score_min
    then send_alert raises
        (record {
          title = codes "数据质量低: " ++ task_id;
          message = codes "质量评分 " ++ (show score ++ (codes " < 阈值 " ++ show a.quality_score_min));
          level = "warning";
        })
        a
    else []

unfoldable pub notify_pipeline_failure :
    (Channel → Bool) → Text → Text → Text → Alerter → List Attempt
unfolding send_alert
notify_pipeline_failure raises task_id file_path error a =
    send_alert raises
      (record {
        title = codes "文件处理失败: " ++ task_id;
        message = codes "文件: " ++ (basename file_path ++ (codes "\n错误: " ++ error));
        level = "error";
      })
      a

unfoldable pub notify_dead_letter : (Channel → Bool) → Text → Text → Alerter → List Attempt
unfolding send_alert
notify_dead_letter raises task_id file_path a =
    send_alert raises
      (record {
        title = codes "文件进入死信: " ++ task_id;
        message = codes "已超过最大重试次数，文件移入死信目录\n" ++ basename file_path;
        level = "error";
      })
      a
