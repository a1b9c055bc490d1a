-- ===== src/Alerting/Channels.antt =====
-- Where alerts are sent.
use tdcs.Prelude.{
  ℕ, ◌≡◌, refl, ap, inl, inr, none, some, List, [], ◌∷◌, map, any, All, Bool, true, false, not,
  ◌||◌, ◌==◌, text_eq, eq_iff, if◌then◌else◌, arith, Bool-cases,
}
use tdcs.Prelude.Text.{Text, codes_eq}
use tdcs.Alerting.{
  Parsing, Url, is_allowed, blocked_hosts, validate_webhook_url, ChannelConfig, Channel,
  webhook_channel, dingtalk_channel, append_made, channels_of, Alerter, Alert, send_each,
  send_alert,
}

abbrev pub url_of : Channel → Text
url_of (webhook_channel url secret is_wecom) = url
url_of (dingtalk_channel url secret) = url

-- The URL of the channel is an HTTPS one of an allowed host.
abbrev pub IsSafe : Parsing → Channel → Type 0
IsSafe parsing ch =
    (Url.scheme (parsing.urlparse (url_of ch)) ≡ "https")
    × (is_allowed (Url.hostname (parsing.urlparse (url_of ch))) ≡ true)

accepted :
    (https blocked allowed : Bool)
    → (if not https then false else if blocked then false else allowed) ≡ true
    → (https ≡ true) × (allowed ≡ true)
accepted https blocked allowed h = (ground (arith, h), ground (arith, h))

validate-safe :
    (parsing : Parsing) (url : Text)
    → validate_webhook_url parsing url ≡ true
    → (Url.scheme (parsing.urlparse url) ≡ "https")
      × (is_allowed (Url.hostname (parsing.urlparse url)) ≡ true)
unfolding validate_webhook_url
validate-safe parsing url h =
    let parsed = parsing.urlparse url in
    let (https, allowed) =
      accepted (parsed.scheme == "https") (any (λ h. h == parsed.hostname) blocked_hosts)
        (is_allowed parsed.hostname) h in
    ((eq_iff parsed.scheme "https").0 https, allowed)

channels_of-IsSafe :
    (parsing : Parsing) (chs : List ChannelConfig) → All (IsSafe parsing) (channels_of parsing chs)
unfolding channels_of
channels_of-IsSafe parsing [] = tt
channels_of-IsSafe parsing (ch ∷ chs) =
    elim (Bool-cases (validate_webhook_url parsing ch.webhook)) [
      | inl valid ↦ rw valid (
          appended (ch.kind == "webhook" || ch.kind == "wecom") (ch.kind == "dingtalk")
            (validate-safe parsing ch.webhook valid) (channels_of parsing chs)
            (channels_of-IsSafe parsing chs))
      | inr invalid ↦ rw invalid (channels_of-IsSafe parsing chs)
    ]
  where
    appended :
        (web ding : Bool)
        → (Url.scheme (parsing.urlparse ch.webhook) ≡ "https")
          × (is_allowed (Url.hostname (parsing.urlparse ch.webhook)) ≡ true)
        → (rest : List Channel) → All (IsSafe parsing) rest
        → All (IsSafe parsing) (
            append_made
              (if web
                then some (webhook_channel ch.webhook ch.secret (ch.kind == "wecom"))
                else if ding
                then some (dingtalk_channel ch.webhook ch.secret)
                else none)
              rest)
    appended true ding safe rest h = (safe, h)
    appended false true safe rest h = (safe, h)
    appended false false safe rest h = h

send_each-All :
    (P : Channel → Type 0) (raises : Channel → Bool) (alert : Alert) (chs : List Channel)
    → All P chs
    → All (λ t. P t.0) (send_each raises alert chs)
send_each-All P raises alert [] h = tt
send_each-All P raises alert (ch ∷ chs) h = (h.0, send_each-All P raises alert chs h.1)

send_each-channels :
    (raises : Channel → Bool) (alert : Alert) (chs : List Channel)
    → map (λ t. t.0) (send_each raises alert chs) ≡ chs
send_each-channels raises alert [] = refl
send_each-channels raises alert (ch ∷ chs) = ap (◌∷◌ ch) (send_each-channels raises alert chs)

-- An alert is sent to every channel of the configuration that is accepted, once and in their order,
-- whichever of the earlier sends fail, and to none where alerts are disabled; and every URL that is
-- sent to is an HTTPS one whose host is in the list of allowed domains.
pub send_alert-IsSafe :
    (parsing : Parsing) (chs : List ChannelConfig) (enabled : Bool) (min_score : ℕ)
    (raises : Channel → Bool) (alert : Alert)
    → let a : Alerter = record {
      enabled = enabled;
      quality_score_min = min_score;
      channels = channels_of parsing chs;
    } in
      (map (λ t. t.0) (send_alert raises alert a)
        ≡ (if enabled then channels_of parsing chs else []))
      × All (λ t. IsSafe parsing t.0) (send_alert raises alert a)
unfolding send_alert
send_alert-IsSafe parsing chs true min_score raises alert = (
  send_each-channels raises alert (channels_of parsing chs),
  send_each-All (IsSafe parsing) raises alert (channels_of parsing chs)
      (channels_of-IsSafe parsing chs),
)
send_alert-IsSafe parsing chs false min_score raises alert = (refl, tt)
