-- ===== src/Web/Forms.antt =====
-- interface/http/form_handlers.go: the forms that create, change and delete monitors. What a page
-- is rendered from is modelled, its HTML is not.
use webtracker.Shared.{
  ℕ, Bool, true, false, ◌||◌, Option, none, some, String, List, [], ◌∷◌, ◌++◌, if◌then◌else◌,
  is_empty, str_eq,
}
use webtracker.Domain.Monitor.{Monitor, AlertChannel}
use webtracker.Domain.User.{User}
use webtracker.Domain.Alert.{AlertChannelType, channel_telegram, channel_email, channel_webhook}
use webtracker.MonitorService.{CreateMonitorRequest, UpdateMonitorRequest}
use webtracker.Web.{MonitorServiceInterface, Parsers, minutes_to_duration}
use Prim.Native.String.{◌++◌ as concat}
use webtracker.Shared.Int.{ℤ, pos, leb_ℤ}
use webtracker.Shared.Clock.{Duration}
use webtracker.Shared.Errors.{Error, Result, Outcome, ok, err}

abbrev pub Errors : Type 0
Errors = List (String × String)

-- The fields of the form's monitor that a submission sets, or those of a stored monitor.
pub data FormMonitor : Type 0 where
  no_monitor : FormMonitor
  stored_monitor : Monitor → FormMonitor
  submitted : Option Monitor → CreateMonitorRequest → FormMonitor

pub record MonitorFormData : Type 0 where
  pub monitor : FormMonitor
  pub is_edit : Bool
  pub errors : Errors
  pub user : Option User

pub data Page : Type 0 where
  form_page : ℕ → MonitorFormData → Page
  text_page : ℕ → String → Page
  redirected : String → Page

abbrev when_empty : String → String → String → Errors
when_empty s key text = if str_eq s "" then (key, text) ∷ [] else []

abbrev pub is_on : String → Bool
is_on s = str_eq s "on"

module _ (parsers : Parsers) where
  abbrev checked_interval : Result ℤ → Duration × Errors
  checked_interval (err e) = (pos 0, ("check_interval", "Invalid check interval") ∷ [])
  checked_interval (ok n) =
      if leb_ℤ n (pos 0)
      then (pos 0, ("check_interval", "Invalid check interval") ∷ [])
      else (minutes_to_duration n, [])

  unfoldable pub parse_interval : String → Duration × Errors
  parse_interval s =
      if str_eq s ""
      then (pos 0, ("check_interval", "Check interval is required") ∷ [])
      else checked_interval (parsers.atoi s)

-- A channel of which a part is missing is left out.
unfoldable pub telegram_channel : (String → String) → List AlertChannel
telegram_channel form =
    let bot_token = form "telegram_bot_token" in
    let chat_id = form "telegram_chat_id" in
    if is_on (form "telegram_enabled")
    then if str_eq bot_token "" || str_eq chat_id ""
      then []
      else record {
        type = channel_telegram;
        config = ("bot_token", bot_token) ∷ ("chat_id", chat_id) ∷ [];
      }
        ∷ []
    else []

unfoldable pub simple_channel : AlertChannelType → String → Bool → String → List AlertChannel
simple_channel type key enabled value =
    if enabled
    then if str_eq value "" then [] else record { type = type; config = (key, value) ∷ [] } ∷ []
    else []

unfoldable pub parse_alert_channels : (String → String) → List AlertChannel
unfolding telegram_channel simple_channel
parse_alert_channels form =
    telegram_channel form
    ++ (simple_channel channel_email "to" (is_on (form "email_enabled")) (form "email_to")
        ++ simple_channel channel_webhook "url" (is_on (form "webhook_enabled"))
            (form "webhook_url"))

module _ (parsers : Parsers) where
  unfoldable pub parse_monitor_form : (String → String) → CreateMonitorRequest × Errors
  unfolding parse_interval parse_alert_channels
  parse_monitor_form form =
      let (interval, errors) = parse_interval parsers (form "check_interval") in
      (
        record {
          name = form "name";
          url = form "url";
          check_interval = interval;
          enabled = is_on (form "enabled");
          alert_channels = parse_alert_channels form;
        },
        when_empty (form "name") "name" "Monitor name is required"
            ++ (when_empty (form "url") "url" "URL is required" ++ errors),
      )

-- Every field is set, so that the channels are replaced by those of the form.
abbrev pub update_of_form : CreateMonitorRequest → UpdateMonitorRequest
update_of_form req = record {
  name = some req.name;
  url = some req.url;
  check_interval = some req.check_interval;
  enabled = some req.enabled;
  alert_channels = some req.alert_channels;
}

abbrev pub form_again : Option Monitor → Bool → CreateMonitorRequest → Errors → Option User → Page
form_again existing is_edit req errors user =
    form_page 400
      (record { monitor = submitted existing req; is_edit = is_edit; errors = errors; user = user })

module _ {W : Type 0} (parsers : Parsers) (svc : MonitorServiceInterface W)
    (error_text : Error → String) (user : Option User) where
  unfoldable pub new_monitor_form : Page
  new_monitor_form =
      form_page 200 (record { monitor = no_monitor; is_edit = false; errors = []; user = user })

  abbrev edit_page : Result Monitor → Page
  edit_page (err e) = text_page 404 "Monitor not found"
  edit_page (ok m) =
      form_page 200
        (record { monitor = stored_monitor m; is_edit = true; errors = []; user = user })

  unfoldable pub edit_monitor_form : String → W → Page × W
  edit_monitor_form id w =
      if str_eq id ""
      then (text_page 400 "Monitor ID is required", w)
      else (let (found, w') = svc.get_monitor id w in (edit_page found, w'))

  abbrev created_page : CreateMonitorRequest → Result Monitor → Page
  created_page req (ok m) = redirected (concat "/monitors/" m.id)
  created_page req (err e) = form_again none false req (("general", error_text e) ∷ []) user

  unfoldable pub create_monitor_form : (String → String) → W → Page × W
  unfolding parse_monitor_form
  create_monitor_form form w =
      let (req, errors) = parse_monitor_form parsers form in
      if is_empty errors
      then (let (created, w') = svc.create_monitor req w in (created_page req created, w'))
      else (form_again none false req errors user, w)

  abbrev deleted_page : Outcome → Page
  deleted_page (ok _) = redirected "/"
  deleted_page (err e) = text_page 500 "Failed to delete monitor"

  unfoldable pub delete_monitor_form : String → W → Page × W
  delete_monitor_form id w =
      if str_eq id ""
      then (text_page 400 "Monitor ID is required", w)
      else (let (deleted, w') = svc.delete_monitor id w in (deleted_page deleted, w'))

  abbrev updated_page : String → Monitor → CreateMonitorRequest → Result Monitor → Page
  updated_page id existing req (ok m) = redirected (concat "/monitors/" id)
  updated_page id existing req (err e) =
      form_again (some existing) true req (("general", error_text e) ∷ []) user

  -- After the monitor was found.
  unfoldable pub change_monitor : String → (String → String) → Monitor → W → Page × W
  unfolding parse_monitor_form
  change_monitor id form existing w =
      if str_eq (parsers.to_upper (parsers.trim_space (form "_method"))) "DELETE"
      then (let (deleted, w') = svc.delete_monitor id w in (deleted_page deleted, w'))
      else (let (req, errors) = parse_monitor_form parsers form in
          if is_empty errors
          then (let (updated, w') = svc.update_monitor id (update_of_form req) w in
              (updated_page id existing req updated, w'))
          else (form_again (some existing) true req errors user, w))

  change_found : String → (String → String) → Result Monitor × W → Page × W
  unfolding change_monitor
  change_found id form (err e, w) = (text_page 404 "Monitor not found", w)
  change_found id form (ok existing, w) = change_monitor id form existing w

  unfoldable pub update_monitor_form : String → (String → String) → W → Page × W
  unfolding change_found
  update_monitor_form id form w =
      if str_eq id ""
      then (text_page 400 "Monitor ID is required", w)
      else change_found id form (svc.get_monitor id w)
