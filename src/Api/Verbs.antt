-- ===== src/Api/Verbs.antt =====
-- What the calls of the setters keep, every verb of src/wifiAp.c keeps.
use mathlib.Core.Path.{subst}
use wifiap_binding.Base.{
  refl, sym, inl, inr, none, Outcome, done, ◌>>=◌, All, IfDone, IfDone-done, IfDone-bind,
  IfDone-after,
}
use wifiap_binding.Data.Types.{WifiApT, ApStatus}
use wifiap_binding.Data.Calls.{Call, perform, IsCall}
use wifiap_binding.Replies.{Reply, invalid_request}
use wifiap_binding.Binder.{IsLawful}
use wifiap_binding.Ap.{World}
use wifiap_binding.Ap.Stop.{restart}
use wifiap_binding.Ap.Frame.{IsFrame}
use wifiap_binding.Ap.Frame.{start-Framed}
use wifiap_binding.Ap.Frame.{stop-Framed, restart-Framed}
use wifiap_binding.Api.Setters.{SettingVerb}
use wifiap_binding.Api.Table.{Platform, Request, Callback, replying, setting, reading, verbs}
use wifiap_binding.Api.Calls.{
  Decoded, VerbDecodes, set_ssid-Decodes, set_interface_name-Decodes, set_host_name-Decodes,
  set_domain_name-Decodes, set_pass_phrase-Decodes, set_discoverable-Decodes,
  set_ieee_standard-Decodes, set_channel-Decodes, set_security_protocol-Decodes,
  set_pre_shared_key-Decodes, set_ip_range-Decodes, set_country_code-Decodes,
  set_max_number_clients_verb-Decodes,
}

module _ (P : Platform) (law : IsLawful P.binder) (Q : WifiApT → Type 0)
    (calls : (c : Call) (w : WifiApT) → IsCall c → Q w → IfDone (λ r. Q r.1) (perform P.strdup c w))
    (status : (w : WifiApT) (st : ApStatus) → Q w → Q (record w { status = st })) where
  -- If the callback returns, the property of the settings is kept.
  abbrev pub CallbackKeeps : Callback P → Type 0
  CallbackKeeps f =
      (q : Request P) (w : World P.list) → Q w.settings → IfDone (λ r. Q r.1.settings) (f q w)

  -- A property that the status does not matter for carries over to settings that differ in it.
  pub framed : (s : WifiApT) (w : World P.list) → Q s → IsFrame P.list s w → Q w.settings
  framed s w h same =
      status (record w.settings { status = s.status }) w.settings.status (subst Q (sym same) h)

  replying-Keeps :
      (f : Request P → World P.list → Outcome (Reply × World P.list))
      → ((q : Request P) (w : World P.list) → IfDone (λ r. IsFrame P.list w.settings r.1) (f q w))
      → CallbackKeeps (replying P f)
  unfolding replying
  replying-Keeps f keeps q w h =
      IfDone-bind (λ r. IsFrame P.list w.settings r.1) (λ r. Q r.1.settings) (f q w) _ (keeps q w)
        λ r p. IfDone-done (λ r. Q r.1.settings) _ (framed w.settings r.1 h p)

  Decoded-Keeps :
      (w : WifiApT) (m : Outcome (Reply × WifiApT))
      → Decoded P.strdup w m
      → Q w
      → IfDone (λ r. Q r.1) m
  Decoded-Keeps w m (inl refused) h = rw refused (IfDone-done (λ r. Q r.1) (invalid_request, w) h)
  Decoded-Keeps w m (inr (c, reply, valid, _, called)) h = rw called (
      IfDone-bind (λ r. Q r.1) (λ r. Q r.1) (perform P.strdup c w) _ (calls c w valid h)
        λ r p. IfDone-done (λ r. Q r.1) (reply r.0, r.1) p)

  setting-Keeps :
      (set : SettingVerb P.strdup P.binder)
      → VerbDecodes P.strdup P.binder law set
      → CallbackKeeps (setting P set)
  unfolding setting
  setting-Keeps set decodes q w h =
      IfDone-bind (λ r. Q r.1) (λ r. Q r.1.settings) (set q.params w.settings) _
        (Decoded-Keeps w.settings _ (decodes q.params w.settings) h)
        λ r p. IfDone-done (λ r. Q r.1.settings) _ p

  reading-Keeps : (get : Request P → WifiApT → Outcome Reply) → CallbackKeeps (reading P get)
  unfolding reading
  reading-Keeps get q w h =
      IfDone-after (λ r. Q r.1.settings) (get q w.settings) _
        λ r. IfDone-done (λ r. Q r.1.settings) _ h

  restart-Keeps :
      CallbackKeeps (λ q w. restart P.list P.env q.launching w >>= λ w'. done (none, w'))
  restart-Keeps q w h =
      IfDone-bind (IsFrame P.list w.settings) (λ r. Q r.1.settings) _ _
        (restart-Framed P.list w.settings P.env q.launching w refl)
        λ w' p. IfDone-done (λ r. Q r.1.settings) _ (framed w.settings w' h p)

  pub verbs-Keep : All (λ v. CallbackKeeps v.1) (verbs P)
  unfolding verbs
  verbs-Keep = (
    replying-Keeps _ (λ q w. start-Framed P.list w.settings P.env q.launching w refl),
    (
      replying-Keeps _ (λ q w. stop-Framed P.list w.settings P.env q.stopping w refl),
      (
        restart-Keeps,
        search (
          reading-Keeps,
          setting-Keeps,
          set_ssid-Decodes P.strdup P.binder law,
          set_interface_name-Decodes P.strdup P.binder law,
          set_host_name-Decodes P.strdup P.binder law,
          set_domain_name-Decodes P.strdup P.binder law,
          set_pass_phrase-Decodes P.strdup P.binder law,
          set_discoverable-Decodes P.strdup P.binder law,
          set_ieee_standard-Decodes P.strdup P.binder law,
          set_channel-Decodes P.strdup P.binder law,
          set_security_protocol-Decodes P.strdup P.binder law,
          set_pre_shared_key-Decodes P.strdup P.binder law,
          set_ip_range-Decodes P.strdup P.binder law,
          set_country_code-Decodes P.strdup P.binder law,
          set_max_number_clients_verb-Decodes P.strdup P.binder law,
        ),
      ),
    ),
  )
