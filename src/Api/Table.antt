-- ===== src/Api/Table.antt =====
-- The table of verbs of src/wifiAp.c. A callback takes a request and the state of the binding, and
-- gives the reply, if it sends one, and the state after it.
use wifiap_binding.Base.{Bool, Option, none, some, List, [], ◌∷◌, Outcome, done, ◌>>=◌}
use wifiap_binding.Base.Bytes.{Bytes, codes}
use wifiap_binding.Data.Types.{WifiApT}
use wifiap_binding.System.{Env}
use wifiap_binding.Threads.Links.{CdsList}
use wifiap_binding.Replies.{Reply, json}
use wifiap_binding.Binder.{Binder}
use wifiap_binding.Ap.{World}
use wifiap_binding.Ap.Start.{LaunchAnswers, start}
use wifiap_binding.Ap.Stop.{StopAnswers, stop, restart}
use wifiap_binding.Api.Setters.{
  set_host_name, set_domain_name, set_interface_name, set_ssid, set_pass_phrase, set_discoverable,
  set_ieee_standard, set_channel, set_security_protocol, set_pre_shared_key, set_country_code,
  set_max_number_clients_verb, set_ip_range,
}
use wifiap_binding.Api.Getters.{
  subscribe, get_ieee_standard, get_ap_number_clients, get_wifi_ap_status,
}

-- What the binding stands on: the system, the framework, `strdup`, and the text of info_generated.c.
pub record Platform : Type 1 where
  pub list : CdsList
  pub env : Env
  pub binder : Binder
  pub strdup : Bytes → Option Bytes
  pub info : Bytes

module _ (P : Platform) where
  open P use {list, env, binder, strdup}

  -- A request, with the answers to the calls that its callback makes.
  pub record Request : Type 0 where
    pub params : List binder.Data
    pub launching : LaunchAnswers
    pub stopping : StopAnswers
    pub popen : Bytes → Option (List Bytes)
    -- `afb_create_data_copy` and `afb_req_subscribe` succeed
    pub created : Bool
    pub subscribed : Bool

  abbrev pub Callback : Type 0
  Callback = Request → World list → Outcome (Option Reply × World list)

  -- The shapes of callbacks: with a reply always, on the settings only, and reading only.
  unfoldable pub replying : (Request → World list → Outcome (Reply × World list)) → Callback
  replying f q w = f q w >>= λ r. done (some r.0, r.1)

  unfoldable pub setting : (List binder.Data → WifiApT → Outcome (Reply × WifiApT)) → Callback
  setting set q w = set q.params w.settings >>= λ r. done (some r.0, record w { settings = r.1 })

  unfoldable pub reading : (Request → WifiApT → Outcome Reply) → Callback
  reading get q w = get q w.settings >>= λ r. done (some r, w)

  -- The text of info_generated.c, as it is.
  unfoldable pub info : Request → WifiApT → Outcome Reply
  info q s = done (json P.info)

  unfoldable pub verbs : List (Bytes × Callback)
  verbs =
      (codes "start", replying (λ q w. start list env q.launching w))
      ∷ (codes "stop", replying (λ q w. stop list env q.stopping w))
      ∷ (codes "restart", λ q w. restart list env q.launching w >>= λ w'. done (none, w'))
      ∷ (codes "subscribe", reading (λ q s. done (subscribe binder q.subscribed q.params)))
      ∷ (codes "unsubscribe", reading (λ q s. done (subscribe binder q.subscribed q.params)))
      ∷ (codes "getIeeeStandard", reading (λ q s. done (get_ieee_standard q.created s)))
      ∷ (codes "getAPclientsNumber", reading (λ q s. get_ap_number_clients q.popen q.created s))
      ∷ (codes "getWifiApStatus", reading (λ q s. done (get_wifi_ap_status q.created s)))
      ∷ (codes "setSsid", setting (set_ssid strdup binder))
      ∷ (codes "setInterfaceName", setting (set_interface_name strdup binder))
      ∷ (codes "setHostName", setting (set_host_name strdup binder))
      ∷ (codes "setDomainName", setting (set_domain_name strdup binder))
      ∷ (codes "setPassPhrase", setting (set_pass_phrase strdup binder))
      ∷ (codes "setDiscoverable", setting (set_discoverable strdup binder))
      ∷ (codes "setIeeeStandard", setting (set_ieee_standard strdup binder))
      ∷ (codes "setChannel", setting (set_channel strdup binder))
      ∷ (codes "setSecurityProtocol", setting (set_security_protocol strdup binder))
      ∷ (codes "setPreSharedKey", setting (set_pre_shared_key strdup binder))
      ∷ (codes "setIpRange", setting (set_ip_range strdup binder))
      ∷ (codes "setCountryCode", setting (set_country_code strdup binder))
      ∷ (codes "SetMaxNumberClients", setting (set_max_number_clients_verb strdup binder))
      ∷ (codes "info", reading info)
      ∷ []
