-- ===== src/Api/Asked/Verbs.antt =====
-- The setting verbs of src/wifiAp.c make the calls that their parameters ask for.
use wifiap_binding.Base.{◌≡◌, Option, none, some, Outcome, done, ◌>>=◌}
use wifiap_binding.Base.Bytes.{Bytes}
use wifiap_binding.Data.Types.{WifiApT, Status}
use wifiap_binding.Data.Calls.{Call, perform, IsCall}
use wifiap_binding.Replies.{Reply, invalid_request}
use wifiap_binding.Binder.{Binder, IsLawful}
use wifiap_binding.Ap.{World}
use wifiap_binding.Api.Reports.{Reports}
use wifiap_binding.Api.Calls.{answered}
use wifiap_binding.Api.Table.{Platform}

module _ (strdup : Bytes → Option Bytes) (B : Binder) (law : IsLawful B) where
  -- The same on the settings alone.
  abbrev Decides : (Status → Reply) → Option Call → WifiApT → Outcome (Reply × WifiApT) → Type 0
  Decides reply none s m = m ≡ done (invalid_request, s)
  Decides reply (some c) s m = IsCall c × (m ≡ answered strdup c reply s)

module _ (P : Platform) where
  -- Without a call, the request is invalid and nothing changes; a call is made with arguments of the
  -- setter's types, its status is told, and the settings become what it leaves.
  abbrev pub Answers :
      (Status → Reply) → Option Call → World P.list → Outcome (Option Reply × World P.list) → Type 0
  Answers reply none w m = m ≡ done (some invalid_request, w)
  Answers reply (some c) w m =
      IsCall c
      × (m ≡ (
          perform P.strdup c w.settings >>= λ r.
          done (some (reply r.0), record w { settings = r.1 })))

  replied : World P.list → Reply × WifiApT → Outcome (Option Reply × World P.list)
  replied w r = done (some r.0, record w { settings = r.1 })

  told : (Status → Reply) → Status × WifiApT → Outcome (Reply × WifiApT)
  told reply r = done (reply r.0, r.1)

  told_replied :
      (Status → Reply) → World P.list → Status × WifiApT → Outcome (Option Reply × World P.list)
  told_replied reply w r = done (some (reply r.0), record w { settings = r.1 })
