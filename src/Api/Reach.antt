-- ===== src/Api/Reach.antt =====
-- The states that the binding of src/wifiAp.c reaches, from its initialisation on.
use mathlib.Core.List.{Memᴰ}
use mathlib.Core.Path.{subst}
use wifiap_binding.Base.{
  ℕ, ◌≡◌, refl, inl, inr, Bool, true, false, Option, none, some, done, ◌==◌, if◌then◌else◌, All-Mem,
  IfDone, >>=-eq-done,
}
use wifiap_binding.Base.Bytes.{Bytes}
use wifiap_binding.Data.Types.{WifiApT, ApStatus}
use wifiap_binding.Data.Calls.{Call, perform, IsCall}
use wifiap_binding.Data.Calls.Buffers.{Copies}
use wifiap_binding.Data.Calls.Invariant.{IsWellFormed, Returns, perform-Keeps}
use wifiap_binding.Data.Calls.Usable.{IsUsable, perform-IsUsable}
use wifiap_binding.Replies.{Reply}
use wifiap_binding.Binder.{IsLawful}
use wifiap_binding.Ap.{World}
use wifiap_binding.Ap.Start.{LaunchAnswers, start_ap}
use wifiap_binding.Ap.Stop.{thread_ends}
use wifiap_binding.Ap.Frame.{start_ap-Framed}
use wifiap_binding.Ap.Frame.{thread_ends-Framed}
use wifiap_binding.Api.Table.{Platform, Request, Callback, verbs}
use wifiap_binding.Api.Verbs.{CallbackKeeps, framed, verbs-Keep}
use wifiap_binding.Init.{
  BootAnswers, booted, start_at_init, finish_init, init_from, create_wifi_ap_data, binding_init,
}
use wifiap_binding.Init.Created.{create_wifi_ap_data_lem}

module _ (P : Platform) where
  -- One request to a verb of the table, or the end of the event thread.
  pub data Step (w : World P.list) : World P.list → Type 0 where
    request :
        {w' : World P.list} (name : Bytes) (f : Callback P) (q : Request P) (reply : Option Reply)
        → Memᴰ (name, f) (verbs P)
        → f q w ≡ done (reply, w')
        → Step w w'
    thread_end : {w' : World P.list} (p : ℕ) → thread_ends P.list P.env p w ≡ done w' → Step w w'

  -- The states behind an initialisation that has succeeded.
  pub data Reach : World P.list → Type 0 where
    initialised :
        {w : World P.list} (boot : BootAnswers P) → binding_init P boot ≡ done (0, some w) → Reach w
    later : {w w' : World P.list} → Reach w → Step w w' → Reach w'

-- What holds of the settings in every state: their form, that the three names are there, and that
-- the mask is a documented one.
abbrev pub IsSound : WifiApT → Type 0
IsSound w = IsWellFormed w × IsUsable w

status-IsSound : (w : WifiApT) (st : ApStatus) → IsSound w → IsSound (record w { status = st })
status-IsSound w st (h, named) = (assumption h, named)

-- The world in a result with a state.
pub same_world :
    (P : Platform) (r q : ℕ × Option (World P.list)) (v w : World P.list)
    → done r ≡ done q
    → r.1 ≡ some v
    → q.1 ≡ some w
    → v ≡ w
same_world P r q v w h e e' = cc

module _ (P : Platform) (law : IsLawful P.binder) (copies : Copies P.strdup) where
  calls-IsSound :
      (c : Call) (w : WifiApT)
      → IsCall c
      → IsSound w
      → IfDone (λ r. IsSound r.1) (perform P.strdup c w)
  calls-IsSound c w valid (h, named) r runs = (
    subst (Returns (λ r. IsWellFormed r.1)) runs (perform-Keeps P.strdup c w copies valid h),
    perform-IsUsable P.strdup c w named r runs,
  )

  Step-IsSound : {w w' : World P.list} → Step P w w' → IsSound w.settings → IsSound w'.settings
  Step-IsSound {w} (request {w'} name f q reply m runs) h =
      All-Mem (λ v. CallbackKeeps P law IsSound calls-IsSound status-IsSound v.1) (name, f)
        (verbs P) (verbs-Keep P law IsSound calls-IsSound status-IsSound) m q w h (reply, w') runs
  Step-IsSound {w} (thread_end {w'} p runs) h =
      framed P law IsSound calls-IsSound status-IsSound w.settings w' h
        (thread_ends-Framed P.list w.settings P.env p w refl w' runs)

  finish_init-IsSound :
      (answers : LaunchAnswers) (start : Bool) (o : Option WifiApT) (w : World P.list)
      → ((s : WifiApT) → o ≡ some s → IsSound s)
      → finish_init P answers start o ≡ done (0, some w)
      → IsSound w.settings
  unfolding finish_init
  finish_init-IsSound answers start none w h runs = absurd cc
  finish_init-IsSound answers false (some s) w h runs =
      subst (λ v. IsSound v.settings)
        (same_world P (0, some (booted P s)) (0, some w) (booted P s) w runs refl refl) (h s refl)
  finish_init-IsSound answers true (some s) w h runs =
      let (r, ran, ends) = >>=-eq-done (start_ap P.list P.env answers (booted P s)) _ runs in
      subst (λ v. IsSound v.settings)
        (same_world P (if r.0 == 0 then 0 else 1, some r.1) (0, some w) r.1 w ends refl refl)
        (framed P law IsSound calls-IsSound status-IsSound s r.1 (h s refl)
          (start_ap-Framed P.list s P.env answers (booted P s) refl r ran))

  -- A successful initialisation leaves sound settings.
  binding_init-IsSound :
      (boot : BootAnswers P) (w : World P.list)
      → binding_init P boot ≡ done (0, some w)
      → IsSound w.settings
  unfolding binding_init init_from
  binding_init-IsSound boot w runs = read _ runs
    where
      built :
          (o : Option WifiApT) (config : P.binder.Json)
          → create_wifi_ap_data P.binder P.strdup boot.allocated boot.event config ≡ done o
          → (s : WifiApT) → o ≡ some s
          → IsSound s
      built o config created s e =
          elim (create_wifi_ap_data_lem P.strdup P.binder law copies boot.allocated boot.event
            config) [
              | inl nothing ↦ absurd cc
              | inr (s', made, h, complete, _) ↦
                  let same : s' ≡ s = cc in
                  subst IsSound same (
                    h,
                    (
                      complete.interface_name, complete.domain_name, complete.host_name,
                      complete.ieee_std_mask,
                    ),
                  )
            ]

      read : (o : Option P.binder.Json) → init_from P boot o ≡ done (0, some w) → IsSound w.settings
      read none h = absurd cc
      read (some config) h =
          let (o, created, ends) =
            >>=-eq-done (create_wifi_ap_data P.binder P.strdup boot.allocated boot.event config) _
              h in
          finish_init-IsSound boot.launching (start_at_init P config) o w (built o config created)
            ends

  -- In every state that is reached from a successful initialisation, the settings are well-formed, the
  -- interface, the domain and the host have their names, and the mask is a documented one.
  pub Reach-IsSound : {w : World P.list} → Reach P w → IsSound w.settings
  Reach-IsSound (initialised {w} boot runs) = binding_init-IsSound boot w runs
  Reach-IsSound (later r st) = Step-IsSound st (Reach-IsSound r)
