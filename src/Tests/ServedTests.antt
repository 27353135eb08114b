-- ===== src/Tests/ServedTests.antt =====
-- The states that requests lead to while the calls for threads succeed.
use mathlib.Core.List.{Memᴰ}
use wifiap_binding.Base.{◌≡◌, refl, true, none, some, [], done, arith}
use wifiap_binding.Base.Bytes.{codes, c_str, zeroed, memcpy}
use wifiap_binding.Netmask.{mask_text}
use wifiap_binding.Replies.{Reply}
use wifiap_binding.Threads.Links.{plain_list, plain_list-IsLawful}
use wifiap_binding.Ap.{World}
use wifiap_binding.Ap.Start.{start}
use wifiap_binding.Ap.Verbs.{Agrees}
use wifiap_binding.Ap.Mutex.{IsFreeWorld}
use wifiap_binding.Init.{booted}
use wifiap_binding.Api.Table.{Request, replying, verbs}
use wifiap_binding.Api.Serves.{reached-start}
use wifiap_binding.Api.Served.{Served, Served-IsFree, Served-start}
use wifiap_binding.Tests.{all_well}
use wifiap_binding.Tests.ApTests.{launching, launching-CanLaunch, stopping}
use wifiap_binding.Tests.ApiTests.{
  platform, configured, binder-IsLawful, boot, boots, platform-Reach,
}

platform-Served : Served platform (booted platform configured)
platform-Served = Served.initialised boot launching-CanLaunch boots

Served-start_example :
    (reply : Reply) × (w' : World plain_list) × (start plain_list all_well launching
        (booted platform configured)
      ≡ done (reply, w'))
    × Agrees plain_list reply w'
unfolding c_str mask_text memcpy zeroed
Served-start_example =
    Served-start platform binder-IsLawful plain_list-IsLawful (λ s t e. cc) platform-Served 24
      (omega arith) refl (λ h. refl) (λ h. refl) launching launching-CanLaunch

after_start :
    (reply : Reply) × (w' : World plain_list) × (start plain_list all_well launching
        (booted platform configured)
      ≡ done (reply, w'))
    × Agrees plain_list reply w'
unfolding c_str mask_text memcpy zeroed
after_start =
    reached-start platform binder-IsLawful plain_list-IsLawful (λ s t e. cc) platform-Reach 24
      (omega arith) refl (λ h. refl) (λ h. refl) launching launching-CanLaunch refl

-- A request for `start`.
abbrev asking : Request platform
asking = record {
  params = [];
  launching = launching;
  stopping = stopping;
  popen = λ c. none;
  created = true;
  subscribed = true;
}

after_start-Served : Served platform (after_start.1)
unfolding verbs replying
after_start-Served =
    Served.request (codes "start") _ asking (some after_start.0) platform-Served (Memᴰ.head refl)
      (record { launches = launching-CanLaunch; cancels = refl }) (rw (after_start.2) refl)

Served-IsFree_example : IsFreeWorld plain_list (after_start.1)
Served-IsFree_example = Served-IsFree platform plain_list-IsLawful after_start-Served
