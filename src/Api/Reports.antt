-- ===== src/Api/Reports.antt =====
-- The replies that src/wifiAp.c gives to the statuses of the setters tell success from error.
use wifiap_binding.Base.{◌≡◌, ◌≢◌, refl}
use wifiap_binding.Data.Types.{Status, no_error}
use wifiap_binding.Replies.{Reply, success}
use wifiap_binding.Requests.{reply_of_string_set, reply_of_uint32_set}

-- The reply is success exactly for the status of success.
abbrev pub Reports : (Status → Reply) → Type 0
Reports reply = (reply no_error ≡ success) × ((s : Status) → s ≢ no_error → reply s ≢ success)

pub reply_of_string_set-Reports : Reports reply_of_string_set
unfolding reply_of_string_set
reply_of_string_set-Reports = (refl, refused)
  where
    refused : (s : Status) → s ≢ no_error → reply_of_string_set s ≢ success
    refused no_error bad = absurd (bad refl)
    refused Status.error_invalid bad = λ e. cc
    refused Status.error_oom bad = λ e. cc
    refused Status.error_too_small bad = λ e. cc
    refused Status.error_too_large bad = λ e. cc
    refused Status.error_no_hard bad = λ e. cc
    refused Status.error_many_hard bad = λ e. cc
    refused Status.error_std_ac bad = λ e. cc
    refused Status.error_std_h bad = λ e. cc

pub reply_of_uint32_set-Reports : Reports reply_of_uint32_set
unfolding reply_of_uint32_set
reply_of_uint32_set-Reports = (refl, refused)
  where
    refused : (s : Status) → s ≢ no_error → reply_of_uint32_set s ≢ success
    refused no_error bad = absurd (bad refl)
    refused Status.error_invalid bad = λ e. cc
    refused Status.error_oom bad = λ e. cc
    refused Status.error_too_small bad = λ e. cc
    refused Status.error_too_large bad = λ e. cc
    refused Status.error_no_hard bad = λ e. cc
    refused Status.error_many_hard bad = λ e. cc
    refused Status.error_std_ac bad = λ e. cc
    refused Status.error_std_h bad = λ e. cc
