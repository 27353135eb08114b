-- ===== src/Api/Refused.antt =====
-- A setting verb of src/wifiAp.c that does not reply success has changed nothing but the channel
-- bounds.
use mathlib.Core.List.{Memᴰ}
use mathlib.Core.Path.{subst}
use wifiap_binding.Base.{
  ◌≡◌, ◌≢◌, refl, sym, ap, ◌∙◌, inl, inr, Option, List, Outcome, done, >>=-eq-done,
}
use wifiap_binding.Base.Bytes.{Bytes}
use wifiap_binding.Data.Types.{WifiApT, no_error}
use wifiap_binding.Data.Calls.{perform}
use wifiap_binding.Data.Calls.Rejection.{with_bounds_of, Rejects, perform-Rejects}
use wifiap_binding.Replies.{Reply, success, invalid_request}
use wifiap_binding.Binder.{Binder, IsLawful}
use wifiap_binding.Api.Setters.{SettingVerb}
use wifiap_binding.Api.Calls.{Decoded, setting_verbs, setting_verbs-Decode}

same_pair : (r q : Reply × WifiApT) → done r ≡ done q → (r.0 ≡ q.0) × (r.1 ≡ q.1)
same_pair r q h = (cc, cc)

module _ (strdup : Bytes → Option Bytes) (B : Binder) (law : IsLawful B) where
  Decoded-Refuses :
      (m : Outcome (Reply × WifiApT)) (w w' : WifiApT) (reply : Reply)
      → Decoded strdup w m
      → m ≡ done (reply, w')
      → reply ≢ success
      → with_bounds_of w w' ≡ w
  Decoded-Refuses m w w' reply (inl refused) runs bad =
      let (_, same) = same_pair (invalid_request, w) (reply, w') (sym refused ∙ runs) in
      subst (λ v. with_bounds_of w v ≡ w) same refl
  Decoded-Refuses m w w' reply (inr (c, text, valid, reports, called)) runs bad =
      let (r, ran, ends) = >>=-eq-done (perform strdup c w) _ (sym called ∙ runs) in
      let (answer, same) = same_pair (text r.0, r.1) (reply, w') ends in
      let failed : r.0 ≢ no_error = λ e. bad (sym answer ∙ ap text e ∙ reports.0) in
      subst (λ v. with_bounds_of w v ≡ w) same
        (subst (Rejects w) ran (perform-Rejects strdup c w) failed)

  -- A setting verb that returns with another reply than success has left all settings as they
  -- were, but for the two channel bounds.
  pub setting_verbs-Refuse :
      (set : SettingVerb strdup B)
      → Memᴰ set (setting_verbs strdup B)
      → (params : List B.Data) (w w' : WifiApT) (reply : Reply) → set params w ≡ done (reply, w')
      → reply ≢ success
      → with_bounds_of w w' ≡ w
  setting_verbs-Refuse set m params w w' reply runs bad =
      Decoded-Refuses (set params w) w w' reply (setting_verbs-Decode strdup B law set m params w)
        runs bad
