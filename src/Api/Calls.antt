-- ===== src/Api/Calls.antt =====
-- The setting verbs of src/wifiAp.c are calls of the setters, and what follows from it.
use mathlib.Core.List.{Memᴰ}
use mathlib.Core.List.{Memᴰ}
use wifiap_binding.Base.{
  ◌≡◌, ◌⊎◌, refl, inl, inr, Option, none, some, List, [], ◌∷◌, Outcome, done, ◌>>=◌, All, All-Mem,
  Option-cases,
}
use wifiap_binding.Base.Bytes.{Bytes, IsCString}
use wifiap_binding.Data.Types.{WifiApT, Status}
use wifiap_binding.Data.Calls.{Call, perform, IsArgument, IsCall}
use wifiap_binding.Data.{set_discoverable_parameter}
use wifiap_binding.Replies.{Reply, invalid_request}
use wifiap_binding.Binder.{Binder, IsLawful}
use wifiap_binding.Requests.{
  get_single_jsonc, get_single_string, get_single_boolean, get_single_uint32, single_string_set,
  single_uint32_set, reply_of_string_set, reply_of_uint32_set,
}
use wifiap_binding.Requests.Bounds.{get_single_string-IsArgument, get_single_uint32-lt}
use wifiap_binding.Api.Reports.{Reports, reply_of_string_set-Reports, reply_of_uint32_set-Reports}
use wifiap_binding.Api.Setters.{
  SettingVerb, set_host_name, set_domain_name, set_interface_name, set_ssid, set_pass_phrase,
  set_discoverable, set_ieee_standard, set_channel, set_security_protocol, set_pre_shared_key,
  set_country_code, set_max_number_clients_verb, set_ip_range_of, set_ip_range,
}

module _ (strdup : Bytes → Option Bytes) where
  -- A call of a setter, with a reply for its status.
  abbrev pub answered : Call → (Status → Reply) → WifiApT → Outcome (Reply × WifiApT)
  answered c reply w = perform strdup c w >>= λ r. done (reply r.0, r.1)

  -- The request is refused with the settings left alone, or it is a call with valid arguments.
  abbrev pub Decoded : WifiApT → Outcome (Reply × WifiApT) → Type 0
  Decoded w m =
      (m ≡ done (invalid_request, w))
      ⊎ ((c : Call) × (reply : Status → Reply) × IsCall c
          × Reports reply
          × (m ≡ answered c reply w))

module _ (strdup : Bytes → Option Bytes) (B : Binder) where
  -- The setting verbs, in the order of the table.
  unfoldable pub setting_verbs : List (SettingVerb strdup B)
  setting_verbs =
      set_ssid strdup B
      ∷ set_interface_name strdup B
      ∷ set_host_name strdup B
      ∷ set_domain_name strdup B
      ∷ set_pass_phrase strdup B
      ∷ set_discoverable strdup B
      ∷ set_ieee_standard strdup B
      ∷ set_channel strdup B
      ∷ set_security_protocol strdup B
      ∷ set_pre_shared_key strdup B
      ∷ set_ip_range strdup B
      ∷ set_country_code strdup B
      ∷ set_max_number_clients_verb strdup B
      ∷ []

module _ (strdup : Bytes → Option Bytes) (B : Binder) (law : IsLawful B) where
  abbrev pub VerbDecodes : SettingVerb strdup B → Type 0
  VerbDecodes set = (params : List B.Data) (w : WifiApT) → Decoded strdup w (set params w)

  string-Decodes :
      (call : Option Bytes → Call)
      → ((s : Option Bytes) → IsArgument s → IsCall (call s))
      → VerbDecodes (single_string_set B (λ w s. perform strdup (call s) w))
  unfolding single_string_set
  string-Decodes call valid params w = elim (Option-cases (get_single_string B params)) [
    | inl missing ↦ inl (rw (single_string_set, missing) refl)
    | inr (s, e) ↦ inr (
      call s,
      reply_of_string_set,
      valid s (get_single_string-IsArgument B law params s e),
      reply_of_string_set-Reports,
      rw (single_string_set, e) refl,
    )
  ]

  pub set_host_name-Decodes : VerbDecodes (set_host_name strdup B)
  unfolding set_host_name perform
  set_host_name-Decodes = string-Decodes Call.host_name (λ s a. a)

  pub set_domain_name-Decodes : VerbDecodes (set_domain_name strdup B)
  unfolding set_domain_name perform
  set_domain_name-Decodes = string-Decodes Call.domain_name (λ s a. a)

  pub set_interface_name-Decodes : VerbDecodes (set_interface_name strdup B)
  unfolding set_interface_name perform
  set_interface_name-Decodes = string-Decodes Call.interface_name (λ s a. a)

  pub set_ssid-Decodes : VerbDecodes (set_ssid strdup B)
  unfolding set_ssid perform
  set_ssid-Decodes = string-Decodes Call.ssid (λ s a. a)

  pub set_pass_phrase-Decodes : VerbDecodes (set_pass_phrase strdup B)
  unfolding set_pass_phrase perform
  set_pass_phrase-Decodes = string-Decodes Call.pass_phrase (λ s a. a)

  pub set_security_protocol-Decodes : VerbDecodes (set_security_protocol strdup B)
  unfolding set_security_protocol perform
  set_security_protocol-Decodes = string-Decodes Call.security_protocol (λ s a. a)

  pub set_pre_shared_key-Decodes : VerbDecodes (set_pre_shared_key strdup B)
  unfolding set_pre_shared_key perform
  set_pre_shared_key-Decodes = string-Decodes Call.pre_shared_key (λ s a. a)

  pub set_country_code-Decodes : VerbDecodes (set_country_code strdup B)
  unfolding set_country_code perform
  set_country_code-Decodes = string-Decodes Call.country_code (λ s a. a)

  pub set_ieee_standard-Decodes : VerbDecodes (set_ieee_standard strdup B)
  unfolding set_ieee_standard perform
  set_ieee_standard-Decodes params w = elim (Option-cases (get_single_uint32 B params)) [
    | inl missing ↦ inl (rw (set_ieee_standard, missing) refl)
    | inr (n, e) ↦ inr (
      Call.ieee_standard n,
      reply_of_uint32_set,
      get_single_uint32-lt B law params n e,
      reply_of_uint32_set-Reports,
      rw (set_ieee_standard, e) refl,
    )
  ]

  pub set_channel-Decodes : VerbDecodes (set_channel strdup B)
  unfolding set_channel single_uint32_set perform
  set_channel-Decodes params w = elim (Option-cases (get_single_uint32 B params)) [
    | inl missing ↦ inl (rw (set_channel, single_uint32_set, missing) refl)
    | inr (n, e) ↦ inr (
      Call.channel n,
      reply_of_uint32_set,
      get_single_uint32-lt B law params n e,
      reply_of_uint32_set-Reports,
      rw (set_channel, single_uint32_set, e) refl,
    )
  ]

  pub set_max_number_clients_verb-Decodes : VerbDecodes (set_max_number_clients_verb strdup B)
  unfolding set_max_number_clients_verb single_uint32_set perform
  set_max_number_clients_verb-Decodes params w = elim (Option-cases (get_single_uint32 B params)) [
    | inl missing ↦ inl (rw (set_max_number_clients_verb, single_uint32_set, missing) refl)
    | inr (n, e) ↦ inr (
      Call.max_clients n,
      reply_of_uint32_set,
      get_single_uint32-lt B law params n e,
      reply_of_uint32_set-Reports,
      rw (set_max_number_clients_verb, single_uint32_set, e) refl,
    )
  ]

  pub set_discoverable-Decodes : VerbDecodes (set_discoverable strdup B)
  unfolding set_discoverable set_discoverable_parameter reply_of_uint32_set perform
  set_discoverable-Decodes params w = elim (Option-cases (get_single_boolean B params)) [
    | inl missing ↦ inl (rw (set_discoverable, missing) refl)
    | inr (b, e) ↦ inr (
      Call.discoverable b,
      reply_of_uint32_set,
      tt,
      reply_of_uint32_set-Reports,
      rw (set_discoverable, e) refl,
    )
  ]

  set_ip_range_of-Decodes :
      (o : Option (Bytes × Bytes × Bytes × Bytes)) (w : WifiApT)
      → ((a b c d : Bytes)
          → o ≡ some (a, b, c, d)
          → IsCString a × IsCString b × IsCString c × IsCString d)
      → Decoded strdup w (set_ip_range_of strdup B o w)
  unfolding set_ip_range_of perform
  set_ip_range_of-Decodes none w valid = inl refl
  set_ip_range_of-Decodes (some (a, b, c, d)) w valid = inr (
    Call.ip_range (some a) (some b) (some c) (some d),
    reply_of_uint32_set,
    valid a b c d refl,
    reply_of_uint32_set-Reports,
    refl,
  )

  pub set_ip_range-Decodes : VerbDecodes (set_ip_range strdup B)
  unfolding set_ip_range
  set_ip_range-Decodes params w = elim (Option-cases (get_single_jsonc B params)) [
    | inl missing ↦ inl (rw (set_ip_range, missing) refl)
    | inr (j, e) ↦
        rw (set_ip_range, e)
          (set_ip_range_of-Decodes (B.unpack_range j) w (law.unpack_range-IsCString j))
  ]

  decodes : All VerbDecodes (setting_verbs strdup B)
  unfolding setting_verbs
  decodes = (
    set_ssid-Decodes,
    (
      set_interface_name-Decodes,
      (
        set_host_name-Decodes,
        (
          set_domain_name-Decodes,
          (
            set_pass_phrase-Decodes,
            (
              set_discoverable-Decodes,
              (
                set_ieee_standard-Decodes,
                (
                  set_channel-Decodes,
                  (
                    set_security_protocol-Decodes,
                    (
                      set_pre_shared_key-Decodes,
                      (
                        set_ip_range-Decodes,
                        (set_country_code-Decodes, (set_max_number_clients_verb-Decodes, tt)),
                      ),
                    ),
                  ),
                ),
              ),
            ),
          ),
        ),
      ),
    ),
  )

  -- Every setting verb refuses its parameters with `AFB_ERRNO_INVALID_REQUEST` and leaves the
  -- settings alone, or it is one call of a setter with valid arguments, whose status it reports:
  -- with success exactly if the setter succeeded.
  pub setting_verbs-Decode :
      (set : SettingVerb strdup B)
      → Memᴰ set (setting_verbs strdup B)
      → (params : List B.Data) (w : WifiApT) → Decoded strdup w (set params w)
  setting_verbs-Decode set m = All-Mem VerbDecodes set (setting_verbs strdup B) decodes m
