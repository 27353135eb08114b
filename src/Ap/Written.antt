-- ===== src/Ap/Written.antt =====
-- The files that a successful `startAp` of src/wifiAp.c has written.
pub mod Texts
pub mod Steps
pub mod Started
use wifiap_binding.Base.{
  ◌≡◌, ◌∙◌, ap, inl, inr, refl, Bool, true, false, not, ◌++◌, Option, none, some, ◌∷◌, Outcome,
  done, ◌>>=◌, if◌then◌else◌, Bool-cases, IfDone, IfDone-done, IfDone-after, ltb, length,
}
use wifiap_binding.Base.Bytes.{Bytes, codes, c_str}
use wifiap_binding.System.{
  Env, History, hosts_file, dnsmasq_file, hostapd_file, closed, wrote, opened, removed, ran,
}
use wifiap_binding.System.Format.{snprintf}
use wifiap_binding.System.Files.{content}
use wifiap_binding.Data.Types.{WifiApT}
use wifiap_binding.Config.{
  create_hosts_config_file, create_dnsmasq_config_file, dnsmasq_text, write_ap_config_file,
  generate_host_ap_conf_file, temp_string_max_bytes, common_text, security_section, ieee_section,
}
use wifiap_binding.Ap.{text_of}
use wifiap_binding.Ap.Written.Texts.{unlines, dnsmasq_lines, dnsmasq_text_lines}

-- The one line of the hosts file.
abbrev pub hosts_text : Bytes → Bytes → Bytes
hosts_text ip_ap name = ip_ap ++ codes " " ++ name ++ codes "\n"

-- The names are there, and both files of dnsmasq hold what the settings call for.
pub record DnsmasqWritten (s : WifiApT) (h : History) : Type 0 where
  pub host : Bytes
  pub domain : Bytes
  pub host_set : s.host_name ≡ some host
  pub domain_set : s.domain_name ≡ some domain
  pub hosts : content hosts_file h ≡ some (hosts_text (c_str s.ip_ap) host)
  pub dnsmasq :
      content dnsmasq_file h
      ≡ some (unlines (dnsmasq_lines (c_str s.ip_ap) (c_str s.ip_start) (c_str s.ip_stop) domain))

pub create_hosts-written :
    (env : Env) (ip : Bytes) (o : Option Bytes) (h : History)
    → IfDone
        (λ h2.
          (name : Bytes) × (o ≡ some name) × (content hosts_file h2 ≡ some (hosts_text ip name)))
        (create_hosts_config_file env ip o h)
unfolding create_hosts_config_file
create_hosts-written env ip o h = elim (Bool-cases (env.can_open h hosts_file)) [
  | inr shut ↦ rw shut λ h2 e. absurd cc
  | inl opens ↦ rw opens (named o)
]
  where
    named :
        (o : Option Bytes)
        → IfDone
            (λ h2.
              (name : Bytes) × (o ≡ some name)
              × (content hosts_file h2 ≡ some (hosts_text ip name)))
            (text_of o >>= λ name. done (
              closed hosts_file
              ∷ wrote hosts_file (ip ++ codes " " ++ name ++ codes "\n")
              ∷ opened hosts_file
              ∷ h))
    named none = λ h2 e. absurd cc
    named (some name) = IfDone-done _ _ (name, refl, refl)

pub create_dnsmasq-written :
    (env : Env) (ip start stop : Bytes) (o : Option Bytes) (h : History)
    → IfDone
        (λ h3.
          (name : Bytes) × (o ≡ some name)
          × (content dnsmasq_file h3 ≡ some (unlines (dnsmasq_lines ip start stop name)))
          × (content hosts_file h3 ≡ content hosts_file h))
        (create_dnsmasq_config_file env ip start stop o h)
unfolding create_dnsmasq_config_file
create_dnsmasq-written env ip start stop o h = elim (Bool-cases (env.can_open h dnsmasq_file)) [
  | inr shut ↦ rw shut λ h3 e. absurd cc
  | inl opens ↦ rw opens (named o)
]
  where
    named :
        (o : Option Bytes)
        → IfDone
            (λ h3.
              (name : Bytes) × (o ≡ some name)
              × (content dnsmasq_file h3 ≡ some (unlines (dnsmasq_lines ip start stop name)))
              × (content hosts_file h3 ≡ content hosts_file h))
            (text_of o >>= λ name. done (
              closed dnsmasq_file
              ∷ wrote dnsmasq_file (dnsmasq_text ip start stop name)
              ∷ opened dnsmasq_file
              ∷ h))
    named none = λ h3 e. absurd cc
    named (some name) =
        IfDone-done _ _ (name, refl, ap some (dnsmasq_text_lines ip start stop name), refl)

-- The two files of dnsmasq are as before.
pub SameFiles : History → History → Type 0
SameFiles h h' =
    (content hosts_file h' ≡ content hosts_file h)
    × (content dnsmasq_file h' ≡ content dnsmasq_file h)

pub SameFiles-written :
    (s : WifiApT) (h h' : History) → SameFiles h h' → DnsmasqWritten s h → DnsmasqWritten s h'
unfolding SameFiles
SameFiles-written s h h' (hosts, dnsmasq) w = record {
  host = w.host;
  domain = w.domain;
  host_set = w.host_set;
  domain_set = w.domain_set;
  hosts = hosts ∙ w.hosts;
  dnsmasq = dnsmasq ∙ w.dnsmasq;
}

pub ran-written :
    (s : WifiApT) (h : History) (cmd : Bytes) → DnsmasqWritten s h → DnsmasqWritten s (ran cmd ∷ h)
unfolding SameFiles
ran-written s h cmd w = SameFiles-written s h (ran cmd ∷ h) (refl, refl) w

pub IfDone-if {ℓ κ} :
    {A : Type ℓ} (P : A → Type κ) (b : Bool) (m k : Outcome A)
    → IfDone P m
    → IfDone P k
    → IfDone P (if b then m else k)
IfDone-if P true m k p q = p
IfDone-if P false m k p q = q

pick-SameFiles :
    (h : History) (b : Bool) (x y : Bool × History)
    → SameFiles h x.1
    → SameFiles h y.1
    → SameFiles h ((if b then x else y).1)
pick-SameFiles h true x y p q = p
pick-SameFiles h false x y p q = q

write-SameFiles :
    (env : Env) (o : Option Bytes) (g h : History)
    → SameFiles g h
    → SameFiles g (write_ap_config_file env o (some hostapd_file) h).1
unfolding write_ap_config_file SameFiles
write-SameFiles env none g h same = same
write-SameFiles env (some text) g h same =
    pick-SameFiles g (ltb 0 (length text)) _ _
      (pick-SameFiles g (env.can_write h hostapd_file text) _ _ same same) same

pub generate-SameFiles :
    (env : Env) (w : WifiApT) (h : History)
    → IfDone (λ r. SameFiles h r.1) (generate_host_ap_conf_file env w h)
unfolding generate_host_ap_conf_file SameFiles
generate-SameFiles env w h =
    let common = snprintf temp_string_max_bytes (common_text w) in
    let r1 = write_ap_config_file env (some common) (some hostapd_file) (opened hostapd_file ∷ h) in
    let security = security_section w.security_protocol w.passphrase w.preshared_key in
    let r2 = write_ap_config_file env security (some hostapd_file) r1.1 in
    let same1 = write-SameFiles env (some common) h (opened hostapd_file ∷ h) (refl, refl) in
    let same2 = write-SameFiles env security h r1.1 same1 in
    IfDone-if (λ r. SameFiles h r.1) (not (env.can_open h hostapd_file)) _ _
      (IfDone-done (λ r. SameFiles h r.1) (false, h) (refl, refl))
      (IfDone-if (λ r. SameFiles h r.1) (not r1.0) _ _
        (IfDone-done (λ r. SameFiles h r.1)
          (false, removed hostapd_file ∷ closed hostapd_file ∷ r1.1) same1)
        (IfDone-if (λ r. SameFiles h r.1) (not r2.0) _ _
          (IfDone-done (λ r. SameFiles h r.1)
            (false, removed hostapd_file ∷ closed hostapd_file ∷ r2.1) same2)
          (IfDone-after (λ r. SameFiles h r.1) (ieee_section w.ieee_std_mask) _
            λ ieee.
              let r3 = write_ap_config_file env (some ieee) (some hostapd_file) r2.1 in
              let same3 = write-SameFiles env (some ieee) h r2.1 same2 in
              IfDone-done (λ r. SameFiles h r.1) _
                (pick-SameFiles h (not r3.0)
                  (false, removed hostapd_file ∷ closed hostapd_file ∷ r3.1)
                  (true, closed hostapd_file ∷ r3.1) same3 same3))))
