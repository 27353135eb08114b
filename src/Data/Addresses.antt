-- ===== src/Data/Addresses.antt =====
-- `setIpRangeParameters` on addresses of a proper length.
use wifiap_binding.Base.{◌≤◌, ◌≡◌, refl, some, length, arith, done, ◌||◌, false}
use wifiap_binding.Base.Bytes.{Bytes, c_str, terminated, memcpy, IsBuffer, c_str-memcpy}
use wifiap_binding.Utf8
use wifiap_binding.Utf8.{le_ok}
use wifiap_binding.Utf8.Characters.{copied}
use wifiap_binding.Utf8.Ascii.{IsAscii, copy-ascii, IsAscii-IsCString}
use wifiap_binding.Data.Types.{WifiApT, no_error}
use wifiap_binding.Data.Setters.{
  copy_ip_range, set_ip_range_parameters, too_short, too_long, ip_size,
}
use wifiap_binding.Data.Calls.Invariant.{IsWellFormed}

-- Text of 1 to 15 ASCII characters.
abbrev pub IsAddressText : Bytes → Type 0
IsAddressText s = IsAscii s × (1 ≤ length s) × (length s ≤ 15)

-- The structure with four addresses.
abbrev pub with_addresses : WifiApT → Bytes → Bytes → Bytes → Bytes → WifiApT
with_addresses w ap start stop mask = record w {
  ip_ap = memcpy w.ip_ap (terminated ap);
  ip_start = memcpy w.ip_start (terminated start);
  ip_stop = memcpy w.ip_stop (terminated stop);
  ip_netmask = memcpy w.ip_netmask (terminated mask);
}

copy_address :
    (d s : Bytes)
    → IsBuffer 16 d
    → IsAddressText s
    → Utf8.copy d (terminated s) ip_size ≡ copied le_ok d s
copy_address d s b h = rw b.size at (copy-ascii d s h.0 (omega (arith, b.size)))

module _ (w : WifiApT) (h : IsWellFormed w) (ap start stop mask : Bytes) (a : IsAddressText ap)
    (b : IsAddressText start) (c : IsAddressText stop) (d : IsAddressText mask) where
  copy_ip_range_lem :
      copy_ip_range w ap start stop mask ≡ done (with_addresses w ap start stop mask)
  unfolding copy_ip_range
  copy_ip_range_lem = rw (
    copy_address w.ip_ap ap h.ip_ap a,
    copy_address w.ip_start start h.ip_start b,
    copy_address w.ip_stop stop h.ip_stop c,
    copy_address w.ip_netmask mask h.ip_netmask d,
  )

  pub set_ip_range_lem :
      set_ip_range_parameters w (some ap) (some start) (some stop) (some mask)
      ≡ done (no_error, with_addresses w ap start stop mask)
  unfolding set_ip_range_parameters
  set_ip_range_lem =
      let e1 : (too_short ap || too_short start || too_short stop || too_short mask) ≡ false =
        ground arith in
      let e2 : (too_long ap || too_long start || too_long stop || too_long mask) ≡ false =
        ground arith in
      rw (e1, e2, copy_ip_range_lem)

  -- In a structure that meets the invariant, four texts of 1 to 15 ASCII characters are accepted, the
  -- four fields then hold these texts, and every other field keeps its value.
  pub set_ip_range_accepts :
      (w' : WifiApT) × (set_ip_range_parameters w (some ap) (some start) (some stop) (some mask)
        ≡ done (no_error, w'))
      × (c_str w'.ip_ap ≡ ap)
      × (c_str w'.ip_start ≡ start)
      × (c_str w'.ip_stop ≡ stop)
      × (c_str w'.ip_netmask ≡ mask)
      × (record w' {
        ip_ap = w.ip_ap;
        ip_start = w.ip_start;
        ip_stop = w.ip_stop;
        ip_netmask = w.ip_netmask;
      }
          ≡ w)
  set_ip_range_accepts = (
    with_addresses w ap start stop mask,
    set_ip_range_lem,
    c_str-memcpy w.ip_ap ap (IsAscii-IsCString ap a.0),
    c_str-memcpy w.ip_start start (IsAscii-IsCString start b.0),
    c_str-memcpy w.ip_stop stop (IsAscii-IsCString stop c.0),
    c_str-memcpy w.ip_netmask mask (IsAscii-IsCString mask d.0),
    refl,
  )
