-- ===== src/Init/Numbers.antt =====
-- The rounds of the loop of createWifiApData in src/wifiAp.c that set a flag, a number, or an
-- optional text.
use wifiap_binding.Base.{
  ℕ, ◌+◌, ◌<◌, ◌^◌, ◌≡◌, ◌⊎◌, refl, ap, Bool, true, false, inl, inr, Option, none, some, List, ◌∷◌,
  Outcome, done, ◌>>=◌, leb, if◌then◌else◌, arith,
}
use wifiap_binding.Base.Int.{ℤ, pos, negsuc}
use wifiap_binding.Base.Bytes.{Bytes, codes}
use wifiap_binding.Data.Types.{
  WifiApT, Status, no_error, error_invalid, error_too_large, SecurityProtocol, security_none,
  security_wpa2,
}
use wifiap_binding.Data.{same_text, set_security_protocol_parameter}
use wifiap_binding.Binder.{Binder, IsLawful}
use wifiap_binding.Requests.{uint32_max}
use wifiap_binding.Init.{
  Setter, set_s, set_u, set_b, Desc, desc, optional, set_int64, set_value, set_found, fill,
}
use wifiap_binding.Init.Rounds.{done-pair, tested, well, Ends, first_round, string_round}

-- A number that the range tests let pass is of the type of the setter.
int64_value :
    (set : WifiApT → ℕ → Status × WifiApT) (x : ℤ) (w w1 : WifiApT)
    → set_int64 set x w ≡ (no_error, w1)
    → (n : ℕ) × (n < 2 ^ 32) × (set w n ≡ (no_error, w1))
unfolding set_int64
int64_value set (negsuc n) w w1 h = absurd (let bad = ap (λ r. r.0) h in cc)
int64_value set (pos n) w w1 h = tests (leb n uint32_max) refl h
  where
    tests :
        (b : Bool)
        → leb n uint32_max ≡ b
        → (if b then set w n else (error_too_large, w)) ≡ (no_error, w1)
        → (n : ℕ) × (n < 2 ^ 32) × (set w n ≡ (no_error, w1))
    tests true e h = (n, ground arith, h)
    tests false e h = absurd (let bad = ap (λ r. r.0) h in cc)

module _ (B : Binder) where
  int_value :
      (set : WifiApT → ℕ → Status × WifiApT) (val : B.Json) (w w1 : WifiApT)
      → set_value B (set_u set) val w ≡ done (true, w1)
      → (n : ℕ) × (n < 2 ^ 32) × (set w n ≡ (no_error, w1))
  unfolding set_value
  int_value set val w w1 h = chosen (B.is_int val) h
    where
      chosen :
          (b : Bool)
          → (if b then done (tested (set_int64 set (B.json_int64 val) w)) else done (false, w))
            ≡ done (true, w1)
          → (n : ℕ) × (n < 2 ^ 32) × (set w n ≡ (no_error, w1))
      chosen true h = int64_value set (B.json_int64 val) w w1 (well _ w1 h)
      chosen false h = absurd cc

  bool_value :
      (set : WifiApT → Bool → Status × WifiApT) (val : B.Json) (w w1 : WifiApT)
      → set_value B (set_b set) val w ≡ done (true, w1)
      → (b : Bool) × (set w b ≡ (no_error, w1))
  unfolding set_value
  bool_value set val w w1 h = chosen (B.is_boolean val) h
    where
      chosen :
          (b : Bool)
          → (if b then done (tested (set w (B.json_boolean val))) else done (false, w))
            ≡ done (true, w1)
          → (b : Bool) × (set w b ≡ (no_error, w1))
      chosen true h = (B.json_boolean val, well _ w1 h)
      chosen false h = absurd cc

  -- A number was there, and its setter has accepted it.
  pub int_round :
      (key : Bytes) (set : WifiApT → ℕ → Status × WifiApT) (ds : List Desc) (obj : B.Json)
      (w w' : WifiApT)
      → Ends B (desc key (set_u set) ∷ ds) obj w w'
      → (n : ℕ) × (w1 : WifiApT) × (n < 2 ^ 32) × (set w n ≡ (no_error, w1)) × Ends B ds obj w1 w'
  unfolding set_found
  int_round key set ds obj w w' h =
      let (w1, found, rest) = first_round B (desc key (set_u set)) ds obj w w' h in
      there (B.json_field obj key) w1 found rest
    where
      there :
          (o : Option B.Json) (w1 : WifiApT)
          → set_found B (desc key (set_u set)) o w ≡ done (true, w1)
          → Ends B ds obj w1 w'
          → (n : ℕ) × (w1 : WifiApT) × (n < 2 ^ 32)
            × (set w n ≡ (no_error, w1))
            × Ends B ds obj w1 w'
      there none w1 found rest = absurd cc
      there (some val) w1 found rest =
          let (n, fits, runs) = int_value set val w w1 found in (n, w1, fits, runs, rest)

  pub bool_round :
      (key : Bytes) (set : WifiApT → Bool → Status × WifiApT) (ds : List Desc) (obj : B.Json)
      (w w' : WifiApT)
      → Ends B (desc key (set_b set) ∷ ds) obj w w'
      → (b : Bool) × (w1 : WifiApT) × (set w b ≡ (no_error, w1)) × Ends B ds obj w1 w'
  unfolding set_found
  bool_round key set ds obj w w' h =
      let (w1, found, rest) = first_round B (desc key (set_b set)) ds obj w w' h in
      there (B.json_field obj key) w1 found rest
    where
      there :
          (o : Option B.Json) (w1 : WifiApT)
          → set_found B (desc key (set_b set)) o w ≡ done (true, w1)
          → Ends B ds obj w1 w'
          → (b : Bool) × (w1 : WifiApT) × (set w b ≡ (no_error, w1)) × Ends B ds obj w1 w'
      there none w1 found rest = absurd cc
      there (some val) w1 found rest =
          let (b, runs) = bool_value set val w w1 found in (b, w1, runs, rest)

  -- An optional setting is absent, or the round is that of a mandatory one.
  pub optional_round :
      (key : Bytes) (set : Setter) (ds : List Desc) (obj : B.Json) (w w' : WifiApT)
      → Ends B (optional key set ∷ ds) obj w w'
      → Ends B ds obj w w' ⊎ Ends B (desc key set ∷ ds) obj w w'
  unfolding set_found fill
  optional_round key set ds obj w w' h = there (B.json_field obj key) h
    where
      there :
          (o : Option B.Json)
          → (set_found B (optional key set) o w >>= λ r.
              fill B ds obj (if r.0 then 0 else 0 + 1) r.1)
            ≡ done (0, w')
          → Ends B ds obj w w'
            ⊎ ((set_found B (desc key set) o w >>= λ r.
                  fill B ds obj (if r.0 then 0 else 0 + 1) r.1)
                ≡ done (0, w'))
      there none h = inl h
      there (some val) h = inr h

abbrev stores : WifiApT → SecurityProtocol → Outcome (Status × WifiApT)
stores w p = done (no_error, record w { security_protocol = p })

module _ (B : Binder) (law : IsLawful B) where
  -- The protocol is set.
  pub protocol_round :
      (key : Bytes) (ds : List Desc) (obj : B.Json) (w w' : WifiApT)
      → Ends B (desc key (set_s set_security_protocol_parameter) ∷ ds) obj w w'
      → (p : SecurityProtocol) × Ends B ds obj (record w { security_protocol = p }) w'
  unfolding set_security_protocol_parameter
  protocol_round key ds obj w w' h =
      let (s, w1, valid, runs, rest) =
        string_round B law key set_security_protocol_parameter ds obj w w' h in
      let (p, same) = stored s w1 runs in (p, rw same rest)
    where
      chosen :
          (a b : Bool) (w1 : WifiApT)
          → (if a
              then stores w security_none
              else if b
              then stores w security_wpa2
              else done (error_invalid, w))
            ≡ done (no_error, w1)
          → (p : SecurityProtocol) × (record w { security_protocol = p } ≡ w1)
      chosen true b w1 h = (
        security_none,
        (done-pair (no_error, record w { security_protocol = security_none }) (no_error, w1) h).1,
      )
      chosen false true w1 h = (
        security_wpa2,
        (done-pair (no_error, record w { security_protocol = security_wpa2 }) (no_error, w1) h).1,
      )
      chosen false false w1 h =
          absurd (let bad = (done-pair (error_invalid, w) (no_error, w1) h).0 in cc)

      stored :
          (s : Option Bytes) (w1 : WifiApT)
          → set_security_protocol_parameter w s ≡ done (no_error, w1)
          → (p : SecurityProtocol) × (record w { security_protocol = p } ≡ w1)
      stored none w1 h = absurd (let bad = (done-pair (error_invalid, w) (no_error, w1) h).0 in cc)
      stored (some s) w1 h = chosen (same_text s (codes "none")) (same_text s (codes "WPA2")) w1 h
