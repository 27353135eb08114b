-- ===== src/Init/Rounds.antt =====
-- The rounds of the loop of createWifiApData in src/wifiAp.c that count no error, one by one.
use mathlib.Core.Path.{ap₂}
use wifiap_binding.Base.{
  ℕ, ◌+◌, ◌≤◌, ◌≡◌, refl, sym, ap, ◌∙◌, Bool, true, false, inl, inr, Option, none, some, List, [],
  ◌∷◌, done, ◌>>=◌, length, if◌then◌else◌, Option-cases, arith, >>=-eq-done,
}
use wifiap_binding.Base.Bytes.{Bytes, c_str}
use wifiap_binding.Data.Types.{WifiApT, Status, no_error, error_invalid}
use wifiap_binding.Data.{StringSetter, set_buffer, set_string_copy}
use wifiap_binding.Data.Calls.{IsArgument}
use wifiap_binding.Data.Calls.Buffers.{BufferIsSet, set_buffer_cases}
use wifiap_binding.Binder.{Binder, IsLawful}
use wifiap_binding.Init.{set_s, Desc, desc, is_no_error, set_value, set_found, fill}
use wifiap_binding.Init.Filled.{json_string-IsArgument}

pub is_no_error_sound : (s : Status) → is_no_error s ≡ true → s ≡ no_error
unfolding is_no_error
is_no_error_sound no_error h = refl
is_no_error_sound error_invalid h = absurd cc
is_no_error_sound Status.error_oom h = absurd cc
is_no_error_sound Status.error_too_small h = absurd cc
is_no_error_sound Status.error_too_large h = absurd cc
is_no_error_sound Status.error_no_hard h = absurd cc
is_no_error_sound Status.error_many_hard h = absurd cc
is_no_error_sound Status.error_std_ac h = absurd cc
is_no_error_sound Status.error_std_h h = absurd cc

-- The components of a result.
pub done-pair {ℓ κ} :
    {A : Type ℓ} {B : Type κ} (r q : A × B) → done r ≡ done q → (r.0 ≡ q.0) × (r.1 ≡ q.1)
done-pair r q h = (cc, cc)

abbrev pub tested : Status × WifiApT → Bool × WifiApT
tested r = (is_no_error r.0, r.1)

-- A result whose test has passed.
pub well :
    (r : Status × WifiApT) (w1 : WifiApT) → done (tested r) ≡ done (true, w1) → r ≡ (no_error, w1)
well r w1 h =
    let (passed, same) = done-pair (is_no_error r.0, r.1) (true, w1) h in
    ap₂ (λ s w. (s, w)) (is_no_error_sound r.0 passed) same

module _ (B : Binder) where
  fill_grows :
      (ds : List Desc) (obj : B.Json) (err n : ℕ) (w w' : WifiApT)
      → fill B ds obj err w ≡ done (n, w')
      → err ≤ n
  unfolding fill
  fill_grows [] obj err n w w' h = omega (arith, (done-pair (err, w) (n, w') h).0)
  fill_grows (d ∷ ds) obj err n w w' h =
      let (r, found, rest) = >>=-eq-done (set_found B d (B.json_field obj d.key) w) _ h in
      counted r.0 (fill_grows ds obj _ n r.1 w' rest)
    where
      counted : (b : Bool) → (if b then err else err + 1) ≤ n → err ≤ n
      counted true p = p
      counted false p = omega arith

  -- The loop ends with no error counted.
  abbrev pub Ends : List Desc → B.Json → WifiApT → WifiApT → Type 0
  Ends ds obj w w' = fill B ds obj 0 w ≡ done (0, w')

  -- The first round has counted no error, and neither have the rounds after it.
  pub first_round :
      (d : Desc) (ds : List Desc) (obj : B.Json) (w w' : WifiApT)
      → Ends (d ∷ ds) obj w w'
      → (w1 : WifiApT) × (set_found B d (B.json_field obj d.key) w ≡ done (true, w1))
        × Ends ds obj w1 w'
  unfolding fill
  first_round d ds obj w w' h =
      let (r, found, rest) = >>=-eq-done (set_found B d (B.json_field obj d.key) w) _ h in
      counted r.0 r.1 found rest
    where
      counted :
          (b : Bool) (w1 : WifiApT)
          → set_found B d (B.json_field obj d.key) w ≡ done (b, w1)
          → fill B ds obj (if b then 0 else 0 + 1) w1 ≡ done (0, w')
          → (w1 : WifiApT) × (set_found B d (B.json_field obj d.key) w ≡ done (true, w1))
            × Ends ds obj w1 w'
      counted true w1 found rest = (w1, found, rest)
      counted false w1 found rest = absurd (omega (arith, fill_grows ds obj 1 0 w1 w' rest))

module _ (B : Binder) (law : IsLawful B) where
  string_value :
      (set : StringSetter) (val : B.Json) (w w1 : WifiApT)
      → set_value B (set_s set) val w ≡ done (true, w1)
      → (s : Option Bytes) × IsArgument s × (set w s ≡ done (no_error, w1))
  unfolding set_value
  string_value set val w w1 h = chosen (B.is_string val) h
    where
      chosen :
          (b : Bool)
          → (if b then (set w (B.json_string val) >>= λ r. done (tested r)) else done (false, w))
            ≡ done (true, w1)
          → (s : Option Bytes) × IsArgument s × (set w s ≡ done (no_error, w1))
      chosen true h =
          let (r, runs, ends) = >>=-eq-done {B = Bool × WifiApT} (set w (B.json_string val)) _ h in
          (
            B.json_string val,
            json_string-IsArgument B law val _ refl,
            runs ∙ ap done (well r w1 ends),
          )
      chosen false h = absurd cc

  -- A string was there, and its setter has accepted it.
  pub string_round :
      (key : Bytes) (set : StringSetter) (ds : List Desc) (obj : B.Json) (w w' : WifiApT)
      → Ends B (desc key (set_s set) ∷ ds) obj w w'
      → (s : Option Bytes) × (w1 : WifiApT) × IsArgument s
        × (set w s ≡ done (no_error, w1))
        × Ends B ds obj w1 w'
  unfolding set_found
  string_round key set ds obj w w' h =
      let (w1, found, rest) = first_round B (desc key (set_s set)) ds obj w w' h in
      there (B.json_field obj key) w1 found rest
    where
      there :
          (o : Option B.Json) (w1 : WifiApT)
          → set_found B (desc key (set_s set)) o w ≡ done (true, w1)
          → Ends B ds obj w1 w'
          → (s : Option Bytes) × (w1 : WifiApT) × IsArgument s
            × (set w s ≡ done (no_error, w1))
            × Ends B ds obj w1 w'
      there none w1 found rest = absurd cc
      there (some val) w1 found rest =
          let (s, valid, runs) = string_value set val w w1 found in (s, w1, valid, runs, rest)

  -- An array is set to a string of a length between the bounds.
  pub buffer_round :
      (key : Bytes) (set : StringSetter) (ds : List Desc) (obj : B.Json) (w w' : WifiApT)
      → (old : Bytes) (lo hi : ℕ) (put : Bytes → WifiApT)
      → ((s : Option Bytes)
          → set w s ≡ done ((set_buffer old s lo hi).0, put (set_buffer old s lo hi).1))
      → Ends B (desc key (set_s set) ∷ ds) obj w w'
      → (b : Bytes) × (lo ≤ length (c_str b)) × (length (c_str b) ≤ hi) × Ends B ds obj (put b) w'
  buffer_round key set ds obj w w' old lo hi put computes h =
      let (s, w1, valid, runs, rest) = string_round key set ds obj w w' h in
      let (accepted, same) =
        done-pair ((set_buffer old s lo hi).0, put (set_buffer old s lo hi).1) (no_error, w1)
          (sym (computes s) ∙ runs) in
      let (low, high) = stored s accepted (set_buffer_cases old s lo hi valid) in
      ((set_buffer old s lo hi).1, low, high, rw same rest)
    where
      stored :
          (s : Option Bytes)
          → (set_buffer old s lo hi).0 ≡ no_error
          → BufferIsSet lo hi old s (set_buffer old s lo hi)
          → (lo ≤ length (c_str (set_buffer old s lo hi).1))
            × (length (c_str (set_buffer old s lo hi).1) ≤ hi)
      stored none e (bad, _) = absurd cc
      stored (some src) e (inl (low, high, _, view)) = (rw view low, rw view high)
      stored (some src) e (inr (inl (_, bad, _))) = absurd cc
      stored (some src) e (inr (inr (_, _, bad, _))) = absurd cc

  -- A name is set to a string.
  pub name_round :
      (strdup : Bytes → Option Bytes)
      → (key : Bytes) (set : StringSetter) (ds : List Desc) (obj : B.Json) (w w' : WifiApT)
      → (old : Option Bytes) (put : Option Bytes → WifiApT)
      → ((s : Option Bytes)
          → set w s ≡ done ((set_string_copy strdup old s).0, put (set_string_copy strdup old s).1))
      → Ends B (desc key (set_s set) ∷ ds) obj w w'
      → (name : Bytes) × Ends B ds obj (put (some name)) w'
  unfolding set_string_copy
  name_round strdup key set ds obj w w' old put computes h =
      let (s, w1, valid, runs, rest) = string_round key set ds obj w w' h in
      let (accepted, same) =
        done-pair ((set_string_copy strdup old s).0, put (set_string_copy strdup old s).1)
          (no_error, w1) (sym (computes s) ∙ runs) in
      let (name, copied) = stored s accepted in (name, rw (← copied) (rw same rest))
    where
      stored :
          (s : Option Bytes)
          → (set_string_copy strdup old s).0 ≡ no_error
          → (name : Bytes) × ((set_string_copy strdup old s).1 ≡ some name)
      stored none e = absurd cc
      stored (some []) e = absurd cc
      stored (some (c ∷ src)) e = elim (Option-cases (strdup (c ∷ src))) [
        | inl empty ↦ absurd (let bad = rw empty at e in cc)
        | inr (t, copy) ↦ (t, rw copy refl)
      ]
