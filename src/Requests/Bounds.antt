-- ===== src/Requests/Bounds.antt =====
-- The values that src/wifiAp.c decodes from the parameters are values of their C types.
use wifiap_binding.Base.{
  ◌<◌, ◌^◌, ◌≡◌, refl, Bool, true, false, Option, none, some, List, [], ◌∷◌, arith, if◌then◌else◌,
  ◌||◌,
}
use mathlib.Core.Path.{subst}
use wifiap_binding.Base.Bytes.{Bytes}
use wifiap_binding.System.Scan.{strtoul}
use wifiap_binding.Data.Calls.{IsArgument}
use wifiap_binding.Binder.{Binder, IsLawful}
use wifiap_binding.Requests.{
  or_else, and_then, is_stringz, is_json, get_single_string, uint32_of_text, uint32_of_json,
  get_single_uint32,
}

-- What holds of the value, if there is one.
abbrev pub IfSome {ℓ κ} : {A : Type ℓ} → (A → Type κ) → Option A → Type (ℓ ⊔ κ)
IfSome {A} P o = (a : A) → o ≡ some a → P a

IfSome-none {ℓ κ} : {A : Type ℓ} (P : A → Type κ) → IfSome P none
IfSome-none P a e = cc

IfSome-some {ℓ κ} : {A : Type ℓ} (P : A → Type κ) (x : A) → P x → IfSome P (some x)
IfSome-some P x p a e = subst P (cc) p

IfSome-if {ℓ κ} :
    {A : Type ℓ} (P : A → Type κ) (b : Bool) (x y : Option A)
    → (b ≡ true → IfSome P x)
    → (b ≡ false → IfSome P y)
    → IfSome P (if b then x else y)
IfSome-if P true x y p q = p refl
IfSome-if P false x y p q = q refl

IfSome-or_else {ℓ κ} :
    {A : Type ℓ} (P : A → Type κ) (x y : Option A)
    → IfSome P x
    → IfSome P y
    → IfSome P (or_else x y)
IfSome-or_else P none y p q = q
IfSome-or_else P (some a) y p q = p

IfSome-and_then {ℓ κ μ} :
    {A : Type ℓ} {B : Type κ} (P : B → Type μ) (x : Option A) (f : A → Option B)
    → ((a : A) → x ≡ some a → IfSome P (f a))
    → IfSome P (and_then x f)
IfSome-and_then P none f h = IfSome-none P
IfSome-and_then P (some a) f h = h a refl

uint32_of_text-lt : (str : Bytes) → IfSome (λ n. n < 2 ^ 32) (uint32_of_text str)
unfolding uint32_of_text
uint32_of_text-lt str =
    IfSome-if (λ n. n < 2 ^ 32) _ _ _
      (λ h. IfSome-some (λ n. n < 2 ^ 32) (strtoul str).0 (ground arith))
      (λ _. IfSome-none (λ n. n < 2 ^ 32))

module _ (B : Binder) (law : IsLawful B) where
  -- A decoded string is NULL or a C string.
  pub get_single_string-IsArgument :
      (params : List B.Data) → IfSome IsArgument (get_single_string B params)
  unfolding get_single_string
  get_single_string-IsArgument [] = IfSome-none IsArgument
  get_single_string-IsArgument (d ∷ e ∷ params) = IfSome-none IsArgument
  get_single_string-IsArgument (d ∷ []) =
      IfSome-if IsArgument (is_stringz (B.data_type d)) _ _
        (λ _. IfSome-some IsArgument _ (law.text-IsCString d))
        (λ _.
          IfSome-and_then IsArgument (B.to_json d) _
            λ j e. IfSome-some IsArgument _ (of_json j (B.json_string j) refl))
    where
      of_json : (j : B.Json) (s : Option Bytes) → B.json_string j ≡ s → IsArgument s
      of_json j none e = tt
      of_json j (some s) e = law.json_string-IsCString j s e

  uint32_of_json-lt : (j : B.Json) → IfSome (λ n. n < 2 ^ 32) (uint32_of_json B j)
  unfolding uint32_of_json
  uint32_of_json-lt j =
      IfSome-if (λ n. n < 2 ^ 32) _ _ _
        (λ h. IfSome-some (λ n. n < 2 ^ 32) (B.json_uint64 j) (ground arith))
        (λ _. IfSome-none (λ n. n < 2 ^ 32))

  pub get_single_uint32-lt :
      (params : List B.Data) → IfSome (λ n. n < 2 ^ 32) (get_single_uint32 B params)
  unfolding get_single_uint32
  get_single_uint32-lt [] = IfSome-none (λ n. n < 2 ^ 32)
  get_single_uint32-lt (d ∷ e ∷ params) = IfSome-none (λ n. n < 2 ^ 32)
  get_single_uint32-lt (d ∷ []) =
      IfSome-or_else (λ n. n < 2 ^ 32) (B.to_u32 d) _ (law.to_u32-lt d)
        (IfSome-or_else (λ n. n < 2 ^ 32) _ _
          (IfSome-if (λ n. n < 2 ^ 32) (is_stringz (B.data_type d) || is_json (B.data_type d)) _ _
            (λ _. uint32_of_text-lt (B.text d)) (λ _. IfSome-none (λ n. n < 2 ^ 32)))
          (IfSome-and_then (λ n. n < 2 ^ 32) (B.to_json d) _ (λ j _. uint32_of_json-lt j)))
