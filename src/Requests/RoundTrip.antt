-- ===== src/Requests/RoundTrip.antt =====
-- A number that a client sends as its decimal text is the number that src/wifiAp.c decodes.
use wifiap_binding.Base.{
  ℕ, ◌<◌, ◌^◌, ◌≡◌, refl, true, none, some, [], ◌∷◌, leb, if◌then◌else◌, arith,
}
use wifiap_binding.System.Format.{decimal}
use wifiap_binding.System.Decimal.{strtoul-decimal}
use wifiap_binding.Binder.{Binder, stringz_type}
use wifiap_binding.Requests.{uint32_max, uint32_of_text, get_single_uint32}

-- The decimal text of a number below 2 ^ 64 is decoded to the number, if it fits 32 bits, and
-- refused if it does not.
pub uint32_of_text-decimal :
    (n : ℕ) → n < 2 ^ 64 → uint32_of_text (decimal n) ≡ (if leb n uint32_max then some n else none)
unfolding uint32_of_text
uint32_of_text-decimal n h = rw (strtoul-decimal n h) refl

-- A parameter of the type STRINGZ that holds the decimal text of a number, and that the framework does not
-- convert itself, gives the number.
pub get_single_uint32-decimal :
    (B : Binder) (d : B.Data) (n : ℕ)
    → B.to_u32 d ≡ none
    → B.data_type d ≡ stringz_type
    → B.text d ≡ decimal n
    → n < 2 ^ 32
    → get_single_uint32 B (d ∷ []) ≡ some n
unfolding get_single_uint32
get_single_uint32-decimal B d n unconverted type text fits =
    let small : leb n uint32_max ≡ true = ground arith in
    rw unconverted (rw type (rw text (rw (uint32_of_text-decimal n (omega arith)) (rw small refl))))
