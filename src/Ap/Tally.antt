-- ===== src/Ap/Tally.antt =====
-- The loop of the event thread counts the clients that join and leave.
use wifiap_binding.Base.{
  ℕ, zero, suc, ◌+◌, ◌≡◌, refl, Bool, true, false, not, ◌&&◌, Option, none, some, List, [], ◌∷◌,
  if◌then◌else◌, length, arith, ap, ◌∙◌, ◌⊎◌, inl, inr, ◌<◌, ◌≤◌, sym, All,
}
use mathlib.Core.Path.{ap₂, subst}
use wifiap_binding.Base.Bytes.{Bytes, codes}
use wifiap_binding.Base.Int.{ℤ, pos, negsuc}
use wifiap_binding.Ap.Clients.{
  increment, decrement, strstr, is_on_interface, ClientEvent, event_info, handle_line, push,
  main_loop,
}

-- The difference of two counts.
pub balance : ℕ → ℕ → ℤ
balance a zero = pos a
balance zero (suc b) = negsuc b
balance (suc a) (suc b) = balance a b

increment-balance : (a b : ℕ) → increment (balance a b) ≡ balance (suc a) b
unfolding increment balance
increment-balance a zero = ap pos (omega arith)
increment-balance zero (suc zero) = refl
increment-balance zero (suc (suc b)) = refl
increment-balance (suc a) (suc b) = increment-balance a b

decrement-balance : (a b : ℕ) → decrement (balance a b) ≡ balance a (suc b)
unfolding decrement balance
decrement-balance zero zero = refl
decrement-balance (suc a) zero = refl
decrement-balance zero (suc b) = ap negsuc (omega arith)
decrement-balance (suc a) (suc b) = decrement-balance a b

-- The lines that tell of a client that leaves, and of one that joins.
pub tells_leave : Bytes → Bytes → Bool
tells_leave interface line = strstr line (codes "del station") && is_on_interface interface line

pub tells_join : Bytes → Bytes → Bool
tells_join interface line =
    not (strstr line (codes "del station"))
    && strstr line (codes "new station")
    && is_on_interface interface line

pub count_if : (Bytes → Bool) → List Bytes → ℕ
count_if test [] = 0
count_if test (line ∷ lines) = (if test line then 1 else 0) + count_if test lines

pub count_if_le : (test : Bytes → Bool) (lines : List Bytes) → count_if test lines ≤ length lines
unfolding count_if
count_if_le test [] = omega arith
count_if_le test (line ∷ lines) = ground (arith, count_if_le test lines)

-- An integer that an `int` of 32 bits holds.
pub IsInt : ℤ → Type 0
IsInt (pos n) = n < 2147483648
IsInt (negsuc n) = n < 2147483648

balance-IsInt : (a b : ℕ) → a < 2147483648 → b < 2147483648 → IsInt (balance a b)
unfolding balance IsInt
balance-IsInt a zero lt _ = lt
balance-IsInt zero (suc b) _ lt = omega arith
balance-IsInt (suc a) (suc b) lt lt' = balance-IsInt a b (omega arith) (omega arith)

-- What the loop comes to, from the counts `a` and `b` of clients that joined and left before it.
pub record IsTally (interface : Bytes) (lines : List Bytes) (a b : ℕ) (r : ℤ × List ClientEvent)
    : Type 0 where
  pub count :
      r.0
      ≡ balance
          (a + count_if (tells_join interface) lines)
          (b + count_if (tells_leave interface) lines)
  pub pushed :
      length r.1 ≡ count_if (tells_join interface) lines + count_if (tells_leave interface) lines
  pub in_range : All (λ e. IsInt e.number_client) r.1

-- What one round can come to, by its three tests.
abbrev RoundCases : Bool → Bool → ℤ → ClientEvent → ClientEvent → ℤ × Option ClientEvent → Type 0
RoundCases joins leaves n leaving joining r =
    ((leaves ≡ true) × (joins ≡ false) × (r ≡ (decrement n, some leaving)))
    ⊎ ((leaves ≡ false) × (joins ≡ true) × (r ≡ (increment n, some joining)))
    ⊎ ((leaves ≡ false) × (joins ≡ false) × (r ≡ (n, none)))

round_cases :
    (del new on : Bool) (n : ℤ) (e f : ClientEvent)
    → RoundCases (not del && new && on) (del && on) n e f (
        if del
        then (if on then (decrement n, some e) else (n, none))
        else if new
        then (if on then (increment n, some f) else (n, none))
        else (n, none))
round_cases true new true n e f = inl (refl, refl, refl)
round_cases true new false n e f = inr (inr (refl, refl, refl))
round_cases false true true n e f = inr (inl (refl, refl, refl))
round_cases false true false n e f = inr (inr (refl, refl, refl))
round_cases false false on n e f = inr (inr (refl, refl, refl))

leaving : ℤ → ClientEvent
leaving n = record {
  event = event_info (codes "WiFi client disconnected");
  number_client = decrement n;
}

joining : ℤ → ClientEvent
joining n = record {
  event = event_info (codes "WiFi client connected");
  number_client = increment n;
}

handle_line_cases :
    (interface line : Bytes) (n : ℤ)
    → RoundCases
        (tells_join interface line)
        (tells_leave interface line)
        n
        (leaving n)
        (joining n)
        (handle_line interface line n)
unfolding handle_line tells_join tells_leave leaving joining
handle_line_cases interface line n =
    round_cases (strstr line (codes "del station")) (strstr line (codes "new station"))
      (is_on_interface interface line) n _ _

counted :
    (test : Bytes → Bool) (line : Bytes) (lines : List Bytes)
    → test line ≡ true
    → count_if test (line ∷ lines) ≡ count_if test lines + 1
unfolding count_if
counted test line lines h = rw h (omega arith)

skipped :
    (test : Bytes → Bool) (line : Bytes) (lines : List Bytes)
    → test line ≡ false
    → count_if test (line ∷ lines) ≡ count_if test lines
unfolding count_if
skipped test line lines h = rw h (omega arith)

empty-IsTally : (interface : Bytes) (a b : ℕ) → IsTally interface [] a b (balance a b, [])
unfolding count_if
empty-IsTally interface a b =
    let ea : a ≡ a + 0 = omega arith in
    let eb : b ≡ b + 0 = omega arith in
    record { count = ap₂ balance ea eb; pushed = refl; in_range = tt }

push-All :
    (event : Option ClientEvent) (events : List ClientEvent)
    → ((e : ClientEvent) → event ≡ some e → IsInt e.number_client)
    → All (λ e. IsInt e.number_client) events
    → All (λ e. IsInt e.number_client) (push event events)
unfolding push
push-All none events _ all = all
push-All (some e) events sent all = (sent e refl, all)

none-IsInt : (e : ClientEvent) → ◌≡◌ {A = Option ClientEvent} none (some e) → IsInt e.number_client
none-IsInt e eq = absurd (ground arith)

sent-IsInt :
    (d e : ClientEvent)
    → IsInt d.number_client
    → ◌≡◌ {A = Option ClientEvent} (some d) (some e)
    → IsInt e.number_client
sent-IsInt d e h eq = let same : d ≡ e = cc in subst (λ c. IsInt c.number_client) same h

leaving-IsInt :
    (a b : ℕ)
    → a < 2147483648
    → suc b < 2147483648
    → (e : ClientEvent) → some (leaving (balance a b)) ≡ some e
    → IsInt e.number_client
unfolding leaving
leaving-IsInt a b lt lt' e =
    sent-IsInt (leaving (balance a b)) e
      (subst IsInt (sym (decrement-balance a b)) (balance-IsInt a (suc b) lt lt'))

joining-IsInt :
    (a b : ℕ)
    → suc a < 2147483648
    → b < 2147483648
    → (e : ClientEvent) → some (joining (balance a b)) ≡ some e
    → IsInt e.number_client
unfolding joining
joining-IsInt a b lt lt' e =
    sent-IsInt (joining (balance a b)) e
      (subst IsInt (sym (increment-balance a b)) (balance-IsInt (suc a) b lt lt'))

next-IsTally :
    (interface line : Bytes) (lines : List Bytes) (a b a' b' : ℕ) (event : Option ClientEvent)
    (r : ℤ × List ClientEvent)
    → IsTally interface lines a' b' r
    → a' + count_if (tells_join interface) lines
      ≡ a + count_if (tells_join interface) (line ∷ lines)
    → b' + count_if (tells_leave interface) lines
      ≡ b + count_if (tells_leave interface) (line ∷ lines)
    → length (push event r.1) + a + b ≡ length r.1 + a' + b'
    → ((e : ClientEvent) → event ≡ some e → IsInt e.number_client)
    → IsTally interface (line ∷ lines) a b (r.0, push event r.1)
next-IsTally interface line lines a b a' b' event r rest ea eb ep sent = record {
  count = rest.count ∙ ap₂ balance ea eb;
  pushed = omega (arith, rest.pushed);
  in_range = push-All event r.1 sent rest.in_range;
}

-- Started with the difference of two counts, the loop ends with the difference of these counts, each
-- with the lines added that tell of a client that joined, or left, on the interface, and it pushes
-- one event for each such line. The two counts that it ends with are below 2 ^ 31, which keeps the
-- number in each pushed event within an `int` of 32 bits.
pub main_loop_lem :
    (interface : Bytes) (lines : List Bytes) (a b : ℕ)
    → a + count_if (tells_join interface) lines < 2147483648
    → b + count_if (tells_leave interface) lines < 2147483648
    → IsTally interface lines a b (main_loop interface lines (balance a b))
unfolding main_loop
main_loop_lem interface [] a b _ _ = empty-IsTally interface a b
main_loop_lem interface (line ∷ lines) a b lt lt' =
    let joins = tells_join interface in
    let leaves = tells_leave interface in
    elim (handle_line_cases interface line (balance a b)) [
      | inl (l, j, e) ↦
          let ej = skipped joins line lines j in
          let el = counted leaves line lines l in
          rw (e, decrement-balance a b)
            (next-IsTally interface line lines a b a (suc b) (some (leaving (balance a b)))
              (main_loop interface lines (balance a (suc b)))
              (main_loop_lem interface lines a (suc b) (omega (arith, ej)) (omega (arith, el)))
              (omega (arith, ej)) (omega (arith, el)) (omega arith)
              (leaving-IsInt a b (omega arith) (omega (arith, el))))
      | inr (inl (l, j, e)) ↦
          let ej = counted joins line lines j in
          let el = skipped leaves line lines l in
          rw (e, increment-balance a b)
            (next-IsTally interface line lines a b (suc a) b (some (joining (balance a b)))
              (main_loop interface lines (balance (suc a) b))
              (main_loop_lem interface lines (suc a) b (omega (arith, ej)) (omega (arith, el)))
              (omega (arith, ej)) (omega (arith, el)) (omega arith)
              (joining-IsInt a b (omega (arith, ej)) (omega arith)))
      | inr (inr (l, j, e)) ↦
          let ej = skipped joins line lines j in
          let el = skipped leaves line lines l in
          rw e (
            next-IsTally interface line lines a b a b none (main_loop interface lines (balance a b))
              (main_loop_lem interface lines a b (omega (arith, ej)) (omega (arith, el)))
              (omega (arith, ej)) (omega (arith, el)) (omega arith) (none-IsInt))
    ]
