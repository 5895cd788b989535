-- ===== src/Config/Address.antt =====
-- The bind address of node/config/src/lib.rs, read back.
use Prim.Native.Char.{code}
use Prim.Native.String.{[], ◌∷◌}
use Prim.Native.String.append
use braidpool.Base.{
  ℕ, zero, suc, ◌+◌, ◌-◌, ◌*◌, ◌/◌, ◌%◌, ◌^◌, ◌<◌, ◌≡◌, ap, ◌∙◌, ◌⊎◌, inl, inr, ◌≤◌, String, ◌<>◌,
  true, false, arith, ltb, ◌==◌, if◌then◌else◌,
}
use braidpool.Config.Decimal.{push_digits, to_string, digit, code-digit}
use braidpool.Config.{NetworkConfig, get_bind_address}

-- The number behind the last colon of a text.
abbrev port_from : ℕ → String → ℕ
port_from v [] = v
port_from v (c ∷ s) = port_from (if code c == b':' then 0 else 10 * v + (code c - b'0')) s

abbrev pub port_of : String → ℕ
port_of s = port_from 0 s

port_from-digit :
    (v d : ℕ) (out : String) → d < 10 → port_from v (digit d ∷ out) ≡ port_from (10 * v + d) out
port_from-digit v d out h = ground (arith, code-digit d h)

zero_eq : (n : ℕ) → n < 10 ^ 0 → 0 ≡ n
zero_eq n h = omega arith

cases : (n : ℕ) → (n < 10) ⊎ (10 ≤ n)
cases n = omega arith

lt→ltb : (a b : ℕ) → a < b → ltb a b ≡ true
lt→ltb a b h = ground arith

ge→ltb : (a b : ℕ) → b ≤ a → ltb a b ≡ false
ge→ltb a b h = ground arith

last_digit : (n : ℕ) → n < 10 → 10 * 0 + n % 10 ≡ n
last_digit n h = omega arith

digits_of : (n : ℕ) → 10 * (n / 10) + n % 10 ≡ n
digits_of n = omega arith

tenth : (n fuel : ℕ) → n < 10 ^ suc fuel → n / 10 < 10 ^ fuel
tenth n fuel h = omega arith

port_from-push_digits :
    (fuel n : ℕ) (out : String)
    → n < 10 ^ fuel
    → port_from 0 (push_digits fuel n out) ≡ port_from n out
unfolding push_digits
port_from-push_digits zero n out h = ap (λ m. port_from m out) (zero_eq n h)
port_from-push_digits (suc fuel) n out h = elim (cases n) [
  | inl small ↦
      rw (lt→ltb n 10 small, port_from-digit 0 (n % 10) out (omega arith))
        (ap (λ m. port_from m out) (last_digit n small))
  | inr large ↦
      rw
        (
          ge→ltb n 10 large,
          port_from-push_digits fuel (n / 10) (digit (n % 10) ∷ out) (tenth n fuel h),
          port_from-digit (n / 10) (n % 10) out (omega arith),
        )
        (ap (λ m. port_from m out) (digits_of n))
]

port_from-append : (bind s : String) (v : ℕ) → port_from v (bind <> (":" <> s)) ≡ port_from 0 s
port_from-append [] s v =
    rw append.nil (ap (port_from v) (append.cons ":" [] s) ∙ ap (port_from 0) (append.nil s))
port_from-append (c ∷ bind) s v = rw (append.cons c bind (":" <> s)) (port_from-append bind s _)

-- The number behind the last colon of a bind address is the port, if the port is below 2 ^ 64.
pub port_of-get_bind_address :
    (n : NetworkConfig) → n.port < 2 ^ 64 → port_of (get_bind_address n) ≡ n.port
unfolding get_bind_address to_string
port_of-get_bind_address n h =
    port_from-append n.bind (to_string n.port) 0 ∙ port_from-push_digits 20 n.port [] (omega arith)
