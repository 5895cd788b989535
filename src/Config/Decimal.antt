-- ===== src/Config/Decimal.antt =====
-- Rust's `to_string` on a `usize`, which node/config/src/lib.rs writes the port with.
use Prim.Native.Char.{Char, code}
use Prim.Native.String.{[], ◌∷◌}
use braidpool.Base.{ℕ, zero, suc, ◌+◌, ◌/◌, ◌%◌, ◌<◌, ◌≡◌, refl, String, arith, ltb, if◌then◌else◌}

-- The character of a digit.
abbrev pub digit : ℕ → Char
digit zero = "0"
digit (suc zero) = "1"
digit (suc (suc zero)) = "2"
digit (suc (suc (suc zero))) = "3"
digit (suc (suc (suc (suc zero)))) = "4"
digit (suc (suc (suc (suc (suc zero))))) = "5"
digit (suc (suc (suc (suc (suc (suc zero)))))) = "6"
digit (suc (suc (suc (suc (suc (suc (suc zero))))))) = "7"
digit (suc (suc (suc (suc (suc (suc (suc (suc zero)))))))) = "8"
digit (suc (suc (suc (suc (suc (suc (suc (suc (suc n))))))))) = "9"

-- The digits of `n` before `out`, on fuel.
unfoldable pub push_digits : ℕ → ℕ → String → String
push_digits zero n out = out
push_digits (suc fuel) n out =
    let rest = push_digits fuel (n / 10) (digit (n % 10) ∷ out) in
    if ltb n 10 then digit (n % 10) ∷ out else rest

-- A number below 2 ^ 64 has at most twenty digits.
unfoldable pub to_string : ℕ → String
unfolding push_digits
to_string n = push_digits 20 n []

-- A check on the printer.
to_string_6680 : to_string 6680 ≡ "6680"
unfolding to_string
to_string_6680 = refl

pub code-digit : (n : ℕ) → n < 10 → code (digit n) ≡ 48 + n
code-digit zero h = refl
code-digit (suc zero) h = refl
code-digit (suc (suc zero)) h = refl
code-digit (suc (suc (suc zero))) h = refl
code-digit (suc (suc (suc (suc zero)))) h = refl
code-digit (suc (suc (suc (suc (suc zero))))) h = refl
code-digit (suc (suc (suc (suc (suc (suc zero)))))) h = refl
code-digit (suc (suc (suc (suc (suc (suc (suc zero))))))) h = refl
code-digit (suc (suc (suc (suc (suc (suc (suc (suc zero)))))))) h = refl
code-digit (suc (suc (suc (suc (suc (suc (suc (suc (suc zero))))))))) h = refl
code-digit (suc (suc (suc (suc (suc (suc (suc (suc (suc (suc n)))))))))) h = absurd (omega arith)
