-- ===== src/Client/Codec/Digits.antt =====
-- The decimal digits of a number are read back as the number.
use Prim.Native.Char.{code}
use Prim.Native.String.{◌++◌}
use Prim.Native.String.append
use loomabase.Base.{
  ℕ, zero, suc, ◌+◌, ◌-◌, ◌*◌, ◌/◌, ◌%◌, ◌^◌, ◌<◌, String, ◌≡◌, refl, ap, ◌∙◌, inl, inr, Bool-cases,
  Option, none, some, ltb, arith,
}
use loomabase.Base.Decimal.{digit, decimal_from}
use loomabase.Client.Codec.{is_digit, parse_digits}

abbrev continue : Option ℕ → String → Option ℕ
continue none t = none
continue (some n) t = parse_digits n t

-- Reading goes on where the first part ends.
parse_digits-append :
    (a : ℕ) (s t : String) → parse_digits a (s ++ t) ≡ continue (parse_digits a s) t
unfolding parse_digits
parse_digits-append a String.[] t = ap (parse_digits a) (append.nil t)
parse_digits-append a (String.◌∷◌ c s) t = elim (Bool-cases (is_digit (code c))) [
  | inl yes_digit ↦
      ap (parse_digits a) (append.cons c s t)
      ∙ ground (arith, parse_digits-append (a * 10 + (code c - 0x30)) s t)
  | inr no_digit ↦ ap (parse_digits a) (append.cons c s t) ∙ ground arith
]

parse_digit : (a d : ℕ) → d < 10 → parse_digits a (digit d) ≡ some (a * 10 + d)
unfolding parse_digits
parse_digit a zero h = refl
parse_digit a (suc zero) h = refl
parse_digit a (suc (suc zero)) h = refl
parse_digit a (suc (suc (suc zero))) h = refl
parse_digit a (suc (suc (suc (suc zero)))) h = refl
parse_digit a (suc (suc (suc (suc (suc zero))))) h = refl
parse_digit a (suc (suc (suc (suc (suc (suc zero)))))) h = refl
parse_digit a (suc (suc (suc (suc (suc (suc (suc zero))))))) h = refl
parse_digit a (suc (suc (suc (suc (suc (suc (suc (suc zero)))))))) h = refl
parse_digit a (suc (suc (suc (suc (suc (suc (suc (suc (suc zero))))))))) h = refl
parse_digit a (suc (suc (suc (suc (suc (suc (suc (suc (suc (suc d)))))))))) h = absurd (omega arith)

power_suc : (fuel : ℕ) → 10 ^ suc fuel ≡ 10 * 10 ^ fuel
power_suc fuel = omega arith

-- Enough fuel for the digits of the number.
pub parse_digits-decimal_from :
    (fuel n : ℕ) → n < 10 ^ fuel → parse_digits 0 (decimal_from fuel n) ≡ some n
unfolding decimal_from parse_digits
parse_digits-decimal_from zero n h = ap (λ (m : ℕ). some m) (omega arith)
parse_digits-decimal_from (suc fuel) n h = elim (Bool-cases (ltb n 10)) [
  | inl one ↦ rw one (parse_digit 0 n (ground arith) ∙ ap (λ (m : ℕ). some m) (no_tens n))
  | inr more ↦ rw more (
      parse_digits-append 0 (decimal_from fuel (n / 10)) (digit (n % 10))
      ∙ ap (λ (o : Option ℕ). continue o (digit (n % 10)))
          (parse_digits-decimal_from fuel (n / 10) (let power = power_suc fuel in omega arith))
      ∙ parse_digit (n / 10) (n % 10) (omega arith)
      ∙ ap (λ (m : ℕ). some m) (digits_sum n))
]
  where
    digits_sum : (n : ℕ) → n / 10 * 10 + n % 10 ≡ n
    digits_sum n = omega arith

    no_tens : (n : ℕ) → 0 * 10 + n ≡ n
    no_tens n = omega arith
