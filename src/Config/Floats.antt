-- ===== src/Config/Floats.antt =====
-- Floating-point numbers. An f64 is held as its bit pattern, so 0.0 is 0; the operations are a
-- parameter of the model, since their rounding is the processor's.
use nperf.Base.{ℕ, ◌+◌, ◌-◌, ◌/◌, ◌^◌, ◌<◌, ◌≡◌, Bool, List}

abbrev pub F64 : Type 0
F64 = ℕ

abbrev pub zero_f64 : F64
zero_f64 = 0

-- `of_u64`, `of_i64` (from the two's complement pattern) and `to_u64` are the conversions by `as`;
-- `display` is the text of a number by `{}`; `billionth` is 1e-9.
pub record Floats : Type 0 where
  pub of_u64 : ℕ → F64
  pub of_i64 : ℕ → F64
  pub to_u64 : F64 → ℕ
  pub add : F64 → F64 → F64
  pub sub : F64 → F64 → F64
  pub mul : F64 → F64 → F64
  pub div : F64 → F64 → F64
  pub fmin : F64 → F64 → F64
  pub fmax : F64 → F64 → F64
  pub feq : F64 → F64 → Bool
  pub flt : F64 → F64 → Bool
  pub fle : F64 → F64 → Bool
  pub abs : F64 → F64
  pub floor : F64 → F64
  pub ceil : F64 → F64
  pub round : F64 → F64
  pub billionth : F64
  pub display : F64 → List ℕ

-- The quotient of two u32 is rounded so little that its ceiling is that of the exact quotient.
abbrev pub CeilsQuotients : Floats → Type 0
CeilsQuotients fl =
    (a b : ℕ)
    → a < 2 ^ 32
    → b < 2 ^ 32
    → 0 < b
    → fl.to_u64 (fl.ceil (fl.div (fl.of_u64 a) (fl.of_u64 b))) ≡ (a + b - 1) / b
