-- ===== src/Float.antt =====
-- Go's float64 as an interface: the operations that the schedulers use. Rounding is left open.
use dnscrypt_proxy_fork.Base.{ℕ, ◌+◌, ◌*◌, ◌-◌, ◌/◌, Bool, ltb, leb, ◌==◌, min}
use dnscrypt_proxy_fork.Base.Int.{ℤ, pos, negsuc}

pub record Float64 : Type 1 where
  pub Carrier : Type 0
  -- `float64(n)` for an integer
  pub of_int : ℤ → Carrier
  -- the constant nearest to the quotient of two numbers
  pub literal : ℕ → ℕ → Carrier
  pub max_float : Carrier
  pub add : Carrier → Carrier → Carrier
  pub sub : Carrier → Carrier → Carrier
  pub mul : Carrier → Carrier → Carrier
  pub div : Carrier → Carrier → Carrier
  pub abs : Carrier → Carrier
  pub minimum : Carrier → Carrier → Carrier
  pub lt : Carrier → Carrier → Bool
  pub le : Carrier → Carrier → Bool
  pub eq : Carrier → Carrier → Bool
  -- `uint64(math.Ceil(x))` and `time.Duration(x)`
  pub ceil_uint64 : Carrier → ℕ
  pub to_int : Carrier → ℤ

-- Natural numbers in units of 1/1000 in place of floats, for running the model.
abbrev pub nat_of_int : ℤ → ℕ
nat_of_int (pos n) = n * 1000
nat_of_int (negsuc n) = 0

abbrev pub milli : Float64
milli = record {
  Carrier = ℕ;
  of_int = nat_of_int;
  literal = λ a b. a * 1000 / b;
  max_float = 1_000_000_000_000;
  add = λ a b. a + b;
  sub = λ a b. a - b;
  mul = λ a b. a * b / 1000;
  div = λ a b. a * 1000 / b;
  abs = λ a. a;
  minimum = λ a b. min a b;
  lt = λ a b. ltb a b;
  le = λ a b. leb a b;
  eq = λ a b. a == b;
  ceil_uint64 = λ a. (a + 999) / 1000;
  to_int = λ a. pos (a / 1000);
}
