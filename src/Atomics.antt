-- ===== src/Atomics.antt =====
-- The atomic cells of runtime/src/atomics.c. All the operations are sequentially consistent, so the calls
-- of the tasks on one cell are one list of operations, in the order in which they take effect. A cell of a
-- w-bit type holds its w bits as a number: those of a signed type are its two's complement, on which
-- C's atomic addition and subtraction wrap, and those of a floating type are its representation, which
-- is what a compare and swap compares. There is an operation for each function, and a definition for each
-- type, with the operations the type has.
pub mod Bits
pub mod Laws
mod Tests
use Prim.Native.Nat.{bit_and, bit_or, bit_xor}
use picasso_lang.Base.{ℕ, ◌+◌, ◌-◌, ◌%◌, ◌^◌, Bool, true, false, List, [], ◌∷◌, ◌==◌, if◌then◌else◌}

-- What a function returns: nothing, a value of the cell's type, or whether the swap was made.
pub data Result : Type 0 where
  void : Result
  value : ℕ → Result
  swapped : Bool → Result

-- The functions that every type has: store, load, exchange, and cas with `expected` and `desired`.
pub data Plain : Type 0 where
  store : ℕ → Plain
  load : Plain
  exchange : ℕ → Plain
  cas : ℕ → ℕ → Plain

-- Those of the integer types.
pub data Op : Type 0 where
  plain : Plain → Op
  add : ℕ → Op
  sub : ℕ → Op
  and_bits : ℕ → Op
  or_bits : ℕ → Op
  xor_bits : ℕ → Op

-- The cell afterwards and what the call returns.
unfoldable pub exec_plain : Plain → ℕ → ℕ × Result
exec_plain (store val) cell = (val, void)
exec_plain load cell = (cell, value cell)
exec_plain (exchange val) cell = (val, value cell)
exec_plain (cas expected desired) cell =
    if cell == expected then (desired, swapped true) else (cell, swapped false)

-- On a cell of `w` bits.
unfoldable pub exec : ℕ → Op → ℕ → ℕ × Result
unfolding exec_plain
exec w (plain op) cell = exec_plain op cell
exec w (add val) cell = ((cell + val) % 2 ^ w, value cell)
exec w (sub val) cell = ((cell + (2 ^ w - val)) % 2 ^ w, value cell)
exec w (and_bits val) cell = (bit_and cell val, value cell)
exec w (or_bits val) cell = (bit_or cell val, value cell)
exec w (xor_bits val) cell = (bit_xor cell val, value cell)

-- The calls on one cell, in the order in which they take effect.
unfoldable pub exec_all : ℕ → List Op → ℕ → ℕ × List Result
unfolding exec
exec_all w [] cell = (cell, [])
exec_all w (op ∷ ops) cell =
    let (cell1, r) = exec w op cell in let (cell2, rs) = exec_all w ops cell1 in (cell2, r ∷ rs)

-- One type after the other. `_Bool` has one bit.
unfoldable pub atomics_boolean : Plain → ℕ → ℕ × Result
atomics_boolean = exec_plain

unfoldable pub atomics_uint8 : Op → ℕ → ℕ × Result
atomics_uint8 = exec 8

unfoldable pub atomics_uint16 : Op → ℕ → ℕ × Result
atomics_uint16 = exec 16

unfoldable pub atomics_uint32 : Op → ℕ → ℕ × Result
atomics_uint32 = exec 32

unfoldable pub atomics_uint64 : Op → ℕ → ℕ × Result
atomics_uint64 = exec 64

unfoldable pub atomics_int8 : Op → ℕ → ℕ × Result
atomics_int8 = exec 8

unfoldable pub atomics_int16 : Op → ℕ → ℕ × Result
atomics_int16 = exec 16

unfoldable pub atomics_int32 : Op → ℕ → ℕ × Result
atomics_int32 = exec 32

unfoldable pub atomics_int64 : Op → ℕ → ℕ × Result
atomics_int64 = exec 64

-- The functions named `int` take an `int64_t`.
unfoldable pub atomics_int : Op → ℕ → ℕ × Result
atomics_int = exec 64

unfoldable pub atomics_float16 : Plain → ℕ → ℕ × Result
atomics_float16 = exec_plain

unfoldable pub atomics_float32 : Plain → ℕ → ℕ × Result
atomics_float32 = exec_plain

unfoldable pub atomics_float64 : Plain → ℕ → ℕ × Result
atomics_float64 = exec_plain

unfoldable pub atomics_double : Plain → ℕ → ℕ × Result
atomics_double = exec_plain

unfoldable pub atomics_ptr : Plain → ℕ → ℕ × Result
atomics_ptr = exec_plain
