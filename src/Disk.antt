-- ===== src/Disk.antt =====
-- The synchronous functions of runtime/src/diskio.c. What the system answers to the calls of a loop, one after
-- the other, is a list, and a loop that has no answer left is still in its call.
pub mod Printf
pub mod Loops
pub mod Files
pub mod Request
mod Tests
use picasso_lang.Base.{
  ℕ, ◌+◌, ◌-◌, ◌*◌, ◌^◌, min, Bool, true, false, ◌||◌, Option, none, some, List, [], ◌∷◌, ◌++◌,
  ◌==◌, ltb, leb, if◌then◌else◌, length, take, drop, set, replicate,
}
use picasso_lang.Base.Int.{ℤ, pos, negsuc, ltb_ℤ}
use picasso_lang.Text.Ops.{to_int, read_bytes}

-- A call moves the bytes that there are and that are asked for, but no more than the number; or it returns -1,
-- with EINTR in `errno` or with something else.
pub data Answer : Type 0 where
  moves : ℕ → Answer
  interrupted : Answer
  fails : Answer

-- What comes of a function: it is still in a call, it has passed memory to the system that is not its own, or it
-- has returned, `none` for -1 or NULL.
pub data Outcome (A : Type 0) : Type 0 where
  waits : Outcome A
  faults : Outcome A
  returned : A → Outcome A

-- The loop over `write` in `__public__syncio_printf` and `__public__syncio_fwrite`: `p` is the memory that the
-- pointer points to, and `sent` what has gone to the descriptor.
unfoldable pub write_loop : List Answer → List ℕ → ℕ → ℕ → List ℕ → Outcome (Option ℕ × List ℕ)
write_loop [] p n total sent = if ltb total n then waits else returned (some total, sent)
write_loop (a ∷ answers) p n total sent = elim (ltb total n) [
  | false ↦ returned (some total, sent)
  | true ↦ elim a [
    | interrupted ↦ write_loop answers p n total sent
    | fails ↦ returned (none, sent)
    | moves k ↦ elim (read_bytes (min k (n - total)) (drop total p)) [
      | none ↦ faults
      | some chunk ↦ write_loop answers p n (total + min k (n - total)) (sent ++ chunk)
    ]
  ]
]

-- `none` past the end of the memory.
unfoldable pub write_bytes : List ℕ → ℕ → List ℕ → Option (List ℕ)
write_bytes mem at chunk =
    if leb (at + length chunk) (length mem)
    then some (take at mem ++ chunk ++ drop (at + length chunk) mem)
    else none

-- The loop over `pread` of `__public__syncio_fread`. The offset is an `int`; the system refuses one below zero.
unfoldable pub read_loop : List Answer → List ℕ → ℕ → ℕ → ℤ → List ℕ → Outcome (Option ℕ × List ℕ)
read_loop [] file n total offset buf = if ltb total n then waits else returned (some total, buf)
read_loop (a ∷ answers) file n total offset buf = elim (ltb total n) [
  | false ↦ returned (some total, buf)
  | true ↦ elim offset [
    | negsuc _ ↦ returned (none, buf)
    | pos at ↦ elim a [
      | interrupted ↦ read_loop answers file n total (pos at) buf
      | fails ↦ returned (none, buf)
      | moves k ↦
          let r = min k (min (n - total) (length file - at)) in
          elim (r == 0) [
            | true ↦ returned (some total, buf)
            | false ↦ elim (write_bytes buf total (take r (drop at file))) [
              | none ↦ faults
              | some buf' ↦ read_loop answers file n (total + r) (to_int (at + r)) buf'
            ]
          ]
    ]
  ]
]

-- A `FILE` is what `fileno` returns for it.
pub record File : Type 0 where
  pub fileno : ℤ

-- The string that stands for a file: NULL, with NULL in it, or with the file.
abbrev pub Handle : Type 0
Handle = Option (Option File)

-- The descriptor of a file, where the arguments pass the tests at the beginning of `__public__syncio_fread` and
-- `__public__syncio_fwrite`; these are the numbers of bytes and the offset, and the bytes of the array.
unfoldable pub check_arguments : Handle → Option (List ℕ) → ℤ → ℤ → Option (List ℕ × ℕ × ℕ)
check_arguments (some (some f)) (some buf) (pos n) (pos offset) =
    if n == 0 || ltb_ℤ f.fileno (pos 0) then none else some (buf, n, offset)
check_arguments f buf n offset = none

unfoldable pub syncio_fread :
    List Answer → List ℕ → Handle → Option (List ℕ) → ℤ → ℤ → Outcome (Option ℕ × List ℕ)
syncio_fread answers file f buf n offset = elim (check_arguments f buf n offset) [
  | none ↦ returned (none, elim buf [ none ↦ [] | some bytes ↦ bytes ])
  | some (bytes, n', offset') ↦ read_loop answers file n' 0 (pos offset') bytes
]

-- The offset moves the pointer into the array. The bytes go to where the descriptor is.
unfoldable pub syncio_fwrite :
    List Answer → Handle → Option (List ℕ) → ℤ → ℤ → Outcome (Option ℕ × List ℕ)
syncio_fwrite answers f buf n offset = elim (check_arguments f buf n offset) [
  | none ↦ returned (none, [])
  | some (bytes, n', offset') ↦ write_loop answers (drop offset' bytes) n' 0 []
]

-- The loop over `read`, on what there is to be read.
unfoldable pub scan_loop : List Answer → List ℕ → ℕ → Outcome (Option (List ℕ))
scan_loop [] input n = waits
scan_loop (interrupted ∷ answers) input n = scan_loop answers input n
scan_loop (fails ∷ answers) input n = returned none
scan_loop (moves k ∷ answers) input n = returned (some (take (min k n) input))

-- The array has n + 1 elements of 8 bytes, all zero, and the bytes that were read are put before a NUL.
unfoldable pub syncio_scan : List Answer → List ℕ → ℤ → Outcome (Option (List ℕ))
syncio_scan answers input (negsuc _) = returned none
syncio_scan answers input (pos n) = elim (n == 0) [
  | true ↦ returned none
  | false ↦ elim (scan_loop answers input n) [
    | waits ↦ waits
    | faults ↦ faults
    | returned none ↦ returned none
    | returned (some text) ↦ elim (write_bytes (replicate (8 * (n + 1)) 0) 0 text) [
      | none ↦ faults
      | some buf ↦ returned (some (set buf (length text) 0))
    ]
  ]
]

-- What the library's `fopen` returns; the string for the file is always allocated.
unfoldable pub syncio_fopen : Option File → Handle
syncio_fopen none = none
syncio_fopen (some f) = some (some f)

unfoldable pub syncio_get_stdout : File → Handle
syncio_get_stdout stdout = some (some stdout)

-- What is returned for what a function of the library returned.
abbrev pub zero_or_fail : ℤ → ℤ
zero_or_fail (pos n) = if n == 0 then pos 0 else negsuc 0
zero_or_fail (negsuc n) = negsuc 0

unfoldable pub syncio_fclose : (File → ℤ) → Handle → ℤ
syncio_fclose fclose (some (some f)) = zero_or_fail (fclose f)
syncio_fclose fclose f = negsuc 0

unfoldable pub syncio_fseek : (File → ℤ → ℤ → ℤ) → Handle → ℤ → ℤ → ℤ
syncio_fseek fseek (some (some f)) offset whence = zero_or_fail (fseek f offset whence)
syncio_fseek fseek f offset whence = negsuc 0

unfoldable pub syncio_fflush : (File → ℤ) → Handle → ℤ
syncio_fflush fflush (some (some f)) = zero_or_fail (fflush f)
syncio_fflush fflush f = negsuc 0
