-- ===== src/Disk/Tests.antt =====
-- The functions of runtime/src/diskio.c at concrete inputs.
use picasso_lang.Base.{
  ◌≢◌, ℕ, ◌≡◌, refl, ◌-◌, min, Option, none, some, List, [], ◌∷◌, ◌++◌, length, take, drop, arith,
  true, replicate,
}
use picasso_lang.Base.Int.{pos}
use picasso_lang.Text.Ops.{Str}
use picasso_lang.Text.Ops.Content.{content}
use picasso_lang.Text.Format.{Arg, long}
use picasso_lang.Text.Format.Spec.{Typed, plain, long_of, ends, Prints}
use picasso_lang.Disk.{
  Answer, moves, interrupted, returned, File, check_arguments, read_loop, syncio_fread,
  syncio_fwrite, syncio_scan, write_bytes,
}
use picasso_lang.Disk.Printf.{syncio_printf}
use picasso_lang.Disk.Loops.{Result}
use picasso_lang.Disk.Files.{syncio_fread-Result, syncio_fwrite-Result, syncio_printf-text}

abbrev third : File
third = record { fileno = pos 3 }

abbrev digits : List ℕ
digits = 48 ∷ 49 ∷ 50 ∷ 51 ∷ 52 ∷ []

abbrev five : List ℕ
five = 9 ∷ 8 ∷ 7 ∷ 6 ∷ 5 ∷ []

-- Four bytes are asked for from offset 2 on, and there are three, which come in two calls.
abbrev slow : List Answer
slow = moves 1 ∷ interrupted ∷ moves 7 ∷ moves 7 ∷ moves 7 ∷ []

fread_runs :
    syncio_fread slow digits (some (some third)) (some five) (pos 4) (pos 2)
    ≡ returned (some 3, 50 ∷ 51 ∷ 52 ∷ 6 ∷ 5 ∷ [])
unfolding syncio_fread check_arguments read_loop write_bytes
fread_runs = refl

scan_runs : syncio_scan (interrupted ∷ moves 9 ∷ []) (65 ∷ 66 ∷ []) (pos 0) ≡ returned none
unfolding syncio_scan
scan_runs = refl

syncio_fread-Result_example :
    (r : Option ℕ) × (j : ℕ) × (syncio_fread slow digits
        (some (some third))
        (some five)
        (pos 4)
        (pos 2)
      ≡ returned (r, take j (drop 2 digits) ++ drop j five))
    × Result slow (min 4 (length digits - 2)) j r
syncio_fread-Result_example =
    syncio_fread-Result slow digits third five 4 2 (omega arith) refl (omega arith) (omega arith)
      (omega arith) (omega arith)

syncio_fwrite-Result_example :
    (r : Option ℕ) × (j : ℕ) × (syncio_fwrite slow (some (some third)) (some five) (pos 3) (pos 2)
      ≡ returned (r, take j (drop 2 five)))
    × Result slow 3 j r
syncio_fwrite-Result_example =
    syncio_fwrite-Result slow third five 3 2 (omega arith) refl (omega arith) (omega arith)
      (omega arith)

-- "a%ld" with 7.
abbrev letter_and_long : Str
letter_and_long = record { bytes = 97 ∷ 37 ∷ 108 ∷ 100 ∷ []; size = 4 }

abbrev print_double : ℕ → List ℕ
print_double d = d ∷ []

abbrev seven : List (Arg ℕ)
seven = long 7 ∷ []

a_plain : ◌≢◌ {A = ℕ} 97 37
a_plain = ground arith

abbrev letter_and_long-Typed : Typed true (content letter_and_long) seven
letter_and_long-Typed =
    plain 97 (37 ∷ 108 ∷ 100 ∷ []) seven a_plain
      (long_of 7 (100 ∷ []) [] (omega arith) refl (ends []))

-- One byte each time.
abbrev slowest : List Answer
slowest = replicate 22 (moves 1)

syncio_printf-text_example :
    (text : List ℕ) × Prints print_double letter_and_long-Typed text
    × (syncio_printf print_double slowest (some letter_and_long) seven
        ≡ returned (some (length text), text))
syncio_printf-text_example =
    syncio_printf-text print_double slowest letter_and_long seven letter_and_long-Typed
      (omega arith) (omega arith) refl (omega arith) (omega arith)
