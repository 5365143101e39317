-- ===== src/Klib/Tests.antt =====
-- Runs of the routines of root/src/kernel/lib/klib.c.
use qword.Prelude.{ℕ, ◌<◌, ◌≡◌, ◌==◌, if◌then◌else◌, refl, arith}
use qword.Prelude.{List, [], ◌∷◌, ◌++◌, some}
use qword.Klib.{Mem}
use qword.Klib.Memory.{memmove}
use qword.Klib.Memory.Copy.{copied, memmove_lem}
use qword.Klib.Strings.Length.{IsText}
use qword.Klib.Print.{KprintBuf, buf_max}
use qword.Klib.Print.Buffer.{Holds}
use qword.Klib.Print.Digits.{dec_text}
use qword.Klib.Print.Format.{Uptime, Level, Arg, kvprint}
use qword.Klib.Print.Format.Text.{Prints, Converts, kvprint_lem, stamp}

-- "ab" at 10, "abc" at 20, and zeros.
abbrev words : Mem
words x =
    if x == 10
    then 97
    else (if x == 11
        then 98
        else (if x == 20 then 97 else (if x == 21 then 98 else (if x == 22 then 99 else 0))))

ab : IsText words 10 (97 ∷ 98 ∷ [])
ab = omega arith

abc : IsText words 20 (97 ∷ 98 ∷ 99 ∷ [])
abc = omega arith

memmove_lem_example : memmove words 21 20 3 23 ≡ copied words 21 20 3 23
memmove_lem_example = memmove_lem words 21 20 3 23

abbrev no_bytes : ℕ → ℕ
no_bytes x = 0

abbrev noon : Uptime
noon = record { sec = 43200; raw = 43200000 }

-- "n%u"
abbrev format : List ℕ
format = b'n' ∷ b'%' ∷ b'u' ∷ []

format-Prints : Prints noon Level.info format (Arg.uint 7 ∷ []) (b'n' ∷ (dec_text 7 ++ 10 ∷ []))
format-Prints = Prints.plain refl refl (Prints.conversion refl (Converts.unsigned refl) Prints.end)

kvprint_lem_example :
    (b : KprintBuf) × (kvprint noon Level.info no_bytes format (Arg.uint 7 ∷ []) ≡ some b)
    × Holds no_bytes (stamp noon Level.info ++ b'n' ∷ (dec_text 7 ++ 10 ∷ [])) b
    × (b.i < buf_max)
kvprint_lem_example = kvprint_lem noon Level.info no_bytes format-Prints
