-- ===== src/Fd/Tests.antt =====
-- Runs of the calls of root/src/kernel/fd/fd.c on a table with one open file.
use qword.Prelude.{ℕ, ◌≡◌, ◌≢◌, ◌⊎◌, refl, some, none, [], ◌∷◌, arith, true, false, get_elem?}
use qword.Prelude.Int.{ℤ, pos, negsuc}
use qword.Dynarray.{Table}
use qword.Dynarray.Add.{Ends}
use qword.Dynarray.Borrow.{holding}
use qword.Fd.{FdHandler, FileDescriptor, default_fd_handler, close, dup}
use qword.Fd.Dispatch.{Request, serve, serve-answer}
use qword.Fd.Close.{close_lem}
use qword.Fd.Dup.{copy_of, dup_lem}

-- The state is the last error number; the file can be copied, and everything else fails.
abbrev copying : FdHandler ℕ
copying = record (default_fd_handler (λ e w. e)) { dup = λ fd w. (pos 9, w) }

abbrev some_file : FileDescriptor ℕ
some_file = record { intern_fd = pos 4; fdflags = pos 1; fd_handler = copying }

abbrev one_file : Table (FileDescriptor ℕ)
one_file = record {
  slots = some (record { refcount = 1; present = true; value = some_file }) ∷ [];
  i = 1;
}

serve-answer_example :
    serve (Request.ask_lseek (pos 3) (pos 1)) one_file 0 7
    ≡ some (negsuc 0, holding one_file 0 0 some_file, 1026)
serve-answer_example =
    serve-answer (Request.ask_lseek (pos 3) (pos 1)) one_file 0 0 some_file 7 (omega arith) refl

close_lem_example :
    (t' : Table (FileDescriptor ℕ)) × (close one_file 0 7 ≡ some (negsuc 0, t', 1027))
    × ((c : Request) (v : ℕ) → serve c t' 0 v ≡ none)
    × (◌≡◌ {A = ℕ} 0 0 → get_elem? t'.slots 0 ≡ some none)
    × ((j : ℕ) → 0 ≢ j → get_elem? t'.slots j ≡ get_elem? one_file.slots j)
close_lem_example = close_lem one_file 0 0 some_file 7 (omega arith) refl

dup_lem_example :
    ((false ≡ true) × (dup true true one_file 0 7 ≡ some (negsuc 0, one_file, 7)))
    ⊎ ((false ≡ false)
        × (new : ℤ) × (t' : Table (FileDescriptor ℕ)) × (dup true true one_file 0 7
            ≡ some (new, t', 7))
        × Ends one_file (copy_of some_file (pos 9)) new t')
dup_lem_example = dup_lem true true one_file 0 0 some_file 7 (omega arith) refl refl
