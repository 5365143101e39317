-- ===== src/Fd/Dispatch.antt =====
-- The calls of root/src/kernel/fd/fd.c that pass their arguments on to a handler.
use qword.Prelude.{get_elem?, ℕ, ◌<◌, ◌^◌, none, some, ◌≡◌, refl}
use qword.Prelude.Int.{ℤ, pos}
use qword.Dynarray.{Table}
use qword.Dynarray.Borrow.{Has, holding, borrow-Has, removed, borrow-removed}
use qword.Fd.{
  FileDescriptor, with_fd, Call, getflflags, setflflags, tcsetattr, tcgetattr, tcflow, isatty,
  perfmon_attach, readdir, read, write, unlink, lseek, fstat, getfdflags, setfdflags,
}

-- The calls by their names, with their arguments besides the descriptor.
pub data Request : Type 0 where
  ask_readdir : ℕ → Request
  ask_read : ℕ → ℕ → Request
  ask_write : ℕ → ℕ → Request
  ask_lseek : ℤ → ℤ → Request
  ask_fstat : ℕ → Request
  ask_unlink : Request
  ask_isatty : Request
  ask_tcgetattr : ℕ → Request
  ask_tcsetattr : ℤ → ℕ → Request
  ask_tcflow : ℤ → Request
  ask_getflflags : Request
  ask_setflflags : ℤ → Request
  ask_perfmon_attach : Request
  ask_getfdflags : Request
  ask_setfdflags : ℤ → Request

module _ {W : Type 0} where
  abbrev pub serve : Request → Call W
  serve (Request.ask_readdir buf) = readdir buf
  serve (Request.ask_read buf len) = read buf len
  serve (Request.ask_write buf len) = write buf len
  serve (Request.ask_lseek offset type) = lseek offset type
  serve (Request.ask_fstat st) = fstat st
  serve Request.ask_unlink = unlink
  serve Request.ask_isatty = isatty
  serve (Request.ask_tcgetattr buf) = tcgetattr buf
  serve (Request.ask_tcsetattr actions buf) = tcsetattr actions buf
  serve (Request.ask_tcflow action) = tcflow action
  serve Request.ask_getflflags = getflflags
  serve (Request.ask_setflflags flags) = setflflags flags
  serve Request.ask_perfmon_attach = perfmon_attach
  serve Request.ask_getfdflags = getfdflags
  serve (Request.ask_setfdflags flags) = setfdflags flags

  -- What the file behind a descriptor does on a request, and the descriptor afterwards.
  abbrev pub answer : Request → FileDescriptor W → W → ℤ × W × FileDescriptor W
  answer (Request.ask_readdir buf) d w =
      let r = d.fd_handler.readdir d.intern_fd buf w in (r.0, r.1, d)
  answer (Request.ask_read buf len) d w =
      let r = d.fd_handler.read d.intern_fd buf len w in (r.0, r.1, d)
  answer (Request.ask_write buf len) d w =
      let r = d.fd_handler.write d.intern_fd buf len w in (r.0, r.1, d)
  answer (Request.ask_lseek offset type) d w =
      let r = d.fd_handler.lseek d.intern_fd offset type w in (r.0, r.1, d)
  answer (Request.ask_fstat st) d w = let r = d.fd_handler.fstat d.intern_fd st w in (r.0, r.1, d)
  answer Request.ask_unlink d w = let r = d.fd_handler.unlink d.intern_fd w in (r.0, r.1, d)
  answer Request.ask_isatty d w = let r = d.fd_handler.isatty d.intern_fd w in (r.0, r.1, d)
  answer (Request.ask_tcgetattr buf) d w =
      let r = d.fd_handler.tcgetattr d.intern_fd buf w in (r.0, r.1, d)
  answer (Request.ask_tcsetattr actions buf) d w =
      let r = d.fd_handler.tcsetattr d.intern_fd actions buf w in (r.0, r.1, d)
  answer (Request.ask_tcflow action) d w =
      let r = d.fd_handler.tcflow d.intern_fd action w in (r.0, r.1, d)
  answer Request.ask_getflflags d w = let r = d.fd_handler.getflflags d.intern_fd w in (r.0, r.1, d)
  answer (Request.ask_setflflags flags) d w =
      let r = d.fd_handler.setflflags d.intern_fd flags w in (r.0, r.1, d)
  answer Request.ask_perfmon_attach d w =
      let r = d.fd_handler.perfmon_attach d.intern_fd w in (r.0, r.1, d)
  answer Request.ask_getfdflags d w = (d.fdflags, w, d)
  answer (Request.ask_setfdflags flags) d w = (pos 0, w, record d { fdflags = flags })

  with_fd-Has :
      (h : FileDescriptor W → W → ℤ × W) (t : Table (FileDescriptor W)) (fd n : ℕ)
      (d : FileDescriptor W) (w : W)
      → n < 2 ^ 31
      → Has t fd n d
      → with_fd h t fd w ≡ some ((h d w).0, holding t fd n d, (h d w).1)
  unfolding with_fd
  with_fd-Has h t fd n d w small has =
      rw (with_fd, borrow-Has (λ d. (h d w, d)) t fd n d small has) refl

  -- Every call on an open descriptor does to the file behind it what its handlers do on the
  -- internal number, returns their result, and gives the reference back: nothing of the table
  -- changes but, for `setfdflags`, the flags of the descriptor.
  pub serve-answer :
      (c : Request) (t : Table (FileDescriptor W)) (fd n : ℕ) (d : FileDescriptor W) (w : W)
      → n < 2 ^ 31
      → Has t fd n d
      → let r = answer c d w in serve c t fd w ≡ some (r.0, holding t fd n r.2, r.1)
  unfolding readdir read write lseek fstat unlink isatty tcgetattr tcsetattr tcflow getflflags
      setflflags perfmon_attach getfdflags setfdflags
  serve-answer (Request.ask_readdir buf) t fd n d w small has = with_fd-Has _ t fd n d w small has
  serve-answer (Request.ask_read buf len) t fd n d w small has = with_fd-Has _ t fd n d w small has
  serve-answer (Request.ask_write buf len) t fd n d w small has = with_fd-Has _ t fd n d w small has
  serve-answer (Request.ask_lseek offset type) t fd n d w small has =
      with_fd-Has _ t fd n d w small has
  serve-answer (Request.ask_fstat st) t fd n d w small has = with_fd-Has _ t fd n d w small has
  serve-answer Request.ask_unlink t fd n d w small has = with_fd-Has _ t fd n d w small has
  serve-answer Request.ask_isatty t fd n d w small has = with_fd-Has _ t fd n d w small has
  serve-answer (Request.ask_tcgetattr buf) t fd n d w small has = with_fd-Has _ t fd n d w small has
  serve-answer (Request.ask_tcsetattr actions buf) t fd n d w small has =
      with_fd-Has _ t fd n d w small has
  serve-answer (Request.ask_tcflow action) t fd n d w small has = with_fd-Has _ t fd n d w small has
  serve-answer Request.ask_getflflags t fd n d w small has = with_fd-Has _ t fd n d w small has
  serve-answer (Request.ask_setflflags flags) t fd n d w small has =
      with_fd-Has _ t fd n d w small has
  serve-answer Request.ask_perfmon_attach t fd n d w small has = with_fd-Has _ t fd n d w small has
  serve-answer Request.ask_getfdflags t fd n d w small has =
      rw (getfdflags, borrow-Has (λ d. (d.fdflags, d)) t fd n d small has) refl
  serve-answer (Request.ask_setfdflags flags) t fd n d w small has =
      rw (setfdflags, borrow-Has (λ d. (pos 0, record d { fdflags = flags })) t fd n d small has)
        refl

  with_fd-closed :
      (h : FileDescriptor W → W → ℤ × W) (t : Table (FileDescriptor W)) (fd n : ℕ)
      (d : FileDescriptor W) (w : W)
      → get_elem? t.slots fd ≡ some (removed n d)
      → with_fd h t fd w ≡ none
  unfolding with_fd
  with_fd-closed h t fd n d w gone =
      rw (with_fd, borrow-removed (λ d. (h d w, d)) t fd n d gone) refl

  -- A request on a descriptor that has been closed follows a null pointer.
  pub serve-closed :
      (c : Request) (t : Table (FileDescriptor W)) (fd n : ℕ) (d : FileDescriptor W) (w : W)
      → get_elem? t.slots fd ≡ some (removed n d)
      → serve c t fd w ≡ none
  unfolding readdir read write lseek fstat unlink isatty tcgetattr tcsetattr tcflow getflflags
      setflflags perfmon_attach getfdflags setfdflags
  serve-closed (Request.ask_readdir buf) t fd n d w gone = with_fd-closed _ t fd n d w gone
  serve-closed (Request.ask_read buf len) t fd n d w gone = with_fd-closed _ t fd n d w gone
  serve-closed (Request.ask_write buf len) t fd n d w gone = with_fd-closed _ t fd n d w gone
  serve-closed (Request.ask_lseek offset type) t fd n d w gone = with_fd-closed _ t fd n d w gone
  serve-closed (Request.ask_fstat st) t fd n d w gone = with_fd-closed _ t fd n d w gone
  serve-closed Request.ask_unlink t fd n d w gone = with_fd-closed _ t fd n d w gone
  serve-closed Request.ask_isatty t fd n d w gone = with_fd-closed _ t fd n d w gone
  serve-closed (Request.ask_tcgetattr buf) t fd n d w gone = with_fd-closed _ t fd n d w gone
  serve-closed (Request.ask_tcsetattr actions buf) t fd n d w gone =
      with_fd-closed _ t fd n d w gone
  serve-closed (Request.ask_tcflow action) t fd n d w gone = with_fd-closed _ t fd n d w gone
  serve-closed Request.ask_getflflags t fd n d w gone = with_fd-closed _ t fd n d w gone
  serve-closed (Request.ask_setflflags flags) t fd n d w gone = with_fd-closed _ t fd n d w gone
  serve-closed Request.ask_perfmon_attach t fd n d w gone = with_fd-closed _ t fd n d w gone
  serve-closed Request.ask_getfdflags t fd n d w gone =
      rw (getfdflags, borrow-removed (λ d. (d.fdflags, d)) t fd n d gone) refl
  serve-closed (Request.ask_setfdflags flags) t fd n d w gone =
      rw (setfdflags, borrow-removed (λ d. (pos 0, record d { fdflags = flags })) t fd n d gone)
        refl
