-- ===== src/Pmm/Tests.antt =====
-- Runs of the page allocator, root/src/kernel/mm/pmm.c, on small bitmaps and memory maps.
use qword.Prelude.{ℕ, ◌*◌, ◌≤◌, ◌<◌, ◌≡◌, refl, ltb, if◌then◌else◌, Bool, true, false}
use qword.Prelude.{List, [], ◌∷◌, Option, some, none, arith}
use qword.Pmm.{Pmm, page_size, read_bitmap}
use qword.Pmm.{scan, pmm_alloc}
use qword.Pmm.FirstFit.{first_fit, all_free}
use qword.Pmm.Alloc.{starts, pmm_alloc-first_fit}
use qword.Pmm.Init.{Region, Boot, init_pmm, init_page, grow}
use qword.Pmm.Init.{aligned_base, aligned_length}
use qword.Pmm.Init.Map.{init_pmm-map, used_by_map}

-- Three used pages, then free ones.
abbrev small_bitmap : Pmm
small_bitmap = record { bits = λ o. ltb o 3; entries = 64; cur_ptr = 4096 }

-- The cursor at the end, and no bit set anywhere.
abbrev scanned : Pmm
scanned = record { bits = λ o. false; entries = 64; cur_ptr = 4160 }

abbrev no_memory : ℕ → ℕ → Bool
no_memory a o = true

abbrev kernel_image : ℕ
kernel_image = 0x200000

abbrev machine : List Region
machine =
    record { base = 0; length = 654336; kind = 1 }
    ∷ record { base = 0x100000; length = 0x1100000; kind = 1 }
    ∷ []

abbrev booted : Boot
booted = record { pmm = small_bitmap; bitmap = 0x1007000 }

two_pages : (pmm_alloc small_bitmap 2).0 ≡ 4099 * page_size
unfolding pmm_alloc scan read_bitmap
two_pages = refl

search : first_fit small_bitmap 2 4096 (starts small_bitmap 2 4096) ≡ some 4099
unfolding first_fit all_free read_bitmap
search = refl

pmm_alloc-first_fit_example : (pmm_alloc small_bitmap 2).0 ≡ 4099 * page_size
pmm_alloc-first_fit_example =
    (pmm_alloc-first_fit small_bitmap 2 (omega arith) (omega arith) (omega arith) search).0

init_pmm-map_example :
    (b : Boot) × (init_pmm no_memory kernel_image machine ≡ some b)
    × (b.bitmap ≡ 0x1007000)
    × (b.pmm.entries ≡ 32768)
    × ((q : ℕ)
        → 4096 ≤ q
        → q < 36864
        → read_bitmap b.pmm q ≡ (if ltb 4096 q then used_by_map machine q true else true))
unfolding aligned_base aligned_length
init_pmm-map_example = init_pmm-map no_memory kernel_image machine (omega arith)

-- A page far behind the end of the bitmap, and what its round leaves.
abbrev far_page : ℕ
far_page = 40000

abbrev or_booted : Option Boot → Boot
or_booted none = booted
or_booted (some b) = b

reached : Boot
reached = or_booted (init_page no_memory 1 (far_page * page_size) booted)

far_round : init_page no_memory 1 (far_page * page_size) booted ≡ some reached
unfolding reached init_page grow pmm_alloc scan read_bitmap
far_round = refl
