-- ===== src/Tests/Texts.antt =====
-- The texts that a process writes to sysfs, and the worker threads, on concrete values.
use pxmod.Common.{ℕ, ◌≡◌, ◌≢◌, refl, arith, false, none, some, [], ◌∷◌, ◌==◌, ◌||◌}
use pxmod.Sysfs.{Ctype, strip_nl, strip_end, strip_front, paths_of}
use pxmod.Sysfs.Strip.{strip_nl_lem, strip_nl-overruns}
use pxmod.Sysfs.Paths.{paths_of_lem, paths-unterminated}
use pxmod.Fastpath.Workers.{check_fpthreads, fastpath_queue_work, worker, outside, PerCpu}
use pxmod.Fastpath.Workers.Laws.{queue_work-inside}

-- Space and newline.
abbrev ascii : Ctype
ascii = record { isspace = λ c. c == 32 || c == 10; iscntrl = λ c. c == 10 }

-- " ab\n".
strip_nl_lem_example : strip_nl ascii 256 (32 ∷ 97 ∷ 32 ∷ 98 ∷ 10 ∷ []) ≡ some (97 ∷ 32 ∷ 98 ∷ [])
strip_nl_lem_example =
    strip_nl_lem ascii 256 (32 ∷ []) (97 ∷ 32 ∷ 98 ∷ []) (10 ∷ []) refl (refl, refl) refl
      (omega arith)

-- Four blanks before the text, for a buffer of four characters.
strip_nl-overruns_example : strip_nl ascii 4 (32 ∷ 32 ∷ 32 ∷ 32 ∷ 97 ∷ []) ≡ none
strip_nl-overruns_example =
    strip_nl-overruns ascii 4 (32 ∷ 32 ∷ 32 ∷ 32 ∷ []) (97 ∷ []) refl (omega arith) (omega arith)

strip_a : strip_nl ascii 256 (97 ∷ []) ≡ some (97 ∷ [])
unfolding strip_nl strip_front strip_end
strip_a = refl

strip_b : strip_nl ascii 256 (98 ∷ 10 ∷ []) ≡ some (98 ∷ [])
unfolding strip_nl strip_front strip_end
strip_b = refl

-- "a,b\n,a", and "a,b\n".
paths_of_lem_example :
    (paths_of ascii (97 ∷ 44 ∷ 98 ∷ 10 ∷ 44 ∷ 97 ∷ 0 ∷ [])
      ≡ some ((97 ∷ []) ∷ (98 ∷ []) ∷ (97 ∷ []) ∷ []))
    × (paths_of ascii (97 ∷ 44 ∷ 98 ∷ 10 ∷ 0 ∷ []) ≡ some ((97 ∷ []) ∷ (98 ∷ []) ∷ (98 ∷ []) ∷ []))
paths_of_lem_example =
    paths_of_lem ascii (97 ∷ []) (98 ∷ 10 ∷ []) (97 ∷ []) (97 ∷ []) (98 ∷ []) (97 ∷ []) refl refl
      refl strip_a strip_b strip_a []

paths-unterminated_example :
    (paths_of ascii (97 ∷ []) ≡ none)
    × (paths_of ascii (97 ∷ 44 ∷ 98 ∷ 10 ∷ []) ≡ none)
    × (paths_of ascii (97 ∷ 44 ∷ 98 ∷ 10 ∷ 44 ∷ 97 ∷ []) ≡ none)
paths-unterminated_example =
    paths-unterminated ascii (97 ∷ []) (98 ∷ 10 ∷ []) (97 ∷ []) (97 ∷ []) (98 ∷ []) (97 ∷ []) refl
      refl refl strip_a strip_b strip_a

abbrev counters : ℕ → PerCpu
counters cpu = record { fpbatch = 7; mapped_cpu = cpu }

two_threads : check_fpthreads 2 ≢ 0
unfolding check_fpthreads
two_threads e = omega arith

-- Two threads, and CPU 3.
queue_work-inside_example :
    ((fastpath_queue_work (check_fpthreads 2) 8 100 (some (100 ∷ 101 ∷ [])) 3 false counters).0
      ≢ outside)
    × (2 ≡ check_fpthreads 2
        → (w : ℕ) × ((fastpath_queue_work
              (check_fpthreads 2)
              8
              100
              (some (100 ∷ 101 ∷ []))
              3
              false
              counters).0
            ≡ worker w))
queue_work-inside_example = queue_work-inside 2 8 100 3 (100 ∷ 101 ∷ []) false counters two_threads
