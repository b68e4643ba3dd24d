-- ===== src/ThreadInfo/Tests.antt =====
-- The theorems on `get_threads_info` at the sample kernel.
use awk.Base.{ℕ, [], ◌∷◌, arith, refl}
use awk.Kernel.{ThreadState, Thread, Kernel}
use awk.ThreadInfo.Fill.{AllCarried}
use awk.ThreadSamples.{known, known_runner, thread_of, life_kernel}

abbrev parent : Thread
parent = thread_of ThreadState.running

abbrev over : Thread
over = thread_of ThreadState.zombie

abbrev kernel : Kernel ℕ
kernel = life_kernel parent 0

kernel-AllCarried : AllCarried kernel ((known, over) ∷ (known_runner, parent) ∷ [])
kernel-AllCarried = (omega arith, refl, (omega arith, refl, tt))
