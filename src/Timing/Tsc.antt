-- ===== src/Timing/Tsc.antt =====
-- src/timing.hpp: readings of the time-stamp counter, and the cycles between two of them.
use Prim.Native.Nat.{bit_or}
use boost_openmethod_benchma.Common.{
  ℕ, ◌+◌, ◌-◌, ◌*◌, ◌/◌, ◌%◌, ◌^◌, ◌≤◌, ◌<◌, ◌≡◌, arith, some, [], ◌∷◌, suc, refl,
}
use boost_openmethod_benchma.Common.Int.{ℤ}
use boost_openmethod_benchma.Common.Bits.{bit_or_halves}
use boost_openmethod_benchma.Machine.{
  World, M, ◌>>=◌, ◌>>◌, pure, emit, read_counter, lfence, rdtsc, rdtscp,
}

-- `tsc_reading`: the raw halves of the counter, not yet put together.
pub record TscReading : Type 0 where
  pub lo : ℕ
  pub hi : ℕ

-- `tsc_start`: lfence; rdtsc; lfence.
unfoldable pub tsc_start : M TscReading
tsc_start = do
  emit (rdtsc ∷ lfence ∷ [])
  halves ← read_counter
  emit (lfence ∷ [])
  pure (record { lo = halves.0; hi = halves.1 })

-- `tsc_stop`: rdtscp; lfence.
unfoldable pub tsc_stop : M TscReading
tsc_stop = do
  emit (rdtscp ∷ [])
  halves ← read_counter
  emit (lfence ∷ [])
  pure (record { lo = halves.0; hi = halves.1 })

-- `(uint64_t(hi) << 32) | lo`
unfoldable pub assemble : ℕ → ℕ → ℕ
assemble lo hi = bit_or (hi * 2 ^ 32 % 2 ^ 64) lo

-- `stop_stamp`: rdtscp, put together at once.
unfoldable pub stop_stamp : M ℕ
unfolding assemble
stop_stamp = do emit (rdtscp ∷ []); halves ← read_counter; pure (assemble halves.0 halves.1)

-- `stamp_id`: the arrival stamp, and the value that the verification compares.
pub record StampId : Type 0 where
  pub t : ℕ
  pub id : ℤ

-- `elapsed_to`: a subtraction of 64-bit words.
unfoldable pub elapsed_to : TscReading → ℕ → ℕ
unfolding assemble
elapsed_to start stop = (stop + 2 ^ 64 - assemble start.lo start.hi) % 2 ^ 64

-- `elapsed`
unfoldable pub elapsed : TscReading → TscReading → ℕ
unfolding assemble
elapsed start stop =
    let t0 = assemble start.lo start.hi in
    let t1 = assemble stop.lo stop.hi in (t1 + 2 ^ 64 - t0) % 2 ^ 64

-- The two halves of a count are its lowest 64 bits.
pub assemble_lem : (n : ℕ) → assemble (n % 2 ^ 32) (n / 2 ^ 32 % 2 ^ 32) ≡ n % 2 ^ 64
unfolding assemble
assemble_lem n =
    let hi = n / 2 ^ 32 % 2 ^ 32 in
    let fits : hi * 2 ^ 32 % 2 ^ 64 ≡ hi * 2 ^ 32 = omega arith in
    rw fits (omega (arith, bit_or_halves 32 hi (n % 2 ^ 32) (omega arith)))

-- the halves that a reading of the count `n` leaves in `edx:eax`
abbrev pub reading : ℕ → TscReading
reading n = record { lo = n % 2 ^ 32; hi = n / 2 ^ 32 % 2 ^ 32 }

pub tsc_start_lem :
    (w : World)
    → tsc_start w
      ≡ some (
        reading (w.clock w.readings),
        record w { readings = suc w.readings; log = lfence ∷ rdtsc ∷ lfence ∷ w.log },
      )
unfolding tsc_start
tsc_start_lem w = refl

pub stop_stamp_lem :
    (w : World)
    → stop_stamp w
      ≡ some (
        w.clock w.readings % 2 ^ 64,
        record w { readings = suc w.readings; log = rdtscp ∷ w.log },
      )
unfolding stop_stamp
stop_stamp_lem w = rw (← assemble_lem (w.clock w.readings))

-- The cycles between two readings are the ticks that passed, also when the low half or the whole
-- 64-bit counter wraps around between them, as long as fewer than 2^64 ticks passed.
pub elapsed_exact :
    (from to : ℕ)
    → from ≤ to
    → to < from + 2 ^ 64
    → (elapsed (reading from) (reading to) ≡ to - from)
      × (elapsed_to (reading from) (to % 2 ^ 64) ≡ to - from)
unfolding elapsed elapsed_to
elapsed_exact from to h k = simp assemble_lem (omega arith, omega arith)
