-- ===== src/Timing/Stamp.antt =====
-- src/timing.hpp: the stamp that each measured body returns, and what it means for a call to stamp.
use boost_openmethod_benchma.Common.{
  ℕ, suc, ◌%◌, ◌^◌, ◌≡◌, sym, ap, ◌∙◌, some, List, [], ◌∷◌, ◌++◌, append_assoc, ◌⊎◌,
}
use boost_openmethod_benchma.Common.Int.{ℤ}
use boost_openmethod_benchma.Machine.{
  Event, World, M, ◌>>=◌, ◌>>◌, pure, emit, rdtscp, load, table, >>=_run,
}
use boost_openmethod_benchma.Timing.Tsc.{StampId, stop_stamp, stop_stamp_lem}

-- `return {stop_stamp(), id};`
unfoldable pub stamp : ℤ → M StampId
unfolding stop_stamp
stamp id = do t ← stop_stamp; pure (record { t = t; id = id })

-- The call does the reads `es`, then takes the counter's value as its very last event, and returns
-- that with `id`.
abbrev pub Stamps : M StampId → ℤ → List Event → Type 0
Stamps m id es =
    (w : World)
    → m w
      ≡ some (
        record { t = w.clock w.readings % 2 ^ 64; id = id },
        record w { readings = suc w.readings; log = rdtscp ∷ (es ++ w.log) },
      )

-- A read of an object or of the library's tables.
abbrev pub IsRead : Event → Type 0
IsRead e = ((a : ℕ) × (e ≡ load a)) ⊎ ((a : ℕ) × (e ≡ table a))

pub stamp-Stamps : (id : ℤ) → Stamps (stamp id) id []
unfolding stamp
stamp-Stamps id w =
    >>=_run stop_stamp (λ t. pure (record { t = t; id = id })) {w = w} (stop_stamp_lem w)

pub emit-Stamps :
    (m : M StampId) (id : ℤ) (es fs : List Event)
    → Stamps m id es
    → Stamps (emit fs >> m) id (es ++ fs)
emit-Stamps m id es fs h w =
    h (record w { log = fs ++ w.log })
    ∙ ap
        (λ l. some (
          record { t = w.clock w.readings % 2 ^ 64; id = id },
          record w { readings = suc w.readings; log = rdtscp ∷ l },
        ))
        (sym (append_assoc es fs w.log))

-- a body that reads, then stamps
pub read-Stamps : (id : ℤ) (es : List Event) → Stamps (emit es >> stamp id) id es
read-Stamps id es = emit-Stamps (stamp id) id [] es (stamp-Stamps id)

-- what a body adds to the id of the stamp that it was returned
pub map_id-Stamps :
    (m : M StampId) (f : ℤ → ℤ) (id : ℤ) (es : List Event)
    → Stamps m id es
    → Stamps (m >>= λ r. pure (record r { id = f r.id })) (f id) es
map_id-Stamps m f id es h w = >>=_run m (λ r. pure (record r { id = f r.id })) {w = w} (h w)
