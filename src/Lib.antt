-- ===== src/Lib.antt =====
-- A verification library for the open-method latency benchmark: a program that measures how long
-- dispatches of the Boost.OpenMethod library take, next to virtual functions, in three cache modes.
--
-- The program parses its options (main.cpp, `parse`), makes the objects (`env`), checks that every
-- dispatch path reaches the right overrider (`verify`), runs each variant in each cache mode (`run`)
-- and prints a table (`report`). A variant's call ends in a body of src/hierarchy.hpp,
-- src/registries.hpp or src/use_methods.hpp, which stamps the time as it is reached. src/timing.hpp
-- holds the counter, the cache scrubber and the statistics.
--
-- The files, and the code that they model:
--   Timing/Tsc, Timing/Stamp   src/timing.hpp: `tsc_start`, `tsc_stop`, `stop_stamp`, `elapsed`
--   Timing/Flush, Timing/Scrub src/timing.hpp: `flush_range`, `scrubber`
--   Timing/Stats               src/timing.hpp: `stats`, `summarize`
--   Timing/Calibrate           src/timing.hpp: `calibrate_tsc_hz`, `measure_tsc_floor`
--   Hierarchy                  src/hierarchy.hpp: `Base`, `Derived`, `IBase`, `IDerived`, factories
--   Registries, UseMethods     src/registries.hpp, src/use_methods.hpp: methods, overriders
--                              and their registration, regions to flush
--   Config, Cli                src/main.cpp: `config`, `parse`
--   Env                        src/main.cpp: `ipopulation`, `env`
--   Variants                   src/main.cpp: the structs `v_...`
--   Run                        src/main.cpp: `row`, `timed_call`, `run`
--   Verify                     src/main.cpp: `verify`
--   Main                       src/main.cpp: `main_impl`, with its cache modes and rows
--   Report                     src/main.cpp: the figures, lines and text of `report`
--   Probe                      src/dispatch_probe.cpp: the dispatches compiled on their own
-- Common holds shared helpers, Machine the state that the instructions act on, Library, OpenMethod
-- and Platform what the program takes from elsewhere, Vector the greatest size of a `std::vector`, and
-- Examples the tests.
--
-- State is passed on explicitly: a step is a function from the machine's state to an optional result
-- and state, where none stands for undefined behaviour, an exception (the program catches none) or
-- fuel that ran out. The log of the state holds the instructions and reads in order, the newest
-- first. A pointer to an object is the object itself, since objects do not change. `std::size_t` has
-- 2^n values for a parameter n, and the code's sums and products in it wrap around. A vector longer
-- than `max_size()` is an exception, an overflow of a `std::int64_t` and a number that `std::atoi`
-- does not define are undefined. Memory is taken to suffice. `double` is an abstract type of which
-- no law is assumed.
--
-- Loops that count by 64, 89 or 97 run on fuel: more than the number of steps of the loop where nothing
-- wraps around, which the theorems show to be enough. The loop of the calibration waits for the clock:
-- its fuel is a parameter, and the theorems ask that the clock advances within it. The other loops
-- recurse on a list or on a counter.
--
-- Parameters: the choice of the overrider and the reads before it (OpenMethod, with the library's
-- documentation as hypotheses), the random numbers, where things lie in memory (Platform), and how
-- `printf` writes a `double` (Report/Csv).
--
-- Not modelled: processor pinning, on which only a warning depends, the library's `initialize`,
-- and the scripts.
pub mod Common
pub mod Machine
pub mod Timing
pub mod Library
pub mod Hierarchy
pub mod OpenMethod
pub mod Registries
pub mod UseMethods
pub mod Platform
pub mod Config
pub mod Cli
pub mod Env
pub mod Variants
pub mod Vector
pub mod Run
pub mod Verify
pub mod Main
pub mod Probe
pub mod Report
pub mod Examples
