-- ===== src/Examples/Options.antt =====
-- Examples of command lines.
use boost_openmethod_benchma.Common.{◌^◌, ◌≡◌, refl, arith, true, false, some}
use boost_openmethod_benchma.Timing.Flush.{warm}
use boost_openmethod_benchma.Cli.{settings, parse}
use boost_openmethod_benchma.Cli.RoundTrip.{arguments, asked, parse-arguments}

parse-arguments_example :
    parse (2 ^ 64) (arguments 500 4096 64 2 12345 (some warm) true false)
    ≡ settings (asked 500 4096 64 2 12345 (some warm) true false)
parse-arguments_example =
    parse-arguments (2 ^ 64) 500 4096 64 2 12345 (omega arith) (omega arith) (omega arith)
      (omega arith) (omega arith) (omega arith) (omega arith) (some warm) true false
      (record {
        some_object = omega arith;
        some_rep = omega arith;
        some_sweep = omega arith;
        sweep_fits = omega arith;
        cpu_index = (2, refl);
      })
