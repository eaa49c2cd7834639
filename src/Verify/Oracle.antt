-- ===== src/Verify/Oracle.antt =====
-- src/main.cpp, `verify`: the values that the calls must return, from the members `tag` alone.
use boost_openmethod_benchma.Common.{if◌then◌else◌}
use boost_openmethod_benchma.Common.Int.{ℤ, pos, negsuc, neg, ◌+ℤ◌, ◌-ℤ◌, ◌==ℤ◌}

-- two arguments, const bodies: `(a->tag == b->tag) ? a->tag : -1`
abbrev pub want2 : ℤ → ℤ → ℤ
want2 a b = if a ==ℤ b then a else negsuc 0

-- two arguments, use bodies: `(a->tag == b->tag) ? a->tag + b->tag : -a->tag - b->tag - 1`
abbrev pub wantu2 : ℤ → ℤ → ℤ
wantu2 a b = if a ==ℤ b then a +ℤ b else neg a -ℤ b -ℤ pos 1
