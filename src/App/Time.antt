-- ===== src/App/Time.antt =====
-- Go's `time.Time`, as far as the services use it: seconds since 1970 and the nanoseconds on top.
use mesh_cart.Base.{ℕ, Bool, ◌&&◌, ◌||◌, ltb, ◌==◌}
use mesh_cart.Base.Int.{ℤ, negsuc, ◌+ℤ◌, ltb_ℤ, eq_ℤ}

pub record Time : Type 0 where
  pub unix : ℤ
  pub nano : ℕ

abbrev pub before : Time → Time → Bool
before a b = ltb_ℤ a.unix b.unix || (eq_ℤ a.unix b.unix && ltb a.nano b.nano)

abbrev pub same_time : Time → Time → Bool
same_time a b = eq_ℤ a.unix b.unix && a.nano == b.nano

-- `Add` of whole seconds.
abbrev pub add_seconds : ℤ → Time → Time
add_seconds s t = record t { unix = t.unix +ℤ s }

-- `IsZero`: midnight of the first of January of the year 1, which is -62135596800.
abbrev pub is_zero : Time → Bool
is_zero t = eq_ℤ t.unix (negsuc 62135596799) && t.nano == 0
