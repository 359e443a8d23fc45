-- ===== src/Types/Instant.antt =====
-- The operations of package `time` that the code uses.
use memmy.Prelude.{◌*◌, ◌/◌, ◌==◌, ℕ, ◌-◌, ◌^◌, Bool, leb, if◌then◌else◌}
use memmy.Prelude.Int.{ℤ, pos, negsuc, int_ltb, sub_ℕ}

abbrev pub Time : Type 0
Time = ℕ

abbrev pub max_duration : ℕ
max_duration = 2 ^ 63 - 1

-- `t.Sub(u)`, which saturates at the least and the greatest `time.Duration`.
unfoldable pub since : Time → Time → ℤ
since t u =
    if leb u t
    then pos (if leb (t - u) max_duration then t - u else max_duration)
    else negsuc (if leb (u - t - 1) max_duration then u - t - 1 else max_duration)

abbrev pub positive : ℤ → Bool
positive d = int_ltb (pos 0) d

-- The Unix epoch, in milliseconds since Go's zero time.
abbrev pub epoch_ms : ℕ
epoch_ms = 62135596800000

-- `UnixMilli` on the way in and `asUnixMs` on the way out: whole milliseconds, and the epoch itself
-- is read back as the zero time.
unfoldable pub to_millis : Time → Time
to_millis t = if t / 1000000 == epoch_ms then 0 else t / 1000000 * 1000000

-- `UnixMilli`.
abbrev pub unix_ms : Time → ℤ
unix_ms t = sub_ℕ (t / 1000000) epoch_ms
