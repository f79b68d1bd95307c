-- ===== src/Stream/Tests.antt =====
-- Runs of the swaps.
use the_foundation.Base.{◌≡◌, refl}
use the_foundation.Stream.{swap16, swap32, swap64}

swap16_run : swap16 0x0102 ≡ 0x0201
unfolding swap16
swap16_run = refl

swap32_run : swap32 0x0102_0304 ≡ 0x0403_0201
unfolding swap32
swap32_run = refl

swap64_run : swap64 0x0102_0304_0506_0708 ≡ 0x0807_0605_0403_0201
unfolding swap64 swap32
swap64_run = refl
